-- ===== src/Rest.antt =====
-- What the REST clients share: a read that answers `None` where there is nothing, and the search of
-- an element by its name.
pub mod Answers
use saltext_vmware.Base.{String, Bool, Option, none, some, List, [], ◌∷◌, if◌then◌else◌}
use saltext_vmware.Json.{Json, Items, null, arr, nil, cons, ◌or◌}
use saltext_vmware.Json.Equal.{equal}
use saltext_vmware.Http.{Result, ok, err, out_of_fuel, get}
use saltext_vmware.Exec.{Env, Exec, pure, raise, lift, catch_http, ◌>>=◌}
use saltext_vmware.Vcenter.Task.{is_not_found}
use saltext_vmware.Sddc.Errors.{iterate}

module _ ⦃E : Env⦄ where
  -- The `try` of each `get_or_none`
  unfoldable pub or_none : Exec Json → Exec Json
  or_none m = catch_http m (λ e. if is_not_found e then pure null else raise e)

  -- `for el in elements: if el.get(key) == name: return el`, and `None` after the loop
  unfoldable pub first_with : String → Json → List Json → Exec Json
  first_with key name [] = pure null
  first_with key name (el ∷ els) = do
    found ← lift (get el key null)
    if equal found name then pure el else first_with key name els

  -- The same over `body.get("elements") or []`
  unfoldable pub element_with : String → Json → Json → Exec Json
  element_with key name body = do
    elements ← lift (get body "elements" null)
    els ← lift (iterate (elements or arr nil))
    first_with key name els

unfoldable pub from_list : List Json → Items
from_list [] = nil
from_list (v ∷ vs) = cons v (from_list vs)

-- `list(v)`
unfoldable pub as_list : Json → Result Json
as_list v = elim (iterate v) [
  | ok vs ↦ ok (arr (from_list vs))
  | err e ↦ err e
  | out_of_fuel ↦ out_of_fuel
]
