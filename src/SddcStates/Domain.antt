-- ===== src/SddcStates/Domain.antt =====
-- `present` and `absent` of states/vcf_sddc_domain.py.
use saltext_vmware.Base.{String, ◌<>◌, not, Option, none, some, if◌then◌else◌}
use saltext_vmware.Json.{Json, null, str, obj, field, end, lookup, insert, is_none, truthy}
use saltext_vmware.Json.{◌or◌}
use saltext_vmware.Http.{exc, type_error, Result, ok, err, get, item}
use saltext_vmware.Exec.{Env, Exec, pure, lift, ◌>>=◌, ◌>>◌}
use saltext_vmware.PatchState.Ret.{Ret, fresh}
use saltext_vmware.SddcClients.Domain.{get_by_name, create, mark_for_deletion}

-- `dict(spec)` with `setdefault("domainName", name)`; a spec that is no dict raises.
unfoldable pub named_body : String → Json → Result Json
named_body name (obj fs) = ok (elim (lookup fs "domainName") [
  | none ↦ obj (insert fs "domainName" (str name))
  | some v ↦ obj fs
])
named_body name _ = err (exc type_error "the spec is not a dict")

module _ ⦃E : Env⦄ (opts : Json) (name : String) (profile : Option String) where
  unfoldable pub domain : String → String
  domain what = "Workload domain " <> name <> what

  unfoldable pub create_domain : Json → Exec Ret
  create_domain spec = do
    body ← lift (named_body name spec)
    created ← create opts body profile
    id ← lift (get created "id" null)
    pure (record (fresh name) {
      changes = obj (field "new" (id or str name) end);
      comment = domain " created";
    })

  unfoldable pub create_unless_test : Json → Exec Ret
  create_unless_test spec = do
    test ← lift (item opts "test")
    if truthy test
        then pure (record (fresh name) { result = none; comment = domain " would be created" })
        else create_domain spec

  unfoldable pub present : Json → Exec Ret
  present spec = do
    current ← get_by_name opts (str name) profile
    if not (is_none current)
        then pure (record (fresh name) { comment = domain " is already present" })
        else create_unless_test spec

  unfoldable pub mark_domain : Json → Exec Ret
  mark_domain domain_id = do
    mark_for_deletion opts domain_id profile
    pure (record (fresh name) {
      changes = obj (field "marked_for_deletion" domain_id end);
      comment = domain " marked for deletion";
    })

  unfoldable pub mark_unless_test : Json → Exec Ret
  mark_unless_test domain_id = do
    test ← lift (item opts "test")
    if truthy test
        then pure (record (fresh name) {
          result = none;
          comment = domain " would be marked for deletion";
        })
        else mark_domain domain_id

  unfoldable pub mark_if_there : Json → Exec Ret
  mark_if_there current =
      if is_none current
      then pure (record (fresh name) { comment = domain " is already absent" })
      else do id ← lift (get current "id" null); mark_unless_test (id or str name)

  unfoldable pub absent : Exec Ret
  absent = do current ← get_by_name opts (str name) profile; mark_if_there current
