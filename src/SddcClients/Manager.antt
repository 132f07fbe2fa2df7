-- ===== src/SddcClients/Manager.antt =====
-- clients/sddc_manager.py.
use saltext_vmware.Base.{String, Bool, false, ◌||◌, Option, none, some, eqb, if◌then◌else◌}
use saltext_vmware.Json.{Json, null}
use saltext_vmware.Http.{Exc}
use saltext_vmware.Exec.{Env, Exec, pure, raise, catch_http}
use saltext_vmware.Sddc.Api.{api_get}

module _ ⦃E : Env⦄ (opts : Json) where
  unfoldable pub get : Option String → Exec Json
  get profile = api_get opts "/v1/sddc-manager" null profile

  -- `exc.response is not None and exc.response.status_code in (404, 503)`
  unfoldable pub is_absent : Exc → Bool
  is_absent e = elim e.response [
    | none ↦ false
    | some resp ↦ eqb resp.status_code 404 || eqb resp.status_code 503
  ]

  unfoldable pub get_or_none : Option String → Exec Json
  get_or_none profile = catch_http (get profile) (λ e. if is_absent e then pure null else raise e)
