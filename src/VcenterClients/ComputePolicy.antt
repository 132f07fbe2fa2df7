-- ===== src/VcenterClients/ComputePolicy.antt =====
-- clients/vcenter_compute_policy.py.
use saltext_vmware.Base.{String, ◌<>◌, Option}
use saltext_vmware.Json.{Json, null}
use saltext_vmware.Exec.{Env, Exec, show}
use saltext_vmware.Rest.{or_none}
use saltext_vmware.Vcenter.Api.{api_get, api_delete}

abbrev path : String
path = "/api/vcenter/compute/policies"

module _ ⦃E : Env⦄ (opts : Json) where
  unfoldable pub list : Option String → Exec Json
  list profile = api_get opts path null profile null

  unfoldable pub get : Json → Option String → Exec Json
  get policy_id profile = api_get opts (path <> "/" <> show policy_id) null profile null

  unfoldable pub get_or_none : Json → Option String → Exec Json
  get_or_none policy_id profile = or_none (get policy_id profile)

  unfoldable pub delete : Json → Option String → Exec Json
  delete policy_id profile = api_delete opts (path <> "/" <> show policy_id) null profile null
