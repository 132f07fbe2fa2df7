-- ===== src/SddcClients/Host.antt =====
-- clients/sddc_host.py.
use saltext_vmware.Base.{String, ◌<>◌, Option}
use saltext_vmware.Json.{Json, null}
use saltext_vmware.Exec.{Env, Exec, show}
use saltext_vmware.Rest.{or_none}
use saltext_vmware.Sddc.Api.{api_get, api_post, api_delete}

abbrev path : String
path = "/v1/hosts"

module _ ⦃E : Env⦄ (opts : Json) where
  unfoldable pub list : Option String → Exec Json
  list profile = api_get opts path null profile

  unfoldable pub get : Json → Option String → Exec Json
  get host profile = api_get opts (path <> "/" <> show host) null profile

  unfoldable pub get_or_none : Json → Option String → Exec Json
  get_or_none host profile = or_none (get host profile)

  unfoldable pub commission : Json → Option String → Exec Json
  commission host_specs profile = api_post opts path host_specs profile

  unfoldable pub decommission : Json → Option String → Exec Json
  decommission host profile = api_delete opts (path <> "/" <> show host) profile
