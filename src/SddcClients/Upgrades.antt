-- ===== src/SddcClients/Upgrades.antt =====
-- clients/sddc_upgrades.py.
use saltext_vmware.Base.{String, ◌<>◌, Option}
use saltext_vmware.Json.{Json, null}
use saltext_vmware.Exec.{Env, Exec, show}
use saltext_vmware.Rest.{or_none}
use saltext_vmware.Sddc.Api.{api_get, api_post}

abbrev path : String
path = "/v1/upgrades"

module _ ⦃E : Env⦄ (opts : Json) where
  unfoldable pub list : Option String → Exec Json
  list profile = api_get opts path null profile

  unfoldable pub get : Json → Option String → Exec Json
  get upgrade_id profile = api_get opts (path <> "/" <> show upgrade_id) null profile

  unfoldable pub get_or_none : Json → Option String → Exec Json
  get_or_none upgrade_id profile = or_none (get upgrade_id profile)

  unfoldable pub start : Json → Option String → Exec Json
  start upgrade_spec profile = api_post opts path upgrade_spec profile
