-- ===== src/SddcClients/Avn.antt =====
-- clients/sddc_avn.py.
use saltext_vmware.Base.{String, ◌<>◌, Option}
use saltext_vmware.Json.{Json, null}
use saltext_vmware.Exec.{Env, Exec, show}
use saltext_vmware.Rest.{or_none}
use saltext_vmware.Sddc.Api.{api_get, api_post}

abbrev path : String
path = "/v1/avns"

module _ ⦃E : Env⦄ (opts : Json) where
  unfoldable pub list : Option String → Exec Json
  list profile = api_get opts path null profile

  unfoldable pub get : Json → Option String → Exec Json
  get avn_id profile = api_get opts (path <> "/" <> show avn_id) null profile

  unfoldable pub get_or_none : Json → Option String → Exec Json
  get_or_none avn_id profile = or_none (get avn_id profile)

  unfoldable pub validate : Json → Option String → Exec Json
  validate spec profile = api_post opts "/v1/avn-validations" spec profile

  unfoldable pub create : Json → Option String → Exec Json
  create spec profile = api_post opts path spec profile
