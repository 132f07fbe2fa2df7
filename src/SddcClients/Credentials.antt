-- ===== src/SddcClients/Credentials.antt =====
-- clients/sddc_credentials.py.
use saltext_vmware.Base.{String, Option}
use saltext_vmware.Json.{Json, null, str, obj, field, end}
use saltext_vmware.Exec.{Env, Exec}
use saltext_vmware.Sddc.Api.{api_get, api_patch}

abbrev path : String
path = "/v1/credentials"

module _ ⦃E : Env⦄ (opts : Json) where
  unfoldable pub list : Option String → Exec Json
  list profile = api_get opts path null profile

  unfoldable pub rotate : Json → Option String → Exec Json
  rotate elements profile =
      api_patch opts path
        (obj (field "operationType" (str "ROTATE") (field "elements" elements end))) profile
