-- ===== src/SddcClients/VcfServices.antt =====
-- clients/sddc_vcf_services.py.
use saltext_vmware.Base.{String, ◌<>◌, Option}
use saltext_vmware.Json.{Json, null, obj}
use saltext_vmware.Exec.{Env, Exec, pure, ◌>>=◌, show}
use saltext_vmware.Rest.{or_none, element_with}
use saltext_vmware.Sddc.Api.{api_get}

abbrev path : String
path = "/v1/vcf-services"

module _ ⦃E : Env⦄ (opts : Json) where
  unfoldable pub list : Option String → Exec Json
  list profile = api_get opts path null profile

  unfoldable pub get : Json → Option String → Exec Json
  get service_id profile = api_get opts (path <> "/" <> show service_id) null profile

  unfoldable pub get_or_none : Json → Option String → Exec Json
  get_or_none service_id profile = or_none (get service_id profile)

  unfoldable pub search_by_name : Json → Json → Exec Json
  search_by_name name (obj fs) = element_with "name" name (obj fs)
  search_by_name name _ = pure null

  unfoldable pub get_by_name : Json → Option String → Exec Json
  get_by_name name profile = do body ← list profile; search_by_name name body
