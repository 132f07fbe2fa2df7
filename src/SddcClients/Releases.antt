-- ===== src/SddcClients/Releases.antt =====
-- clients/sddc_releases.py.
use saltext_vmware.Base.{String, ◌<>◌, Option}
use saltext_vmware.Json.{Json, null, obj, field, end}
use saltext_vmware.Exec.{Env, Exec, show}
use saltext_vmware.Sddc.Api.{api_get}

abbrev path : String
path = "/v1/releases"

module _ ⦃E : Env⦄ (opts : Json) where
  unfoldable pub list : Option String → Exec Json
  list profile = api_get opts path null profile

  unfoldable pub domain : Json → Option String → Exec Json
  domain domain_id profile = api_get opts path (obj (field "domainId" domain_id end)) profile

  unfoldable pub system : Option String → Exec Json
  system profile = api_get opts "/v1/system/release" null profile

  unfoldable pub custom_patches : Json → Option String → Exec Json
  custom_patches domain_id profile =
      api_get opts (path <> "/domains/" <> show domain_id <> "/custom-patches") null profile
