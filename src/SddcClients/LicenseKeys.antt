-- ===== src/SddcClients/LicenseKeys.antt =====
-- clients/sddc_license_keys.py.
use saltext_vmware.Base.{String, ◌<>◌, Option}
use saltext_vmware.Json.{Json, null, obj, field, end}
use saltext_vmware.Exec.{Env, Exec, show}
use saltext_vmware.Rest.{or_none}
use saltext_vmware.Sddc.Api.{api_get, api_post, api_delete}

abbrev path : String
path = "/v1/license-keys"

module _ ⦃E : Env⦄ (opts : Json) where
  unfoldable pub list : Option String → Exec Json
  list profile = api_get opts path null profile

  unfoldable pub get : Json → Option String → Exec Json
  get license_key profile = api_get opts (path <> "/" <> show license_key) null profile

  unfoldable pub get_or_none : Json → Option String → Exec Json
  get_or_none license_key profile = or_none (get license_key profile)

  unfoldable pub add : Json → Json → Json → Option String → Exec Json
  add key product_type description profile =
      api_post opts path
        (obj (
          field "key" key (field "productType" product_type (field "description" description end))))
        profile

  unfoldable pub delete : Json → Option String → Exec Json
  delete license_key profile = api_delete opts (path <> "/" <> show license_key) profile

  unfoldable pub licensing_info : Option String → Exec Json
  licensing_info profile = api_get opts "/v1/licensing-info" null profile
