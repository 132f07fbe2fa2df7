-- ===== src/SddcClients/Certificates.antt =====
-- clients/sddc_certificates.py.
use saltext_vmware.Base.{String, ◌<>◌, Option}
use saltext_vmware.Json.{Json, null, obj, field, end}
use saltext_vmware.Exec.{Env, Exec, show}
use saltext_vmware.Rest.{or_none}
use saltext_vmware.Sddc.Api.{api_get, api_patch, api_put}

module _ ⦃E : Env⦄ (opts : Json) where
  unfoldable pub base : Json → String
  base domain_id = "/v1/domains/" <> show domain_id

  unfoldable pub list : Json → Option String → Exec Json
  list domain_id profile = api_get opts (base domain_id <> "/certificates") null profile

  unfoldable pub list_csrs : Json → Option String → Exec Json
  list_csrs domain_id profile = api_get opts (base domain_id <> "/csrs") null profile

  unfoldable pub create_csrs : Json → Json → Json → Option String → Exec Json
  create_csrs domain_id csr_generation_spec resources profile =
      api_put opts (base domain_id <> "/csrs")
        (obj (field "csrGenerationSpec" csr_generation_spec (field "resources" resources end)))
        profile

  unfoldable pub install_certificates : Json → Json → Option String → Exec Json
  install_certificates domain_id cert_specs profile =
      api_patch opts (base domain_id <> "/certificates") cert_specs profile

  unfoldable pub get_or_none : Json → Option String → Exec Json
  get_or_none domain_id profile = or_none (list domain_id profile)
