-- ===== src/SddcModules/Certificates.antt =====
-- modules/vcf_sddc_certificates.py: the functions of the execution module, which call the client.
use saltext_vmware.Base.{String, Option}
use saltext_vmware.Json.{Json}
use saltext_vmware.Exec.{Env, Exec}
use saltext_vmware.SddcClients.Certificates as Client

module _ ⦃E : Env⦄ (opts : Json) where
  unfoldable pub list : Json → Option String → Exec Json
  list domain_id profile = Client.list opts domain_id profile

  unfoldable pub list_csrs : Json → Option String → Exec Json
  list_csrs domain_id profile = Client.list_csrs opts domain_id profile

  unfoldable pub create_csrs : Json → Json → Json → Option String → Exec Json
  create_csrs domain_id csr_generation_spec resources profile =
      Client.create_csrs opts domain_id csr_generation_spec resources profile

  unfoldable pub install_certificates : Json → Json → Option String → Exec Json
  install_certificates domain_id cert_specs profile =
      Client.install_certificates opts domain_id cert_specs profile
