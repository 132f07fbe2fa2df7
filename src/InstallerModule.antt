-- ===== src/InstallerModule.antt =====
-- modules/vcf_installer_bringup.py: the functions of the execution module, which call the client.
use saltext_vmware.Base.{ℕ, String, Option}
use saltext_vmware.Json.{Json}
use saltext_vmware.Exec.{Env, Exec}
use saltext_vmware.Installer.Bringup as Client

module _ ⦃E : Env⦄ (opts : Json) where
  unfoldable pub validate : Json → Option String → Exec Json
  validate spec profile = Client.validate opts spec profile

  unfoldable pub validation_status : Json → Option String → Exec Json
  validation_status validation_id profile = Client.validation_status opts validation_id profile

  unfoldable pub list_validations : Option String → Exec Json
  list_validations profile = Client.list_validations opts profile

  unfoldable pub wait_validation : Json → ℕ → ℕ → Option String → Exec Json
  wait_validation validation_id timeout poll_interval profile =
      Client.wait_validation opts validation_id profile timeout poll_interval

  unfoldable pub submit : Json → Option String → Exec Json
  submit spec profile = Client.submit opts spec profile

  unfoldable pub status : Json → Option String → Exec Json
  status sddc_id profile = Client.bringup_status opts sddc_id profile

  unfoldable pub list : Option String → Exec Json
  list profile = Client.list_bringups opts profile

  unfoldable pub retry : Json → Option String → Exec Json
  retry sddc_id profile = Client.retry_bringup opts sddc_id profile

  unfoldable pub wait : Json → ℕ → ℕ → Option String → Exec Json
  wait sddc_id timeout poll_interval profile =
      Client.wait_bringup opts sddc_id profile timeout poll_interval
