-- ===== src/VcenterModules/LcmDepot.antt =====
-- modules/vcf_vcenter_lcm_depot.py: the functions of the execution module, which call the client.
use saltext_vmware.Base.{String, Option}
use saltext_vmware.Json.{Json}
use saltext_vmware.Exec.{Env, Exec}
use saltext_vmware.VcenterClients.LcmDepot as Client

module _ ⦃E : Env⦄ (opts : Json) where
  unfoldable pub sync : Option String → Exec Json
  sync profile = Client.sync opts profile
