-- ===== src/VlcmModule.antt =====
-- modules/vcf_esxi_vlcm.py: the functions of the execution module, which call the client.
use saltext_vmware.Base.{String, Option}
use saltext_vmware.Json.{Json, Fields}
use saltext_vmware.Exec.{Env, Exec}
use saltext_vmware.Vlcm.Depots as Depots
use saltext_vmware.Vlcm.Images as Images
use saltext_vmware.Vlcm.Lifecycle as Lifecycle

module _ ⦃E : Env⦄ (opts : Json) where
  unfoldable pub online_depot_list : Option String → Exec Json
  online_depot_list profile = Depots.online_depot_list opts profile

  unfoldable pub online_depot_create : Fields → Option String → Exec Json
  online_depot_create body profile = Depots.online_depot_create opts profile body

  unfoldable pub online_depot_update : Json → Fields → Option String → Exec Json
  online_depot_update depot_id body profile = Depots.online_depot_update opts profile depot_id body

  unfoldable pub offline_depot_list : Option String → Exec Json
  offline_depot_list profile = Depots.offline_depot_list opts profile

  unfoldable pub offline_depot_get : Json → Option String → Exec Json
  offline_depot_get depot_id profile = Depots.offline_depot_get opts profile depot_id

  unfoldable pub offline_depot_create : Fields → Option String → Exec Json
  offline_depot_create body profile = Depots.offline_depot_create opts profile body

  unfoldable pub offline_depot_delete : Json → Option String → Exec Json
  offline_depot_delete depot_id profile = Depots.offline_depot_delete opts profile depot_id

  unfoldable pub depot_sync : Option String → Exec Json
  depot_sync profile = Depots.depot_sync opts profile

  unfoldable pub desired_image_get : Json → Option String → Exec Json
  desired_image_get cluster profile = Images.desired_image_get opts profile cluster

  unfoldable pub base_image_get : Json → Option String → Exec Json
  base_image_get cluster profile = Images.base_image_get opts profile cluster

  unfoldable pub drafts_list : Json → Option String → Exec Json
  drafts_list cluster profile = Images.drafts_list opts profile cluster

  unfoldable pub draft_get : Json → Json → Option String → Exec Json
  draft_get cluster draft_id profile = Images.draft_get opts profile cluster draft_id

  unfoldable pub draft_delete : Json → Json → Option String → Exec Json
  draft_delete cluster draft_id profile = Images.draft_delete opts profile cluster draft_id

  unfoldable pub draft_import_software_spec : Json → Json → Option String → Exec Json
  draft_import_software_spec cluster image_spec profile =
      Images.draft_import_software_spec opts profile cluster image_spec

  unfoldable pub draft_validate : Json → Json → Option String → Exec Json
  draft_validate cluster draft_id profile = Images.draft_validate opts profile cluster draft_id

  unfoldable pub draft_commit : Json → Json → Json → Option String → Exec Json
  draft_commit cluster draft_id message profile =
      Images.draft_commit opts profile cluster draft_id message

  unfoldable pub apply_policy_get : Json → Option String → Exec Json
  apply_policy_get cluster profile = Images.apply_policy_get opts profile cluster

  unfoldable pub apply_policy_set : Json → Json → Option String → Exec Json
  apply_policy_set cluster policy_spec profile =
      Images.apply_policy_set opts profile cluster policy_spec

  unfoldable pub compliance_scan : Json → Json → Json → Option String → Exec Json
  compliance_scan cluster commit hosts profile =
      Lifecycle.compliance_scan opts profile cluster commit hosts

  unfoldable pub precheck : Json → Json → Option String → Exec Json
  precheck cluster commit profile = Lifecycle.precheck opts profile cluster commit

  unfoldable pub stage : Json → Json → Json → Option String → Exec Json
  stage cluster commit hosts profile = Lifecycle.stage opts profile cluster commit hosts

  unfoldable pub remediate : Json → Json → Option String → Exec Json
  remediate cluster accept_eula profile = Lifecycle.remediate opts profile cluster accept_eula

  unfoldable pub last_check_result : Json → Option String → Exec Json
  last_check_result cluster profile = Lifecycle.last_check_result opts profile cluster

  unfoldable pub apply_impact_report : Json → Option String → Exec Json
  apply_impact_report cluster profile = Lifecycle.apply_impact_report opts profile cluster

  unfoldable pub last_apply_result : Json → Option String → Exec Json
  last_apply_result cluster profile = Lifecycle.last_apply_result opts profile cluster

  unfoldable pub wait_for_task : Json → Json → Json → Option String → Exec Json
  wait_for_task resp timeout poll_interval profile =
      Lifecycle.wait_for_task opts profile resp timeout poll_interval
