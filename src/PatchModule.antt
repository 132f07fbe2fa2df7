-- ===== src/PatchModule.antt =====
-- modules/vcf_vc_patch.py: the functions of the execution module, which read their settings from the
-- pillar and call the client. Its `_cfg` is that of states/vcf_vc_patch.py, in PatchState.Ret.
use saltext_vmware.Base.{String, Option, true, false}
use saltext_vmware.Json.{Json, null, bool, str}
use saltext_vmware.Exec.{Env, Exec, pure, lift, ◌>>=◌, to_int}
use saltext_vmware.VcPatch.Updates as Client
use saltext_vmware.VcPatch.Resolve as Resolve
use saltext_vmware.VcPatch.Polling as Polling
use saltext_vmware.PatchState.Ret.{patch_config, option, option_or}

module _ ⦃E : Env⦄ (opts : Json) (profile : Option String) where
  unfoldable pub get_update_policy : Exec Json
  get_update_policy = Client.get_update_policy opts profile

  unfoldable pub get_repository_policy : Exec Json
  get_repository_policy = get_update_policy

  unfoldable pub update_repository_policy : Json → Json → Json → Json → Json → Json → Exec Json
  update_repository_policy repository_url auto_stage certificate_check check_schedule repo_username
        repo_password =
      do
        cfg ← lift (patch_config opts)
        url ← lift (option_or repository_url cfg "repository_url")
        stage_itself ← lift (option auto_stage cfg "auto_stage" (bool false))
        checked ← lift (option certificate_check cfg "certificate_check" (bool true))
        schedule ← lift (option check_schedule cfg "check_schedule" null)
        username ← lift (option repo_username cfg "repo_username" (str ""))
        password ← lift (option repo_password cfg "repo_password" (str ""))
        Client.set_update_policy opts profile url stage_itself checked schedule username password

  unfoldable pub list_pending_updates : Json → Json → Exec Json
  list_pending_updates repository_url source_type = do
    cfg ← lift (patch_config opts)
    url ← lift (option_or repository_url cfg "repository_url")
    Client.list_pending_updates opts profile url source_type

  unfoldable pub check_updates : Json → Json → Exec Json
  check_updates repository_url source_type = list_pending_updates repository_url source_type

  -- `_cfg()`, then `version or cfg.get("version")`
  unfoldable pub version_or_pillar : Json → Exec Json
  version_or_pillar version = do
    cfg ← lift (patch_config opts)
    lift (option_or version cfg "version")

  -- The same for `version if version is not None else cfg.get("version")`, and for other keys
  unfoldable pub given_or_pillar : String → Json → Exec Json
  given_or_pillar key value = do cfg ← lift (patch_config opts); lift (option value cfg key null)

  unfoldable pub get_pending_update : Json → Exec Json
  get_pending_update version = do
    chosen ← version_or_pillar version
    Client.get_pending_update opts profile chosen

  unfoldable pub list_upgradeable_components : Json → Exec Json
  list_upgradeable_components version = do
    chosen ← version_or_pillar version
    Client.list_upgradeable_components opts profile chosen

  unfoldable pub get_update_status : Exec Json
  get_update_status = Client.get_update_status opts profile

  unfoldable pub get_staged_update : Exec Json
  get_staged_update = Client.get_staged_update opts profile

  unfoldable pub delete_staged_update : Exec Json
  delete_staged_update = Client.delete_staged_update opts profile

  unfoldable pub get_update_history : Exec Json
  get_update_history = Client.get_update_history opts profile

  unfoldable pub precheck : Json → Json → Exec Json
  precheck version component = do
    chosen ← version_or_pillar version
    part ← given_or_pillar "component" component
    Client.precheck opts profile chosen part

  unfoldable pub stage : Json → Json → Exec Json
  stage version component = do
    chosen ← version_or_pillar version
    part ← given_or_pillar "component" component
    Client.stage opts profile chosen part

  unfoldable pub install : Json → Json → Json → Exec Json
  install version sso_password component = do
    chosen ← version_or_pillar version
    password ← given_or_pillar "sso_password" sso_password
    part ← given_or_pillar "component" component
    Client.install opts profile chosen password part

  unfoldable pub resolve_update_version : Json → Json → Exec Json
  resolve_update_version repository_url version = do
    cfg ← lift (patch_config opts)
    url ← lift (option_or repository_url cfg "repository_url")
    wanted ← lift (option version cfg "version" null)
    r ← Resolve.resolve_update_version opts profile url wanted
    pure r.version

  unfoldable pub monitor_stage : Json → Json → Json → Json → Exec Json
  monitor_stage poll_interval timeout max_transient_errors version = do
    wanted ← given_or_pillar "version" version
    poll ← lift (to_int poll_interval)
    limit ← lift (to_int timeout)
    most ← lift (to_int max_transient_errors)
    Polling.monitor_stage opts profile wanted poll limit most

  unfoldable pub monitor_install : Json → Json → Json → Exec Json
  monitor_install poll_interval timeout max_transient_errors = do
    poll ← lift (to_int poll_interval)
    limit ← lift (to_int timeout)
    most ← lift (to_int max_transient_errors)
    Polling.monitor_install opts profile poll limit most

  unfoldable pub wait_for_staged_update : Json → Json → Json → Exec Json
  wait_for_staged_update version poll_interval timeout = do
    wanted ← given_or_pillar "version" version
    poll ← lift (to_int poll_interval)
    limit ← lift (to_int timeout)
    Polling.wait_for_staged_update opts profile wanted poll limit
