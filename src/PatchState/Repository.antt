-- ===== src/PatchState/Repository.antt =====
-- `repository_configured` of states/vcf_vc_patch.py.
use saltext_vmware.Base.{String, ◌<>◌, true, false, Option, none, if◌then◌else◌}
use saltext_vmware.Json.{Json, null, bool, str, obj, field, end, truthy}
use saltext_vmware.Http.{exc, value_error, get}
use saltext_vmware.Exec.{Env, Exec, pure, lift, ◌>>=◌}
use saltext_vmware.VcPatch.Updates.{set_update_policy}
use saltext_vmware.PatchState.Ret.{Ret, fresh, fail, patch_config, option, option_or, guarded}
use saltext_vmware.PatchState.Redact.{redact}

pub record PolicyArgs : Type 0 where
  pub repository_url : Json
  pub auto_stage : Json
  pub certificate_check : Json
  pub check_schedule : Json
  pub repo_username : Json
  pub repo_password : Json

module _ ⦃E : Env⦄ (opts : Json) (profile : Option String) where
  unfoldable pub put_policy : Json → Json → PolicyArgs → Exec Json
  put_policy cfg url args = do
    auto_stage ← lift (option args.auto_stage cfg "auto_stage" (bool false))
    certificate_check ← lift (option args.certificate_check cfg "certificate_check" (bool true))
    check_schedule ← lift (option args.check_schedule cfg "check_schedule" null)
    username ← lift (option args.repo_username cfg "repo_username" (str ""))
    password ← lift (option args.repo_password cfg "repo_password" (str ""))
    set_update_policy opts profile url auto_stage certificate_check check_schedule username password

  unfoldable pub configure : Ret → Json → Json → PolicyArgs → Exec Ret
  configure ret cfg url args = guarded ret (do
    resp ← put_policy cfg url args
    pure (record ret {
      changes = obj (field "repository_url" url (field "response" (redact resp) end));
      comment = "update repository configured: " <> E.repr url;
    }))

  unfoldable pub configure_unless_test : Ret → Json → Json → PolicyArgs → Json → Exec Ret
  configure_unless_test ret cfg url args test =
      if truthy test
      then pure (record ret {
        result = none;
        comment = "would configure update repository " <> E.repr url;
      })
      else configure ret cfg url args

  unfoldable pub configure_url : Ret → Json → PolicyArgs → Json → Exec Ret
  configure_url ret cfg args url =
      if truthy url
      then (do test ← lift (get opts "test" null); configure_unless_test ret cfg url args test)
      else pure (
          fail ret (
            exc value_error
              "repository_configured requires 'repository_url' (or pillar vc_patch:repository_url)"))

  unfoldable pub repository_configured : String → PolicyArgs → Exec Ret
  repository_configured name args = do
    cfg ← lift (patch_config opts)
    url ← lift (option_or args.repository_url cfg "repository_url")
    configure_url (fresh name) cfg args url
