-- ===== src/PatchState/DryRun.antt =====
-- The states under `test=True`: nothing is changed on vCenter.
use saltext_vmware.Base.{String, ◌<>◌, ◌≡◌, sym, ◌∙◌, true, Option, none}
use saltext_vmware.Json.{Json, null, Fields, truthy}
use saltext_vmware.Http.{ok, get}
use saltext_vmware.Exec.{Env, World, Exec, pure, lift, ◌>>=◌}
use saltext_vmware.Exec.Keeps.{Keeps, keeps_rules, Keeps-bind-lift}
use saltext_vmware.Exec.Runs.{lift-bind}
use saltext_vmware.Vcenter.Reading.{OnlyReads, reads}
use saltext_vmware.VcPatch.Reading.{get_staged_update-Keeps, resolve_update_version-Keeps}
use saltext_vmware.PatchState.Ret.{Ret, guarded, patch_config, option_or, fresh}
use saltext_vmware.PatchState.Repository.{
  PolicyArgs, configure_unless_test, configure_url, repository_configured,
}
use saltext_vmware.PatchState.Prepare.{
  PrepareArgs, PrepareSettings, prepare_settings, update_policy, stage_unless_done, prepare,
  update_prepared,
}
use saltext_vmware.PatchState.Install.{
  InstallArgs, InstalledArgs, InstallSettings, install_settings, install_unless_test,
  install_resolved, install_with, update_installed, choose_phase, installed,
}

module _ ⦃E : Env⦄ (opts : Json) (profile : Option String) (test : Json)
    (configured : get opts "test" null ≡ ok test) (dry : truthy test ≡ true) where
  tested :
      {A : Type 0} (f : Json → Exec A)
      → Keeps OnlyReads (f test)
      → Keeps OnlyReads (lift (get opts "test" null) >>= f)
  tested f k = Keeps-bind-lift (get opts "test" null) f λ a e. same a (sym e ∙ configured)
    where
      same : (a : Json) → ok a ≡ ok test → Keeps OnlyReads (f a)
      same a e = let e' : a ≡ test = cc in rw e' k

  update_policy-Reads : (url : Json) → Keeps OnlyReads (update_policy opts profile test url)
  unfolding update_policy
  update_policy-Reads url = rw dry (search keeps_rules)

  stage_unless_done-Reads :
      (ret : Ret) (s : PrepareSettings) (d : Fields) (resolved staged : Json)
      → Keeps OnlyReads (stage_unless_done opts profile ret s test d resolved staged)
  unfolding stage_unless_done
  stage_unless_done-Reads ret s d resolved staged = rw dry (search keeps_rules)

  prepare-Reads :
      (ret : Ret) (s : PrepareSettings) → Keeps OnlyReads (prepare opts profile ret s test)
  unfolding prepare
  prepare-Reads ret s =
      search
        (
          keeps_rules, reads, update_policy-Reads, stage_unless_done-Reads, get_staged_update-Keeps,
          resolve_update_version-Keeps,
        )
        depth 8

  prepare_settings-Reads :
      (cfg : Json) (args : PrepareArgs) → Keeps OnlyReads (prepare_settings cfg args)
  unfolding prepare_settings
  prepare_settings-Reads cfg args = search keeps_rules depth 30

  pub update_prepared-Reads :
      (name : String) (args : PrepareArgs)
      → Keeps OnlyReads (update_prepared opts profile name args)
  unfolding update_prepared guarded
  update_prepared-Reads name args =
      search (keeps_rules, prepare_settings-Reads, tested, prepare-Reads) depth 8

  -- Under `test=True`, if only reads were sent before `update_prepared`, only reads have been sent
  -- after it: the policy is not put, nothing is staged and no precheck runs.
  pub update_prepared_dry :
      (name : String) (args : PrepareArgs) (w : World E.State)
      → OnlyReads w.sent
      → OnlyReads (update_prepared opts profile name args w).1.sent
  update_prepared_dry name args = (update_prepared-Reads name args).at

  install_settings-Reads :
      (cfg : Json) (args : InstallArgs) → Keeps OnlyReads (install_settings cfg args)
  unfolding install_settings
  install_settings-Reads cfg args = search keeps_rules depth 30

  install_unless_test-Reads :
      (ret : Ret) (s : InstallSettings) (resolved : Json)
      → Keeps OnlyReads (install_unless_test opts profile ret s resolved test)
  unfolding install_unless_test
  install_unless_test-Reads ret s resolved = rw dry (search keeps_rules)

  install_resolved-Reads :
      (ret : Ret) (s : InstallSettings) → Keeps OnlyReads (install_resolved opts profile ret s)
  unfolding install_resolved
  install_resolved-Reads ret s =
      search (keeps_rules, reads, tested, resolve_update_version-Keeps, install_unless_test-Reads)
        depth 8

  pub update_installed-Reads :
      (name : String) (args : InstallArgs)
      → Keeps OnlyReads (update_installed opts profile name args)
  unfolding update_installed install_with guarded
  update_installed-Reads name args =
      search (keeps_rules, install_settings-Reads, install_resolved-Reads) depth 8

  -- Under `test=True`, if only reads were sent before `update_installed`, only reads have been
  -- sent after it.
  pub update_installed_dry :
      (name : String) (args : InstallArgs) (w : World E.State)
      → OnlyReads w.sent
      → OnlyReads (update_installed opts profile name args w).1.sent
  update_installed_dry name args = (update_installed-Reads name args).at

  choose_phase-Reads :
      (name : String) (args : InstalledArgs)
      → Keeps OnlyReads (choose_phase opts profile name args test)
  unfolding choose_phase
  choose_phase-Reads name args = rw dry (update_prepared-Reads name _)

  pub installed-Reads :
      (name : String) (args : InstalledArgs) → Keeps OnlyReads (installed opts profile name args)
  unfolding installed
  installed-Reads name args = tested _ (choose_phase-Reads name args)

  -- `repository_configured` under `test=True` with a repository URL sends nothing at all: it leaves
  -- the world alone, and its result is `None`.
  pub repository_configured_dry :
      (name : String) (args : PolicyArgs) (cfg url : Json) (w : World E.State)
      → patch_config opts ≡ ok cfg
      → option_or args.repository_url cfg "repository_url" ≡ ok url
      → truthy url ≡ true
      → repository_configured opts profile name args w ≡ (
        ok (record (fresh name) {
          result = none;
          comment = "would configure update repository " <> E.repr url;
        }),
        w,
      )
  unfolding repository_configured configure_url configure_unless_test pure
  repository_configured_dry name args cfg url w section chosen given =
      lift-bind _ _ section
      ∙ lift-bind _ _ chosen
      ∙ rw given (lift-bind (get opts "test" null) _ configured ∙ rw dry)
