-- ===== src/PatchState/Failing.antt =====
-- Failures of the states, and what a success means.
use saltext_vmware.Base.{String, ◌≡◌, ◌≢◌, ◌∙◌, false, Option}
use saltext_vmware.Base.{some}
use saltext_vmware.Json.{Json, null, obj, Fields, lookup, truthy}
use saltext_vmware.Http.{Exc, Result, ok, err, out_of_fuel, get}
use saltext_vmware.Exec.{Env, World, Exec, pure, lift, catch, ◌>>=◌}
use saltext_vmware.Exec.Returns.{Returns}
use saltext_vmware.Exec.Runs.{bind-ok, lift-bind}
use saltext_vmware.VcPatch.Outcomes.{Installed}
use saltext_vmware.PatchState.Ret.{Ret, fresh, fail, guarded, patch_config}
use saltext_vmware.PatchState.Prepare.{
  PrepareArgs, PrepareSettings, prepare_settings, prepare, update_prepared,
}
use saltext_vmware.PatchState.Install.{
  InstallArgs, InstallSettings, install_settings, install_with, update_installed,
}

module _ ⦃E : Env⦄ where
  handled-ne :
      (ret : Ret) (r : Result Ret) (w : World E.State) (e : Exc)
      → (guarded ret (lift r) w).0 ≢ err e
  unfolding guarded catch lift pure
  handled-ne ret (ok a) w e h = cc
  handled-ne ret (err x) w e h = cc
  handled-ne ret out_of_fuel w e h = cc

  guarded-ne :
      (ret : Ret) (m : Exec Ret) (w : World E.State) (e : Exc) → (guarded ret m w).0 ≢ err e
  unfolding guarded catch lift pure
  guarded-ne ret m w e = handled-ne ret (m w).0 (m w).1 e

module _ ⦃E : Env⦄ (opts : Json) (profile : Option String) where
  update_prepared-eq :
      (name : String) (args : PrepareArgs) (cfg : Json) (s : PrepareSettings) (w : World E.State)
      → patch_config opts ≡ ok cfg
      → prepare_settings cfg args w ≡ (ok s, w)
      → update_prepared opts profile name args w
        ≡ guarded
            (fresh name)
            (lift (get opts "test" null) >>= λ test. prepare opts profile (fresh name) s test)
            w
  unfolding update_prepared
  update_prepared-eq name args cfg s w c₁ c₂ = lift-bind _ _ c₁ ∙ bind-ok _ _ c₂

  update_installed-eq :
      (name : String) (args : InstallArgs) (cfg : Json) (s : InstallSettings) (w : World E.State)
      → patch_config opts ≡ ok cfg
      → install_settings cfg args w ≡ (ok s, w)
      → update_installed opts profile name args w ≡ install_with opts profile (fresh name) s w
  unfolding update_installed
  update_installed-eq name args cfg s w c₁ c₂ = lift-bind _ _ c₁ ∙ bind-ok _ _ c₂

  -- Once its settings are read, `update_prepared` never raises: every exception on the way becomes a
  -- result.
  pub update_prepared_caught :
      (name : String) (args : PrepareArgs) (cfg : Json) (s : PrepareSettings) (w : World E.State)
      (e : Exc)
      → patch_config opts ≡ ok cfg
      → prepare_settings cfg args w ≡ (ok s, w)
      → (update_prepared opts profile name args w).0 ≢ err e
  update_prepared_caught name args cfg s w e c₁ c₂ =
      rw (update_prepared-eq name args cfg s w c₁ c₂) (guarded-ne (fresh name) _ w e)

  -- With the settings read and no SSO password among them, `update_installed` fails before it
  -- sends anything, and leaves the world alone.
  pub update_installed_no_password :
      (name : String) (args : InstallArgs) (cfg : Json) (s : InstallSettings) (w : World E.State)
      → patch_config opts ≡ ok cfg
      → install_settings cfg args w ≡ (ok s, w)
      → truthy s.sso_password ≡ false
      → update_installed opts profile name args w ≡ (
        ok (record (fresh name) {
          result = some false;
          comment = "update_installed requires 'sso_password'";
        }),
        w,
      )
  unfolding install_with fail pure
  update_installed_no_password name args cfg s w c₁ c₂ missing =
      update_installed-eq name args cfg s w c₁ c₂ ∙ rw missing

  -- The changes hold what the monitor returned, with the state UP_TO_DATE.
  abbrev pub Confirmed : Ret → Type 0
  Confirmed ret =
      (d : Fields) × (done : Json) × (ret.changes ≡ obj d)
      × (lookup d "monitor_install" ≡ some done)
      × Installed opts profile done
