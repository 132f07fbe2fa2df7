-- ===== src/PatchState/Staging.antt =====
-- Which runs send the `stage` action.
use saltext_vmware.Base.{ℕ, zero, suc, String, ◌≡◌, sym, ◌∙◌, false, Option}
use saltext_vmware.Base.{All, ltb, arith, eq_iff}
use saltext_vmware.Json.{Json, null, str, obj, Fields, end, field, truthy}
use saltext_vmware.Http.{Request, Exc, ok, get}
use saltext_vmware.Exec.{Env, World, Exec, now, sleep}
use saltext_vmware.Exec.Keeps.{
  Keeps, keeps_rules, Keeps-bind, Keeps-if, Keeps-now, Keeps-raise, Keeps-sleep,
}
use saltext_vmware.Exec.Runs.{lift-bind}
use saltext_vmware.Vcenter.Config.{Config}
use saltext_vmware.Vcenter.Session.{login_request}
use saltext_vmware.Vcenter.Reading.{Allows, api_post-Keeps, invalidate_session-Keeps}
use saltext_vmware.VcPatch.Updates.{act, install}
use saltext_vmware.VcPatch.Polling.{
  Progress, Install, finished, running, check_deadline, pause, inspect_install, retry, poll_install,
  install_round, install_loop, monitor_install,
}
use saltext_vmware.VcPatch.Reading.{get_update_status-Keeps, resolve_update_version-Keeps}
use saltext_vmware.PatchState.Ret.{Ret, guarded}
use saltext_vmware.PatchState.Install.{
  InstallArgs, InstalledArgs, InstallSettings, install_settings, monitor_install_if, install_update,
  install_unless_test, install_resolved, install_with, update_installed, choose_phase, installed,
  install_args,
}

abbrev pub stage_params : Json
stage_params = obj (field "action" (str "stage") end)

-- The request is no `stage` action.
abbrev pub NotStage : Request → Type 0
NotStage r = ¬ ((r.method ≡ "POST") × (r.params ≡ stage_params))

get≢post : ¬ (◌≡◌ {A = String} "GET" "POST")
get≢post = ground (arith, eq_iff "GET" "POST")

install≢stage : ¬ (obj (field "action" (str "install") end) ≡ stage_params)
install≢stage e =
    let e' : ◌≡◌ {A = String} "install" "stage" = cc in ground (arith, eq_iff "install" "stage")

module _ ⦃E : Env⦄ where
  login-NotStage : (cfg : Config) → NotStage (login_request cfg)
  unfolding login_request
  login-NotStage cfg h = cc (h.1)

  others : Allows NotStage
  others = record { logins = login-NotStage; gets = λ r e h. get≢post (sym e ∙ h.0) }

module _ ⦃E : Env⦄ (opts : Json) (profile : Option String) where
  install-NotStage :
      (version password component : Json)
      → Keeps (All NotStage) (install opts profile version password component)
  unfolding install act
  install-NotStage version password component =
      api_post-Keeps others _ _ _ _ _ _ (λ r e p h. install≢stage (sym p ∙ h.1))

  pause-NotStage :
      (deadline poll : ℕ) (late : Exc) (again : Exec Json)
      → Keeps (All NotStage) again
      → Keeps (All NotStage) (pause deadline poll late again)
  unfolding pause check_deadline
  pause-NotStage deadline poll late again k = Keeps-bind now _ Keeps-now λ t.
      Keeps-if (ltb deadline t) _ _ (λ _. Keeps-raise late)
        (λ _. Keeps-bind (sleep poll) _ (Keeps-sleep poll) (λ _. k))

  retry-NotStage :
      (what : String) (most : ℕ) (p : Progress) (e : Exc)
      → Keeps (All NotStage) (retry opts profile what most p e)
  unfolding retry
  retry-NotStage what most p e = search (keeps_rules, others, invalidate_session-Keeps) depth 8

  inspect_install-NotStage :
      (status : Json) → Keeps (All NotStage) (inspect_install opts profile status)
  unfolding inspect_install
  inspect_install-NotStage status = search keeps_rules

  poll_install-NotStage :
      (most : ℕ) (p : Progress) → Keeps (All NotStage) (poll_install opts profile most p)
  unfolding poll_install
  poll_install-NotStage most p =
      search
        (keeps_rules, others, get_update_status-Keeps, inspect_install-NotStage, retry-NotStage)
        depth 8

  install_round-NotStage :
      (poll deadline : ℕ) (again : Progress → Exec Json) (found : Install)
      → ((p : Progress) → Keeps (All NotStage) (again p))
      → Keeps (All NotStage) (install_round opts profile poll deadline again found)
  unfolding install_round
  install_round-NotStage poll deadline again (finished status) k = search keeps_rules
  install_round-NotStage poll deadline again (running p) k = pause-NotStage deadline poll _ _ (k p)

  install_loop-NotStage :
      (fuel poll deadline most : ℕ) (p : Progress)
      → Keeps (All NotStage) (install_loop opts profile fuel poll deadline most p)
  unfolding install_loop
  install_loop-NotStage zero poll deadline most p = search keeps_rules
  install_loop-NotStage (suc fuel) poll deadline most p =
      Keeps-bind _ _ (poll_install-NotStage most p) (λ found.
        install_round-NotStage poll deadline _ found
          (install_loop-NotStage fuel poll deadline most))

  monitor_install_if-NotStage :
      (s : InstallSettings) (d : Fields)
      → Keeps (All NotStage) (monitor_install_if opts profile s d)
  unfolding monitor_install_if monitor_install
  monitor_install_if-NotStage s d = search (keeps_rules, install_loop-NotStage) depth 8

  install_unless_test-NotStage :
      (ret : Ret) (s : InstallSettings) (resolved test : Json)
      → Keeps (All NotStage) (install_unless_test opts profile ret s resolved test)
  unfolding install_unless_test install_update
  install_unless_test-NotStage ret s resolved test =
      search (keeps_rules, install-NotStage, monitor_install_if-NotStage) depth 8

  install_settings-NotStage :
      (cfg : Json) (args : InstallArgs) → Keeps (All NotStage) (install_settings cfg args)
  unfolding install_settings
  install_settings-NotStage cfg args = search keeps_rules depth 30

  update_installed-NotStage :
      (name : String) (args : InstallArgs)
      → Keeps (All NotStage) (update_installed opts profile name args)
  unfolding update_installed install_with guarded install_resolved
  update_installed-NotStage name args =
      search
        (
          keeps_rules, others, install_settings-NotStage, resolve_update_version-Keeps,
          install_unless_test-NotStage,
        )
        depth 10

  installed_real :
      (name : String) (args : InstalledArgs) (test : Json) (w : World E.State)
      → get opts "test" null ≡ ok test
      → truthy test ≡ false
      → installed opts profile name args w
        ≡ update_installed opts profile name (install_args args) w
  unfolding installed choose_phase
  installed_real name args test w configured real = lift-bind _ _ configured ∙ rw real

  -- If no `stage` action was sent before a real run of `installed`, none has been sent after it,
  -- though it is documented to ensure that the version is staged and installed: it only installs.
  pub installed_never_stages :
      (name : String) (args : InstalledArgs) (test : Json) (w : World E.State)
      → get opts "test" null ≡ ok test
      → truthy test ≡ false
      → All NotStage w.sent
      → All NotStage (installed opts profile name args w).1.sent
  installed_never_stages name args test w configured real before =
      rw (installed_real name args test w configured real)
        ((update_installed-NotStage name (install_args args)).at w before)
