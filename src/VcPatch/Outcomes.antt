-- ===== src/VcPatch/Outcomes.antt =====
-- What the polling loops and `resolve_update_version` return.
use saltext_vmware.Base.{ℕ, zero, suc, String, ◌≡◌, refl, Bool, true, false, Option}
use saltext_vmware.Base.{if◌then◌else◌}
use saltext_vmware.Json.{Json, null, bool, str, obj, field, end, is_text}
use saltext_vmware.Http.{Exc, ok}
use saltext_vmware.Exec.{Env, World, Exec}
use saltext_vmware.Exec.Returns.{Returns, Returns-bind, Returns-pure, returns_rules}
use saltext_vmware.VcPatch.Matching.{staged_matches}
use saltext_vmware.VcPatch.Polling.{
  Check, matched, unmatched, Progress, Install, finished, running, check_deadline, pause,
  check_staged, wait_round, wait_loop, wait_for_staged_update, extract_state, stage_round,
  stage_loop, monitor_stage, inspect_install, poll_install, install_round, install_loop,
  monitor_install,
}

module _ ⦃E : Env⦄ where
  pause-Returns :
      {P : Json → Type 0} (deadline poll : ℕ) (late : Exc) (again : Exec Json)
      → Returns P again
      → Returns P (pause deadline poll late again)
  unfolding pause check_deadline
  pause-Returns deadline poll late again k = search (returns_rules, k) depth 8

  -- A staged update that was found is one that matches the version.
  abbrev IsMatch : Json → Check → Type 0
  IsMatch version (matched staged) = staged_matches staged version ≡ true
  IsMatch version (unmatched last) = Unit

  IsMatch-if :
      (version staged : Json) (b : Bool)
      → staged_matches staged version ≡ b
      → IsMatch version (if b then matched staged else unmatched staged)
  IsMatch-if version staged true h = h
  IsMatch-if version staged false h = tt

module _ ⦃E : Env⦄ (opts : Json) (profile : Option String) (version : Json) where
  check_staged-IsMatch :
      (last : Json) → Returns (IsMatch version) (check_staged opts profile version last)
  unfolding check_staged
  check_staged-IsMatch last =
      let found : (staged : Json) → IsMatch version _ =
        λ staged. IsMatch-if version staged (staged_matches staged version) refl in
      search (returns_rules, found) depth 8

  abbrev pub Waited : Json → Type 0
  Waited r =
      (staged : Json) × (r
        ≡ obj (
            field "success" (bool true)
              (field "state" (str "STAGED") (field "staged_update" staged end))))
      × (staged_matches staged version ≡ true)

  wait_round-Waited :
      (poll deadline : ℕ) (again : Json → Exec Json) (check : Check)
      → ((last : Json) → Returns Waited (again last))
      → IsMatch version check
      → Returns Waited (wait_round opts profile poll deadline again check)
  unfolding wait_round
  wait_round-Waited poll deadline again (matched staged) k h = Returns-pure _ (staged, refl, h)
  wait_round-Waited poll deadline again (unmatched last) k h = pause-Returns _ _ _ _ (k last)

  wait_loop-Waited :
      (fuel poll deadline : ℕ) (last : Json)
      → Returns Waited (wait_loop opts profile fuel version poll deadline last)
  unfolding wait_loop
  wait_loop-Waited zero poll deadline last = search returns_rules
  wait_loop-Waited (suc fuel) poll deadline last =
      Returns-bind _ _ (check_staged-IsMatch last)
        (λ check. wait_round-Waited poll deadline _ check (wait_loop-Waited fuel poll deadline))

  pub wait_for_staged_update-Waited :
      (poll timeout : ℕ) → Returns Waited (wait_for_staged_update opts profile version poll timeout)
  unfolding wait_for_staged_update
  wait_for_staged_update-Waited poll timeout = search (returns_rules, wait_loop-Waited)

  -- `wait_for_staged_update` returns only with a staged update that matches the version.
  pub wait_for_staged_update_ok :
      (poll timeout : ℕ) (w : World E.State) (r : Json)
      → (wait_for_staged_update opts profile version poll timeout w).0 ≡ ok r
      → Waited r
  wait_for_staged_update_ok poll timeout = (wait_for_staged_update-Waited poll timeout).at

  abbrev pub Monitored : Json → Type 0
  Monitored r =
      (status : Json) × (staged : Json) × (r
        ≡ obj (
            field "success" (bool true) (
              field "state" (str "STAGED")
                (field "status" status (field "staged_update" staged end)))))
      × (staged_matches staged version ≡ true)

  stage_round-Monitored :
      (poll timeout deadline most : ℕ) (p : Progress) (again : Progress → Exec Json) (check : Check)
      → ((p' : Progress) → Returns Monitored (again p'))
      → IsMatch version check
      → Returns Monitored (stage_round opts profile poll timeout deadline most p again check)
  unfolding stage_round
  stage_round-Monitored poll timeout deadline most p again (matched staged) k h =
      Returns-pure _ (p.status, staged, refl, h)
  stage_round-Monitored poll timeout deadline most p again (unmatched last) k h =
      search (returns_rules, pause-Returns, k)

  stage_loop-Monitored :
      (fuel poll timeout deadline most : ℕ) (p : Progress)
      → Returns Monitored (stage_loop opts profile fuel version poll timeout deadline most p)
  unfolding stage_loop
  stage_loop-Monitored zero poll timeout deadline most p = search returns_rules
  stage_loop-Monitored (suc fuel) poll timeout deadline most p =
      Returns-bind _ _ (check_staged-IsMatch null) (λ check.
        stage_round-Monitored poll timeout deadline most p _ check
          (stage_loop-Monitored fuel poll timeout deadline most))

  pub monitor_stage-Monitored :
      (poll timeout most : ℕ)
      → Returns Monitored (monitor_stage opts profile version poll timeout most)
  unfolding monitor_stage
  monitor_stage-Monitored poll timeout most = search (returns_rules, stage_loop-Monitored)

  -- `monitor_stage` returns only with a staged update that matches the version.
  pub monitor_stage_ok :
      (poll timeout most : ℕ) (w : World E.State) (r : Json)
      → (monitor_stage opts profile version poll timeout most w).0 ≡ ok r
      → Monitored r
  monitor_stage_ok poll timeout most = (monitor_stage-Monitored poll timeout most).at

module _ ⦃E : Env⦄ (opts : Json) (profile : Option String) where
  abbrev UpToDate : Install → Type 0
  UpToDate (finished status) = is_text (extract_state status) "UP_TO_DATE" ≡ true
  UpToDate (running p) = Unit

  inspect_install-UpToDate :
      (status : Json) → Returns UpToDate (inspect_install opts profile status)
  unfolding inspect_install
  inspect_install-UpToDate status = search returns_rules

  poll_install-UpToDate :
      (most : ℕ) (p : Progress) → Returns UpToDate (poll_install opts profile most p)
  unfolding poll_install
  poll_install-UpToDate most p = search (returns_rules, inspect_install-UpToDate) depth 8

  abbrev pub Installed : Json → Type 0
  Installed r =
      (status : Json) × (r
        ≡ obj (
            field "success" (bool true)
              (field "state" (extract_state status) (field "status" status end))))
      × (is_text (extract_state status) "UP_TO_DATE" ≡ true)

  install_round-Installed :
      (poll deadline : ℕ) (again : Progress → Exec Json) (found : Install)
      → ((p : Progress) → Returns Installed (again p))
      → UpToDate found
      → Returns Installed (install_round opts profile poll deadline again found)
  unfolding install_round
  install_round-Installed poll deadline again (finished status) k h =
      Returns-pure _ (status, refl, h)
  install_round-Installed poll deadline again (running p) k h = pause-Returns _ _ _ _ (k p)

  install_loop-Installed :
      (fuel poll deadline most : ℕ) (p : Progress)
      → Returns Installed (install_loop opts profile fuel poll deadline most p)
  unfolding install_loop
  install_loop-Installed zero poll deadline most p = search returns_rules
  install_loop-Installed (suc fuel) poll deadline most p =
      Returns-bind _ _ (poll_install-UpToDate most p) (λ found.
        install_round-Installed poll deadline _ found
          (install_loop-Installed fuel poll deadline most))

  pub monitor_install-Installed :
      (poll timeout most : ℕ) → Returns Installed (monitor_install opts profile poll timeout most)
  unfolding monitor_install
  monitor_install-Installed poll timeout most = search (returns_rules, install_loop-Installed)

  -- `monitor_install` returns only with a status whose state is UP_TO_DATE.
  pub monitor_install_ok :
      (poll timeout most : ℕ) (w : World E.State) (r : Json)
      → (monitor_install opts profile poll timeout most w).0 ≡ ok r
      → Installed r
  monitor_install_ok poll timeout most = (monitor_install-Installed poll timeout most).at
