-- ===== src/VcPatch/Ending.antt =====
-- The polling loops of clients/vc_patch.py end.
use saltext_vmware.Base.{ℕ, zero, suc, ◌+◌, ◌≤◌, ◌<◌, String, ◌≡◌, ◌≢◌}
use saltext_vmware.Base.{Option, none, some, arith, ltb}
use saltext_vmware.Json.{Json, null}
use saltext_vmware.Http.{Response, Exc, out_of_fuel}
use saltext_vmware.Exec.{Env, IsClock, World, Exec}
use saltext_vmware.Exec.Total.{Ends, IsTotal, total_rules, bind-Ends, sleep-Ends, if-Ends}
use saltext_vmware.Exec.Later.{clock}
use saltext_vmware.Exec.Total.{now-Ends, pure-IsTotal, raise-IsTotal}
use saltext_vmware.Vcenter.Ending.{api_get-IsTotal, invalidate_session-IsTotal}
use saltext_vmware.VcPatch.Updates.{tolerate, get_tolerant, get_staged_update, get_update_status}
use saltext_vmware.VcPatch.Polling.{
  Check, matched, unmatched, Progress, Install, finished, running, check_deadline, pause,
  check_staged, wait_round, wait_loop, wait_for_staged_update, inspect_stage, retry, poll_stage,
  stage_round, stage_loop, monitor_stage, inspect_install, poll_install, install_round,
  install_loop, monitor_install,
}

module _ ⦃E : Env⦄ (c : IsClock E) where
  -- A pause leads on to a later world before the deadline, or raises.
  pause-Ends :
      (deadline poll : ℕ) (late : Exc) (again : Exec Json) (w : World E.State)
      → ((w' : World E.State) → clock w ≤ deadline → clock w + poll ≤ clock w' → Ends again w')
      → Ends (pause deadline poll late again) w
  unfolding pause check_deadline
  pause-Ends deadline poll late again w k = now-Ends _ w (
      if-Ends (ltb deadline (clock w)) _ _ w (λ _. (raise-IsTotal late).ends_at w)
        (λ early. sleep-Ends c poll again w (λ w' h. k w' (ground arith) h)))

module _ ⦃E : Env⦄ (c : IsClock E) (opts : Json) (profile : Option String) where
  tolerate-IsTotal :
      (e : Exc) (response : Option Response) → IsTotal (tolerate opts profile e response)
  unfolding tolerate
  tolerate-IsTotal e none = search total_rules
  tolerate-IsTotal e (some resp) = search total_rules

  pub get_staged_update-IsTotal : IsTotal (get_staged_update opts profile)
  unfolding get_staged_update get_tolerant
  get_staged_update-IsTotal = search (total_rules, c, api_get-IsTotal, tolerate-IsTotal)

  get_update_status-IsTotal : IsTotal (get_update_status opts profile)
  unfolding get_update_status
  get_update_status-IsTotal = search (c, api_get-IsTotal)

  check_staged-IsTotal : (version last : Json) → IsTotal (check_staged opts profile version last)
  unfolding check_staged
  check_staged-IsTotal version last = search (total_rules, get_staged_update-IsTotal)

  wait_round-Ends :
      (poll deadline : ℕ) (again : Json → Exec Json) (check : Check) (w : World E.State)
      → ((last : Json) (w' : World E.State)
          → clock w ≤ deadline
          → clock w + poll ≤ clock w'
          → Ends (again last) w')
      → Ends (wait_round opts profile poll deadline again check) w
  unfolding wait_round
  wait_round-Ends poll deadline again (matched staged) w k = (pure-IsTotal _).ends_at w
  wait_round-Ends poll deadline again (unmatched last) w k =
      pause-Ends c deadline poll _ (again last) w (k last)

  wait_loop-Ends :
      (fuel : ℕ) (version : Json) (poll deadline : ℕ) (last : Json) (w : World E.State)
      → 0 < poll
      → deadline < fuel + clock w
      → Ends (wait_loop opts profile (suc fuel) version poll deadline last) w
  unfolding wait_loop
  wait_loop-Ends zero version poll deadline last w pos fits =
      bind-Ends _ _ w (check_staged-IsTotal version last) λ check w' h.
        wait_round-Ends poll deadline _ check w' (λ last' w'' h' h''. absurd (omega arith))
  wait_loop-Ends (suc fuel) version poll deadline last w pos fits =
      bind-Ends _ _ w (check_staged-IsTotal version last) λ check w' h.
        wait_round-Ends poll deadline _ check w'
          λ last' w'' h' h''. wait_loop-Ends fuel version poll deadline last' w'' pos (omega arith)

  -- With a clock that does not go back and a positive poll interval, `wait_for_staged_update`
  -- returns or raises, whatever the appliance answers: its fuel is enough.
  pub wait_for_staged_update_ends :
      (version : Json) (poll timeout : ℕ) (w : World E.State)
      → 0 < poll
      → (wait_for_staged_update opts profile version poll timeout w).0 ≢ out_of_fuel
  unfolding wait_for_staged_update
  wait_for_staged_update_ends version poll timeout w pos =
      let rounds : timeout + 2 ≡ suc (timeout + 1) = omega arith in
      rw rounds (
        (now-Ends _ w (
          wait_loop-Ends (timeout + 1) version poll (clock w + timeout) null w pos
            (omega arith))).ends)

  inspect_stage-IsTotal : (status : Json) → IsTotal (inspect_stage opts profile status)
  unfolding inspect_stage
  inspect_stage-IsTotal status = search total_rules

  retry-IsTotal :
      (what : String) (most : ℕ) (p : Progress) (e : Exc)
      → IsTotal (retry opts profile what most p e)
  unfolding retry
  retry-IsTotal what most p e = search (total_rules, c, invalidate_session-IsTotal) depth 8

  poll_stage-IsTotal : (most : ℕ) (p : Progress) → IsTotal (poll_stage opts profile most p)
  unfolding poll_stage
  poll_stage-IsTotal most p =
      search (total_rules, get_update_status-IsTotal, inspect_stage-IsTotal, retry-IsTotal) depth 8

  stage_round-Ends :
      (poll timeout deadline most : ℕ) (p : Progress) (again : Progress → Exec Json) (check : Check)
      (w : World E.State)
      → ((p' : Progress) (w' : World E.State)
          → clock w ≤ deadline
          → clock w + poll ≤ clock w'
          → Ends (again p') w')
      → Ends (stage_round opts profile poll timeout deadline most p again check) w
  unfolding stage_round
  stage_round-Ends poll timeout deadline most p again (matched staged) w k =
      (pure-IsTotal _).ends_at w
  stage_round-Ends poll timeout deadline most p again (unmatched last) w k =
      bind-Ends _ _ w (poll_stage-IsTotal most p) λ p' w' h.
        pause-Ends c deadline poll _ (again p') w'
          (λ w'' h' h''. k p' w'' (omega arith) (omega arith))

  stage_loop-Ends :
      (fuel : ℕ) (version : Json) (poll timeout deadline most : ℕ) (p : Progress)
      (w : World E.State)
      → 0 < poll
      → deadline < fuel + clock w
      → Ends (stage_loop opts profile (suc fuel) version poll timeout deadline most p) w
  unfolding stage_loop
  stage_loop-Ends zero version poll timeout deadline most p w pos fits =
      bind-Ends _ _ w (check_staged-IsTotal version null) λ check w' h.
        stage_round-Ends poll timeout deadline most p _ check w'
          (λ p' w'' h' h''. absurd (omega arith))
  stage_loop-Ends (suc fuel) version poll timeout deadline most p w pos fits =
      bind-Ends _ _ w (check_staged-IsTotal version null) λ check w' h.
        stage_round-Ends poll timeout deadline most p _ check w' λ p' w'' h' h''.
          stage_loop-Ends fuel version poll timeout deadline most p' w'' pos (omega arith)

  -- With a clock that does not go back and a positive poll interval, `monitor_stage` returns or
  -- raises, whatever the appliance answers: its fuel is enough.
  pub monitor_stage_ends :
      (version : Json) (poll timeout most : ℕ) (w : World E.State)
      → 0 < poll
      → (monitor_stage opts profile version poll timeout most w).0 ≢ out_of_fuel
  unfolding monitor_stage
  monitor_stage_ends version poll timeout most w pos =
      let rounds : timeout + 2 ≡ suc (timeout + 1) = omega arith in
      rw rounds (
        (now-Ends _ w (
          stage_loop-Ends (timeout + 1) version poll timeout (clock w + timeout) most _ w pos
            (omega arith))).ends)

  inspect_install-IsTotal : (status : Json) → IsTotal (inspect_install opts profile status)
  unfolding inspect_install
  inspect_install-IsTotal status = search total_rules

  poll_install-IsTotal : (most : ℕ) (p : Progress) → IsTotal (poll_install opts profile most p)
  unfolding poll_install
  poll_install-IsTotal most p =
      search (total_rules, get_update_status-IsTotal, inspect_install-IsTotal, retry-IsTotal) depth
        8

  install_round-Ends :
      (poll deadline : ℕ) (again : Progress → Exec Json) (found : Install) (w : World E.State)
      → ((p : Progress) (w' : World E.State)
          → clock w ≤ deadline
          → clock w + poll ≤ clock w'
          → Ends (again p) w')
      → Ends (install_round opts profile poll deadline again found) w
  unfolding install_round
  install_round-Ends poll deadline again (finished status) w k = (pure-IsTotal _).ends_at w
  install_round-Ends poll deadline again (running p) w k =
      pause-Ends c deadline poll _ (again p) w (k p)

  install_loop-Ends :
      (fuel poll deadline most : ℕ) (p : Progress) (w : World E.State)
      → 0 < poll
      → deadline < fuel + clock w
      → Ends (install_loop opts profile (suc fuel) poll deadline most p) w
  unfolding install_loop
  install_loop-Ends zero poll deadline most p w pos fits =
      bind-Ends _ _ w (poll_install-IsTotal most p) λ found w' h.
        install_round-Ends poll deadline _ found w' (λ p' w'' h' h''. absurd (omega arith))
  install_loop-Ends (suc fuel) poll deadline most p w pos fits =
      bind-Ends _ _ w (poll_install-IsTotal most p) λ found w' h.
        install_round-Ends poll deadline _ found w'
          λ p' w'' h' h''. install_loop-Ends fuel poll deadline most p' w'' pos (omega arith)

  -- With a clock that does not go back and a positive poll interval, `monitor_install` returns or
  -- raises, whatever the appliance answers: its fuel is enough.
  pub monitor_install_ends :
      (poll timeout most : ℕ) (w : World E.State)
      → 0 < poll
      → (monitor_install opts profile poll timeout most w).0 ≢ out_of_fuel
  unfolding monitor_install
  monitor_install_ends poll timeout most w pos =
      let rounds : timeout + 2 ≡ suc (timeout + 1) = omega arith in
      rw rounds (
        (now-Ends _ w (
          install_loop-Ends (timeout + 1) poll (clock w + timeout) most _ w pos
            (omega arith))).ends)
