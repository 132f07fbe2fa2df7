-- ===== src/Vcenter/TaskEnding.antt =====
-- The loop of `wait_for_task` ends.
use saltext_vmware.Base.{ℕ, zero, suc, ◌+◌, ◌≤◌, ◌<◌, String, ◌≡◌, ◌≢◌, Bool, true, false}
use saltext_vmware.Base.{Option, arith, ltb}
use saltext_vmware.Json.{Json, null, empty}
use saltext_vmware.Http.{out_of_fuel, get}
use saltext_vmware.Http.Done.{IsDone-get}
use saltext_vmware.Exec.{Env, IsClock, World, Exec, lift}
use saltext_vmware.Exec.Total.{Ends, IsTotal, total_rules, lift-IsTotal, bind-Ends, sleep-Ends}
use saltext_vmware.Exec.Later.{clock}
use saltext_vmware.Exec.Total.{if-Ends, now-Ends, pure-IsTotal, raise-IsTotal}
use saltext_vmware.Vcenter.Task.{Lookup, ran_synchronously, task, read_task, verdict, judge}
use saltext_vmware.Vcenter.Task.{
  timed_out, task_failed, wait_round, wait_loop, wait_for_task, is_success, is_failure,
}
use saltext_vmware.Vcenter.Ending.{api_get-IsTotal}

module _ ⦃E : Env⦄ (c : IsClock E) (opts : Json) (task_id : Json) (profile : Option String) where
  read_task-IsTotal : (seen : Bool) → IsTotal (read_task opts task_id profile seen)
  unfolding read_task
  read_task-IsTotal seen = search (total_rules, c, api_get-IsTotal) depth 8

  timed_out-IsTotal :
      (timeout : ℕ) (found : Json) → IsTotal (timed_out opts task_id profile timeout found)
  unfolding timed_out
  timed_out-IsTotal timeout found = search total_rules

  verdict-Ends :
      (poll : ℕ) (again : Json → Exec Json) (found status : Json) (w : World E.State)
      → ((w' : World E.State) → clock w + poll ≤ clock w' → Ends (again found) w')
      → Ends (verdict opts task_id profile poll again found status) w
  unfolding verdict task_failed
  verdict-Ends poll again found status w k =
      if-Ends (is_success status) _ _ w (λ _. (pure-IsTotal found).ends_at w)
        (λ _.
          if-Ends (is_failure status) _ _ w (λ _. (raise-IsTotal _).ends_at w)
            (λ _. sleep-Ends c poll (again found) w k))

  judge-Ends :
      (poll : ℕ) (again : Json → Exec Json) (answer : Lookup) (w : World E.State)
      → ((found : Json) (w' : World E.State) → clock w + poll ≤ clock w' → Ends (again found) w')
      → Ends (judge opts task_id profile poll again answer) w
  unfolding judge
  judge-Ends poll again ran_synchronously w k = (pure-IsTotal _).ends_at w
  judge-Ends poll again (task found) w k =
      bind-Ends (lift (get found "status" null)) _ w
        (lift-IsTotal _ (IsDone-get found "status" null).done)
        λ status w' h. verdict-Ends poll again found status w' (λ w'' h'. k found w'' (omega arith))

  wait_round-Ends :
      (timeout poll deadline : ℕ) (again : Json → Exec Json) (found : Json) (seen : Bool)
      (w : World E.State)
      → ((last : Json) (w' : World E.State)
          → clock w < deadline
          → clock w + poll ≤ clock w'
          → Ends (again last) w')
      → Ends (wait_round opts task_id profile timeout poll deadline again found seen (clock w)) w
  unfolding wait_round
  wait_round-Ends timeout poll deadline again found seen w k =
      if-Ends (ltb (clock w) deadline) _ _ w
        (λ early.
          bind-Ends (read_task opts task_id profile seen) _ w (read_task-IsTotal seen)
            λ answer w' h.
              judge-Ends poll again answer w'
                (λ last w'' h'. k last w'' (ground arith) (omega arith)))
        (λ _. (timed_out-IsTotal timeout found).ends_at w)

  wait_loop-Ends :
      (fuel timeout poll deadline : ℕ) (found : Json) (seen : Bool) (w : World E.State)
      → 0 < poll
      → deadline ≤ fuel + clock w
      → Ends (wait_loop opts task_id profile (suc fuel) timeout poll deadline found seen) w
  unfolding wait_loop
  wait_loop-Ends zero timeout poll deadline found seen w pos fits = now-Ends _ w (
      wait_round-Ends timeout poll deadline _ found seen w
        (λ last w' early h. absurd (omega arith)))
  wait_loop-Ends (suc fuel) timeout poll deadline found seen w pos fits = now-Ends _ w (
      wait_round-Ends timeout poll deadline _ found seen w (λ last w' early h.
        wait_loop-Ends fuel timeout poll deadline last true w' pos (omega arith)))

  -- With a clock that does not go back and a positive poll interval, `wait_for_task` returns or
  -- raises, whatever the machine answers: its fuel is enough.
  pub wait_for_task_ends :
      (timeout poll : ℕ) (w : World E.State)
      → 0 < poll
      → (wait_for_task opts task_id profile timeout poll w).0 ≢ out_of_fuel
  unfolding wait_for_task
  wait_for_task_ends timeout poll w pos =
      let rounds : timeout + 1 ≡ suc timeout = omega arith in
      rw rounds (
        (now-Ends _ w (
          wait_loop-Ends timeout timeout poll (clock w + timeout) empty false w pos
            (omega arith))).ends)
