-- ===== src/Sddc/Outcomes.antt =====
-- What `wait` of clients/sddc_tasks.py returns, and when.
use saltext_vmware.Base.{ℕ, String, ◌≡◌, true, false, not, Option, arith}
use saltext_vmware.Json.{Json, null, is_text}
use saltext_vmware.Http.{ok, get}
use saltext_vmware.Exec.{Env, World, lift}
use saltext_vmware.Exec.Returns.{Returns, Returns-bind, Returns-after, Returns-lift, returns_rules}
use saltext_vmware.Waiting.Returning.{IsFinished, poll_until-Returns}
use saltext_vmware.Sddc.Tasks.{get_task, task_ended, look_at_task, wait}

abbrev pub IsSuccessful : Json → Type 0
IsSuccessful task =
    (status : Json) × (get task "status" null ≡ ok status) × (is_text status "Successful" ≡ true)

module _ ⦃E : Env⦄ (opts task_id : Json) (profile : Option String) where
  task_ended-Returns :
      (task status : Json)
      → get task "status" null ≡ ok status
      → Returns (IsFinished IsSuccessful) (task_ended opts task_id profile task status)
  unfolding task_ended
  task_ended-Returns task status e =
      let won : not (is_text status "Successful") ≡ false → IsSuccessful task =
        λ h. (status, e, ground arith) in
      search (returns_rules, won) depth 8

  look_at_task-Returns :
      (timeout : ℕ) → Returns (IsFinished IsSuccessful) (look_at_task opts task_id profile timeout)
  unfolding look_at_task
  look_at_task-Returns timeout = Returns-after (get_task opts task_id profile) _ λ task.
      Returns-bind (lift (get task "status" null)) _
        (Returns-lift {P = λ status. get task "status" null ≡ ok status} _ (λ status e. e))
        λ status e. search (returns_rules, task_ended-Returns task status e) depth 8

  -- A task that `wait` returns has the status Successful.
  pub wait_ok :
      (timeout poll : ℕ) (w : World E.State) (task : Json)
      → (wait opts task_id profile timeout poll w).0 ≡ ok task
      → IsSuccessful task
  unfolding wait
  wait_ok timeout poll = (poll_until-Returns _ (look_at_task-Returns timeout) timeout poll).at
