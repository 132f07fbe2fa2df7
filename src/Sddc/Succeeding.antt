-- ===== src/Sddc/Succeeding.antt =====
-- When `wait` of clients/sddc_tasks.py returns: the runs that see the task succeed, told by what the
-- reads of the task answer.
use saltext_vmware.Base.{ℕ, String, ◌<◌, ◌≡◌, refl, ◌↔◌, ◌+◌, Bool, true, false, not, Option}
use saltext_vmware.Base.{◌∙◌, if◌then◌else◌}
use saltext_vmware.Json.{Json, null, bool, num, str, arr, obj, is_text}
use saltext_vmware.Http.{Exc, exc, timeout_error, ok, get}
use saltext_vmware.Exec.{Env, IsClock, World, pure, raise, lift, ◌>>=◌}
use saltext_vmware.Exec.Later.{clock}
use saltext_vmware.Exec.Runs.{bind-eq-ok, lift-bind-eq-ok}
use saltext_vmware.Waiting.{Progress, finished, running}
use saltext_vmware.Waiting.Reaching.{Reaches, seen, later, slept, poll_until_iff}
use saltext_vmware.Sddc.Errors.{error_message}
use saltext_vmware.Sddc.Tasks.{still, is_terminal, get_task, task_ended, look_at_task, wait}
use saltext_vmware.Sddc.Ending.{look_at_task-IsTotal}

-- From a world, a number of reads find the task with a status that is not terminal, each before the
-- deadline and followed by a sleep, and the next read, which ends in the world `last`, finds `task`,
-- with the status Successful.
pub data Succeeds ⦃E : Env⦄ (opts task_id : Json) (profile : Option String) (poll deadline : ℕ)
    (task : Json) (last : World E.State) : World E.State → Type 0 where
  succeeded :
      {w : World E.State} (status : Json)
      → get_task opts task_id profile w ≡ (ok task, last)
      → get task "status" null ≡ ok status
      → is_text status "Successful" ≡ true
      → Succeeds opts task_id profile poll deadline task last w
  pending :
      {w : World E.State} (found status : Json) (w' : World E.State)
      → get_task opts task_id profile w ≡ (ok found, w')
      → get found "status" null ≡ ok status
      → is_terminal status ≡ ok false
      → clock w' < deadline
      → Succeeds opts task_id profile poll deadline task last (slept poll w')
      → Succeeds opts task_id profile poll deadline task last w

Successful-terminal :
    (status : Json) → is_text status "Successful" ≡ true → is_terminal status ≡ ok true
unfolding is_terminal
Successful-terminal (str s) h = rw h refl
Successful-terminal null h = cc
Successful-terminal (bool b) h = cc
Successful-terminal (num n) h = cc
Successful-terminal (arr vs) h = cc
Successful-terminal (obj fs) h = cc

module _ ⦃E : Env⦄ (opts task_id : Json) (profile : Option String) where
  -- The result of a look, in terms of the read of the task
  abbrev Looked : Progress → World E.State → World E.State → Type 0
  Looked (finished v) w last =
      (status : Json) × (get_task opts task_id profile w ≡ (ok v, last))
      × (get v "status" null ≡ ok status)
      × (is_text status "Successful" ≡ true)
  Looked (running late) w last =
      (found : Json) × (status : Json) × (get_task opts task_id profile w ≡ (ok found, last))
      × (get found "status" null ≡ ok status)
      × (is_terminal status ≡ ok false)

  judged :
      (task status : Json) (e : Json → Exc) (b : Bool) (w v : World E.State) (p : Progress)
      → is_text status "Successful" ≡ b
      → (if not b then error_message task >>= (λ m. raise (e m)) else pure (finished task)) w
        ≡ (ok p, v)
      → (p ≡ finished task) × (w ≡ v) × (is_text status "Successful" ≡ true)
  unfolding pure raise
  judged task status e true w v p h q = (cc, cc, h)
  judged task status e false w v p h q =
      let (m, _, rest) = bind-eq-ok (error_message task) _ q in cc

  ended :
      (task status : Json) (e : Json → Exc) (late : Exc) (terminal : Bool) (w u v : World E.State)
      (p : Progress)
      → get_task opts task_id profile w ≡ (ok task, u)
      → get task "status" null ≡ ok status
      → is_terminal status ≡ ok terminal
      → (if terminal
            then (if not (is_text status "Successful")
                then error_message task >>= (λ m. raise (e m))
                else pure (finished task))
            else pure (running late))
          u
        ≡ (ok p, v)
      → Looked p w v
  unfolding pure
  ended task status e late true w u v (finished x) g s t q =
      let (same, there, won) = judged task status e (is_text status "Successful") u v _ refl q in
      let whole : x ≡ task = cc in (status, rw whole (g ∙ rw there refl), rw whole s, won)
  ended task status e late true w u v (running l) g s t q =
      let (same, _, _) = judged task status e (is_text status "Successful") u v _ refl q in cc
  ended task status e late false w u v (finished x) g s t q = cc
  ended task status e late false w u v (running l) g s t q =
      let there : u ≡ v = cc in (task, status, g ∙ rw there refl, s, t)

  look_at_task-Looked :
      (timeout : ℕ) (w v : World E.State) (p : Progress)
      → look_at_task opts task_id profile timeout w ≡ (ok p, v)
      → Looked p w v
  unfolding look_at_task task_ended
  look_at_task-Looked timeout w v p e =
      let (task, g, r1) = bind-eq-ok (get_task opts task_id profile) _ e in
      let (status, s, r2) = lift-bind-eq-ok (get task "status" null) _ r1 in
      let (terminal, t, r3) = lift-bind-eq-ok (is_terminal status) _ r2 in
      ended task status _ _ terminal w _ v p g s t r3

  module _ (timeout poll deadline : ℕ) (task : Json) (last : World E.State) where
    Reaches-Succeeds :
        {w : World E.State}
        → Reaches (look_at_task opts task_id profile timeout) poll deadline task last w
        → Succeeds opts task_id profile poll deadline task last w
    Reaches-Succeeds (seen {w} e) =
        let (status, g, s, won) = look_at_task-Looked timeout w last (finished task) e in
        succeeded status g s won
    Reaches-Succeeds (later {w} late w' e early r) =
        let (found, status, g, s, t) = look_at_task-Looked timeout w w' (running late) e in
        pending found status w' g s t early (Reaches-Succeeds r)

    Succeeds-Reaches :
        {w : World E.State}
        → Succeeds opts task_id profile poll deadline task last w
        → Reaches (look_at_task opts task_id profile timeout) poll deadline task last w
    unfolding look_at_task task_ended ◌>>=◌ lift pure
    Succeeds-Reaches (succeeded status g s won) =
        seen (rw (g, s, Successful-terminal status won, won) refl)
    Succeeds-Reaches (pending found status w' g s t early r) =
        later (exc timeout_error (still opts task_id profile status timeout)) w' (rw (g, s, t) refl)
          early (Succeeds-Reaches r)

  -- With a clock that does not go back and a positive poll interval, `wait` returns a task exactly
  -- where reads before the deadline find it not terminal and the next read finds this task, with
  -- the status Successful; the world is then the one that this read left.
  pub wait-Succeeds :
      (c : IsClock E) (timeout poll : ℕ) (task : Json) (w last : World E.State)
      → 0 < poll
      → (wait opts task_id profile timeout poll w ≡ (ok task, last))
        ↔ Succeeds opts task_id profile poll (clock w + timeout) task last w
  unfolding wait
  wait-Succeeds c timeout poll task w last pos =
      let (to, from) =
        poll_until_iff c (look_at_task opts task_id profile timeout)
          (look_at_task-IsTotal c opts task_id profile timeout) timeout poll task w last pos in
      (
        λ h. Reaches-Succeeds timeout poll (clock w + timeout) task last (to h),
        λ r. from (Succeeds-Reaches timeout poll (clock w + timeout) task last r),
      )
