-- ===== src/Waiting/Keeping.antt =====
-- What each look keeps of the history, the loop keeps.
use saltext_vmware.Base.{ℕ, zero, suc, leb}
use saltext_vmware.Json.{Json}
use saltext_vmware.Exec.{Env, Exec, now, sleep}
use saltext_vmware.Exec.Keeps.{
  History, Keeps, keeps_rules, Keeps-bind, Keeps-if, Keeps-now, Keeps-raise,
}
use saltext_vmware.Exec.Keeps.{Keeps-sleep}
use saltext_vmware.Waiting.{Progress, finished, running, sleep_or_give_up, go_on, poll_loop}
use saltext_vmware.Waiting.{poll_until}

module _ ⦃E : Env⦄ {P : History} (look : Exec Progress) (looks : Keeps P look) where
  go_on-Keeps :
      (poll deadline : ℕ) (again : Exec Json) (progress : Progress)
      → Keeps P again
      → Keeps P (go_on poll deadline again progress)
  unfolding go_on sleep_or_give_up
  go_on-Keeps poll deadline again (finished v) k = search keeps_rules
  go_on-Keeps poll deadline again (running late) k = Keeps-bind now _ Keeps-now λ t.
      Keeps-if (leb deadline t) _ _ (λ _. Keeps-raise late)
        (λ _. Keeps-bind (sleep poll) _ (Keeps-sleep poll) (λ _. k))

  poll_loop-Keeps : (fuel poll deadline : ℕ) → Keeps P (poll_loop look fuel poll deadline)
  unfolding poll_loop
  poll_loop-Keeps zero poll deadline = search keeps_rules
  poll_loop-Keeps (suc fuel) poll deadline =
      Keeps-bind look _ looks
        (λ progress. go_on-Keeps poll deadline _ progress (poll_loop-Keeps fuel poll deadline))

  pub poll_until-Keeps : (timeout poll : ℕ) → Keeps P (poll_until look timeout poll)
  unfolding poll_until
  poll_until-Keeps timeout poll = search (keeps_rules, poll_loop-Keeps) depth 6
