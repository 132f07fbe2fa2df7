-- ===== src/Waiting/Counting.antt =====
-- How many requests the loop sends: what a look sends, once for each round.
use saltext_vmware.Base.{ℕ, zero, suc, ◌+◌, ◌*◌, arith, leb}
use saltext_vmware.Json.{Json}
use saltext_vmware.Exec.{Env, Exec, now, sleep}
use saltext_vmware.Exec.Costs.{
  Costs, costs_rules, Costs-bind, Costs-quiet, Costs-if, Costs-raise, Costs-now, Costs-sleep,
}
use saltext_vmware.Waiting.{Progress, finished, running, sleep_or_give_up, go_on, poll_loop}
use saltext_vmware.Waiting.{poll_until}

module _ ⦃E : Env⦄ (look : Exec Progress) (n : ℕ) (looks : Costs n look) where
  go_on-Costs :
      {k : ℕ} (poll deadline : ℕ) (again : Exec Json) (progress : Progress)
      → Costs k again
      → Costs k (go_on poll deadline again progress)
  unfolding go_on sleep_or_give_up
  go_on-Costs poll deadline again (finished v) h = search costs_rules
  go_on-Costs poll deadline again (running late) h = Costs-quiet now _ Costs-now λ t.
      Costs-if (leb deadline t) _ _ (Costs-raise late)
        (Costs-quiet (sleep poll) _ (Costs-sleep poll) (λ _. h))

  poll_loop-Costs : (fuel poll deadline : ℕ) → Costs (n * fuel) (poll_loop look fuel poll deadline)
  unfolding poll_loop
  poll_loop-Costs zero poll deadline = search costs_rules
  poll_loop-Costs (suc fuel) poll deadline =
      Costs-bind n (n * fuel) look _ (omega arith) looks
        λ progress. go_on-Costs poll deadline _ progress (poll_loop-Costs fuel poll deadline)

  pub poll_until-Costs :
      (timeout poll : ℕ) → Costs (n * (timeout + 1)) (poll_until look timeout poll)
  unfolding poll_until
  poll_until-Costs timeout poll =
      Costs-quiet now _ Costs-now (λ start. poll_loop-Costs (timeout + 1) poll _)
