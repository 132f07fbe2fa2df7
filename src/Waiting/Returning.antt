-- ===== src/Waiting/Returning.antt =====
-- What the loop returns: a value that a round found finished.
use saltext_vmware.Base.{ℕ, zero, suc}
use saltext_vmware.Json.{Json}
use saltext_vmware.Exec.{Env, Exec}
use saltext_vmware.Exec.Returns.{Returns, Returns-bind, returns_rules}
use saltext_vmware.Waiting.{Progress, finished, running, sleep_or_give_up, go_on, poll_loop}
use saltext_vmware.Waiting.{poll_until}

abbrev pub IsFinished : (Json → Type 0) → Progress → Type 0
IsFinished P (finished v) = P v
IsFinished P (running late) = Unit

module _ ⦃E : Env⦄ {P : Json → Type 0} where
  go_on-Returns :
      (poll deadline : ℕ) (again : Exec Json) (progress : Progress)
      → Returns P again
      → IsFinished P progress
      → Returns P (go_on poll deadline again progress)
  unfolding go_on sleep_or_give_up
  go_on-Returns poll deadline again (finished v) k h = search (returns_rules, h)
  go_on-Returns poll deadline again (running late) k h = search (returns_rules, k) depth 8

  poll_loop-Returns :
      (look : Exec Progress) (fuel poll deadline : ℕ)
      → Returns (IsFinished P) look
      → Returns P (poll_loop look fuel poll deadline)
  unfolding poll_loop
  poll_loop-Returns look zero poll deadline h = search returns_rules
  poll_loop-Returns look (suc fuel) poll deadline h = Returns-bind look _ h (λ progress found.
      go_on-Returns poll deadline _ progress (poll_loop-Returns look fuel poll deadline h) found)

  pub poll_until-Returns :
      (look : Exec Progress)
      → Returns (IsFinished P) look
      → (timeout poll : ℕ) → Returns P (poll_until look timeout poll)
  unfolding poll_until
  poll_until-Returns look h timeout poll = search (returns_rules, poll_loop-Returns look, h) depth 6
