-- ===== src/Waiting/Ending.antt =====
-- The loop ends.
use saltext_vmware.Base.{ℕ, zero, suc, ◌+◌, ◌≤◌, ◌<◌, ◌≡◌, Bool, true, false, arith, leb}
use saltext_vmware.Base.{if◌then◌else◌}
use saltext_vmware.Json.{Json}
use saltext_vmware.Exec.{Env, IsClock, World, Exec, now, sleep, spent}
use saltext_vmware.Exec.Total.{
  goes_on, Ends, IsTotal, bind-Ends, sleep-Ends, if-Ends, now-Ends, pure-IsTotal, raise-IsTotal,
  now-IsTotal, sleep-IsTotal,
}
use saltext_vmware.Exec.Later.{clock, GoesOn, bind-GoesOn}
use saltext_vmware.Waiting.{Progress, finished, running, sleep_or_give_up, go_on, poll_loop}
use saltext_vmware.Waiting.{poll_until}

if-GoesOn :
    ⦃E : Env⦄ {A : Type 0} (b : Bool) (m n : Exec A)
    → GoesOn m
    → GoesOn n
    → GoesOn (if b then m else n)
if-GoesOn true m n h k = h
if-GoesOn false m n h k = k

module _ ⦃E : Env⦄ (c : IsClock E) (poll deadline : ℕ) where
  go_on-Ends :
      (again : Exec Json) (progress : Progress) (w : World E.State)
      → ((w' : World E.State) → clock w < deadline → clock w + poll ≤ clock w' → Ends again w')
      → Ends (go_on poll deadline again progress) w
  unfolding go_on sleep_or_give_up
  go_on-Ends again (finished v) w k = (pure-IsTotal v).ends_at w
  go_on-Ends again (running late) w k = now-Ends _ w (
      if-Ends (leb deadline (clock w)) _ _ w (λ _. (raise-IsTotal late).ends_at w)
        (λ early. sleep-Ends c poll again w (λ w' h. k w' (ground arith) h)))

  go_on-GoesOn :
      (again : Exec Json) (progress : Progress)
      → GoesOn again
      → GoesOn (go_on poll deadline again progress)
  unfolding go_on sleep_or_give_up
  go_on-GoesOn again (finished v) k = record { later = (pure-IsTotal v).later }
  go_on-GoesOn again (running late) k = bind-GoesOn now _ (goes_on now-IsTotal) λ t.
      if-GoesOn (leb deadline t) _ _ (record { later = (raise-IsTotal late).later })
        (bind-GoesOn (sleep poll) _ (goes_on (sleep-IsTotal c poll)) (λ _. k))

module _ ⦃E : Env⦄ (c : IsClock E) (look : Exec Progress) (looks : IsTotal look) where
  poll_loop-Ends :
      (fuel poll deadline : ℕ) (w : World E.State)
      → 0 < poll
      → deadline ≤ fuel + clock w
      → Ends (poll_loop look (suc fuel) poll deadline) w
  unfolding poll_loop
  poll_loop-Ends zero poll deadline w pos fits = bind-Ends look _ w looks λ progress w' h.
      go_on-Ends c poll deadline _ progress w' (λ w'' early later. absurd (omega arith))
  poll_loop-Ends (suc fuel) poll deadline w pos fits = bind-Ends look _ w looks λ progress w' h.
      go_on-Ends c poll deadline _ progress w'
        (λ w'' early later. poll_loop-Ends fuel poll deadline w'' pos (omega arith))

  pub poll_until-Ends :
      (timeout poll : ℕ) (w : World E.State) → 0 < poll → Ends (poll_until look timeout poll) w
  unfolding poll_until
  poll_until-Ends timeout poll w pos =
      let rounds : timeout + 1 ≡ suc timeout = omega arith in
      rw rounds (now-Ends _ w (poll_loop-Ends timeout poll (clock w + timeout) w pos (omega arith)))

  poll_loop-GoesOn : (fuel poll deadline : ℕ) → GoesOn (poll_loop look fuel poll deadline)
  unfolding poll_loop spent
  poll_loop-GoesOn zero poll deadline = record { later = λ w. omega arith }
  poll_loop-GoesOn (suc fuel) poll deadline =
      bind-GoesOn look _ (goes_on looks)
        λ progress. go_on-GoesOn c poll deadline _ progress (poll_loop-GoesOn fuel poll deadline)

  pub poll_until-IsTotal : (timeout poll : ℕ) → 0 < poll → IsTotal (poll_until look timeout poll)
  unfolding poll_until
  poll_until-IsTotal timeout poll pos = record {
    ends_at = λ w. poll_until-Ends timeout poll w pos;
    later = (bind-GoesOn now _ (goes_on now-IsTotal) (λ start. poll_loop-GoesOn _ poll _)).later;
  }
