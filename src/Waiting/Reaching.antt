-- ===== src/Waiting/Reaching.antt =====
-- When the loop returns: the runs that see the work end, as a relation, and that the loop returns
-- on these runs and no others.
use saltext_vmware.Base.{ℕ, zero, suc, ◌+◌, ◌≤◌, ◌<◌, ◌↔◌, ◌≡◌, refl, Bool, false, true, arith, leb}
use saltext_vmware.Json.{Json}
use saltext_vmware.Http.{Exc, ok}
use saltext_vmware.Exec.{Env, IsClock, World, Exec, pure, raise, spent, ◌>>=◌, now, sleep}
use saltext_vmware.Exec.Total.{IsTotal}
use saltext_vmware.Exec.Later.{clock}
use saltext_vmware.Exec.Runs.{bind-eq-ok}
use saltext_vmware.Waiting.{Progress, finished, running, sleep_or_give_up, go_on, poll_loop}
use saltext_vmware.Waiting.{poll_until}

module _ ⦃E : Env⦄ where
  -- The world after `time.sleep(n)`
  abbrev pub slept : ℕ → World E.State → World E.State
  slept n w = record w { remote = E.suspend n w.remote }

-- From a world, a number of rounds find the work running, each before the deadline, and the next
-- round finds that it ended with `v`, in the world `last`.
pub data Reaches ⦃E : Env⦄ (look : Exec Progress) (poll deadline : ℕ) (v : Json)
    (last : World E.State) : World E.State → Type 0 where
  seen :
      {w : World E.State} → look w ≡ (ok (finished v), last) → Reaches look poll deadline v last w
  later :
      {w : World E.State} (late : Exc) (w' : World E.State)
      → look w ≡ (ok (running late), w')
      → clock w' < deadline
      → Reaches look poll deadline v last (slept poll w')
      → Reaches look poll deadline v last w

module _ ⦃E : Env⦄ (c : IsClock E) (look : Exec Progress) (looks : IsTotal look) (poll : ℕ)
    (v : Json) (last : World E.State) where
  look_later : (w w' : World E.State) (p : Progress) → look w ≡ (ok p, w') → clock w ≤ clock w'
  look_later w w' p e = let h = looks.later w in rw e at h

  poll_loop-Reaches :
      (deadline fuel : ℕ) {w : World E.State}
      → 0 < poll
      → deadline ≤ fuel + clock w
      → Reaches look poll deadline v last w
      → poll_loop look (suc fuel) poll deadline w ≡ (ok v, last)
  unfolding poll_loop go_on sleep_or_give_up now ◌>>=◌ sleep pure
  poll_loop-Reaches deadline fuel pos fits (seen e) = rw e refl
  poll_loop-Reaches deadline zero {w} pos fits (later late w' e early r) =
      let h = look_later w w' (running late) e in absurd (omega arith)
  poll_loop-Reaches deadline (suc fuel) {w} pos fits (later late w' e early r) =
      let h = look_later w w' (running late) e in
      let asleep = c.suspend_later poll w'.remote in
      let open_yet : leb deadline (clock w') ≡ false = ground arith in
      rw (e, open_yet) (poll_loop-Reaches deadline fuel pos (omega arith) r)

module _ ⦃E : Env⦄ (look : Exec Progress) (poll deadline : ℕ) (v : Json)
    (last : World E.State) where
  waited :
      (again : Exec Json) (late : Exc) (b : Bool) {w : World E.State}
      → leb deadline (clock w) ≡ b
      → sleep_or_give_up poll deadline again late (clock w) w ≡ (ok v, last)
      → (clock w < deadline) × (again (slept poll w) ≡ (ok v, last))
  unfolding sleep_or_give_up sleep ◌>>=◌ raise
  waited again late true h e = let e' = rw h at e in cc
  waited again late false h e = let e' = rw h at e in (ground arith, e')

  reached :
      (again : Exec Json) (p : Progress) {w w' : World E.State}
      → look w ≡ (ok p, w')
      → go_on poll deadline again p w' ≡ (ok v, last)
      → ((w : World E.State) → again w ≡ (ok v, last) → Reaches look poll deadline v last w)
      → Reaches look poll deadline v last w
  unfolding go_on now ◌>>=◌ pure
  reached again (finished u) {w} {w'} e h k = seen cc
  reached again (running late) {w} {w'} e h k =
      let (early, rest) = waited again late (leb deadline (clock w')) {w = w'} refl h in
      later late w' e early (k (slept poll w') rest)

  Reaches-poll_loop :
      (fuel : ℕ) (w : World E.State)
      → poll_loop look fuel poll deadline w ≡ (ok v, last)
      → Reaches look poll deadline v last w
  unfolding poll_loop spent
  Reaches-poll_loop zero w h = cc
  Reaches-poll_loop (suc fuel) w h =
      let (p, e, rest) = bind-eq-ok look _ h in
      reached (poll_loop look fuel poll deadline) p e rest (Reaches-poll_loop fuel)

module _ ⦃E : Env⦄ (c : IsClock E) (look : Exec Progress) (looks : IsTotal look) (timeout poll : ℕ)
    (v : Json) (w last : World E.State) where
  -- The code's loop and the relation agree: with a positive interval, the wait returns `v` if and
  -- only if rounds before the deadline reach the end of the work with `v`.
  pub poll_until_iff :
      0 < poll
      → (poll_until look timeout poll w ≡ (ok v, last))
        ↔ Reaches look poll (clock w + timeout) v last w
  unfolding poll_until ◌>>=◌ now
  poll_until_iff pos =
      let rounds : timeout + 1 ≡ suc timeout = omega arith in
      (
        λ h. Reaches-poll_loop look poll (clock w + timeout) v last (timeout + 1) w h,
        λ r. rw rounds (
            poll_loop-Reaches c look looks poll v last (clock w + timeout) timeout pos (omega arith)
              r),
      )
