-- ===== src/Exec/Later.antt =====
-- Actions during which the clock does not go back, whether they end or not.
use saltext_vmware.Base.{ℕ, ◌≤◌, arith}
use saltext_vmware.Http.{Result, ok, err, out_of_fuel}
use saltext_vmware.Exec.{Env, World, Exec, lift, ◌>>=◌}

module _ ⦃E : Env⦄ where
  abbrev pub clock : World E.State → ℕ
  clock w = E.monotonic w.remote

  pub record GoesOn {A : Type 0} (m : Exec A) : Type 0 where
    pub later : (w : World E.State) → clock w ≤ clock (m w).1

module _ ⦃E : Env⦄ {A B : Type 0} where
  after_later :
      (r : Result A) (f : A → Exec B) (w : World E.State)
      → ((a : A) → GoesOn (f a))
      → clock w ≤ clock ((lift r >>= f) w).1
  unfolding ◌>>=◌
  after_later (ok a) f w k = (k a).later w
  after_later (err e) f w k = omega arith
  after_later out_of_fuel f w k = omega arith

  pub bind-GoesOn :
      (m : Exec A) (f : A → Exec B) → GoesOn m → ((a : A) → GoesOn (f a)) → GoesOn (m >>= f)
  unfolding ◌>>=◌
  bind-GoesOn m f gm k = record {
    later = λ w. omega (arith, gm.later w, after_later (m w).0 f (m w).1 k);
  }
