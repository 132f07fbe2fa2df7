-- ===== src/Exec/Ensures.antt =====
-- Postconditions of `Exec` actions that speak of the world after the action too.
use saltext_vmware.Base.{◌≡◌, refl, sym, ap, Bool, true, false, if◌then◌else◌}
use saltext_vmware.Http.{Exc, Result, ok, err, out_of_fuel}
use saltext_vmware.Exec.{Env, World, Exec, pure, raise, lift, catch, ◌>>=◌}

-- Whatever `m` returns, it stands in `P` with the world that `m` leaves.
pub record Ensures ⦃E : Env⦄ {A : Type 0} (P : A → World E.State → Type 0) (m : Exec A)
    : Type 0 where
  pub at : (w : World E.State) (a : A) → (m w).0 ≡ ok a → P a (m w).1

module _ ⦃E : Env⦄ {A : Type 0} {P : A → World E.State → Type 0} where
  pub Ensures-pure : (a : A) → ((w : World E.State) → P a w) → Ensures P (pure a)
  unfolding pure
  Ensures-pure a h = record { at = λ w b p. let e : a ≡ b = cc in rw (sym e) (h w) }

  pub Ensures-raise : (e : Exc) → Ensures P (raise e)
  unfolding raise
  Ensures-raise e = record { at = λ w a p. cc }

  pub Ensures-if :
      (b : Bool) (m n : Exec A) → Ensures P m → Ensures P n → Ensures P (if b then m else n)
  Ensures-if true m n h k = h
  Ensures-if false m n h k = k

  -- The same with the outcome of the test known in each branch
  pub Ensures-split :
      (b : Bool) (m n : Exec A)
      → (b ≡ true → Ensures P m)
      → (b ≡ false → Ensures P n)
      → Ensures P (if b then m else n)
  Ensures-split true m n h k = h refl
  Ensures-split false m n h k = k refl

  handled :
      (r : Result A) (h : Exc → Exec A) (w : World E.State) (b : A)
      → ((a : A) → r ≡ ok a → P a w)
      → ((e : Exc) → Ensures P (h e))
      → (catch (lift r) h w).0 ≡ ok b
      → P b (catch (lift r) h w).1
  unfolding catch lift
  handled (ok a) h w b q k p = let e : a ≡ b = cc in q b (ap ok e)
  handled (err e) h w b q k p = (k e).at w b p
  handled out_of_fuel h w b q k p = cc

  pub Ensures-catch :
      (m : Exec A) (h : Exc → Exec A)
      → Ensures P m
      → ((e : Exc) → Ensures P (h e))
      → Ensures P (catch m h)
  unfolding catch lift
  Ensures-catch m h q k = record { at = λ w b p. handled (m w).0 h (m w).1 b (q.at w) k p }

module _ ⦃E : Env⦄ {A B : Type 0} where
  reached :
      (P : B → World E.State → Type 0) (r : Result A) (f : A → Exec B) (w : World E.State) (b : B)
      → ((a : A) → r ≡ ok a → (f a w).0 ≡ ok b → P b (f a w).1)
      → ((lift r >>= f) w).0 ≡ ok b
      → P b ((lift r >>= f) w).1
  unfolding ◌>>=◌
  reached P (ok a) f w b k p = k a refl p
  reached P (err e) f w b k p = cc
  reached P out_of_fuel f w b k p = cc

module _ ⦃E : Env⦄ {A B : Type 0} {P : B → World E.State → Type 0} where
  continued :
      (r : Result A) (f : A → Exec B) (w : World E.State) (b : B)
      → ((a : A) → Ensures P (f a))
      → ((lift r >>= f) w).0 ≡ ok b
      → P b ((lift r >>= f) w).1
  unfolding ◌>>=◌
  continued (ok a) f w b k p = (k a).at w b p
  continued (err e) f w b k p = cc
  continued out_of_fuel f w b k p = cc

  -- What the last action of a block ensures, the block ensures.
  pub Ensures-after :
      (m : Exec A) (f : A → Exec B) → ((a : A) → Ensures P (f a)) → Ensures P (m >>= f)
  unfolding ◌>>=◌
  Ensures-after m f k = record { at = λ w b p. continued (m w).0 f (m w).1 b k p }

  -- A result that no exception ended is known in what follows.
  pub Ensures-known :
      (r : Result A) (f : A → Exec B)
      → ((a : A) → r ≡ ok a → Ensures P (f a))
      → Ensures P (lift r >>= f)
  unfolding ◌>>=◌
  Ensures-known (ok a) f k = record { at = (k a refl).at }
  Ensures-known (err e) f k = record { at = λ w b p. cc }
  Ensures-known out_of_fuel f k = record { at = λ w b p. cc }

  -- What the first action ensures may be used for the rest, in the world that it leaves.
  pub Ensures-bind :
      {Q : A → World E.State → Type 0} (m : Exec A) (f : A → Exec B)
      → Ensures Q m
      → ((a : A) (w : World E.State) (b : B) → Q a w → (f a w).0 ≡ ok b → P b (f a w).1)
      → Ensures P (m >>= f)
  unfolding ◌>>=◌
  Ensures-bind m f q k = record {
    at = λ w b p. reached P (m w).0 f (m w).1 b (λ a e. k a (m w).1 b (q.at w a e)) p;
  }

pub ruleset ensures_rules = (Ensures-raise, Ensures-if, Ensures-catch, Ensures-after)
