-- ===== src/Exec/Costs.antt =====
-- How many requests an action sends at most, one rule for each way to build an action.
use saltext_vmware.Base.{ℕ, suc, ◌+◌, ◌≤◌, ◌≡◌, Bool, true, false, List, [], ◌∷◌, arith}
use saltext_vmware.Base.{if◌then◌else◌}
use saltext_vmware.Http.{Request, Exc, Result, ok, err, out_of_fuel}
use saltext_vmware.Exec.{Env, World, Caches, Exec, pure, raise, lift, spent, catch, ◌>>=◌, send}
use saltext_vmware.Exec.{get_caches, put_caches, now, sleep}

abbrev pub length : List Request → ℕ
length [] = 0
length (r ∷ rs) = suc (length rs)

pub record Costs ⦃E : Env⦄ {A : Type 0} (n : ℕ) (m : Exec A) : Type 0 where
  pub at : (w : World E.State) → length (m w).1.sent ≤ n + length w.sent

module _ ⦃E : Env⦄ {A : Type 0} {n : ℕ} where
  pub Costs-pure : (a : A) → Costs n (pure a)
  unfolding pure
  Costs-pure a = record { at = λ w. omega arith }

  pub Costs-raise : (e : Exc) → Costs n (raise {A = A} e)
  unfolding raise
  Costs-raise e = record { at = λ w. omega arith }

  pub Costs-lift : (r : Result A) → Costs n (lift r)
  unfolding lift
  Costs-lift r = record { at = λ w. omega arith }

  pub Costs-if : (b : Bool) (m m' : Exec A) → Costs n m → Costs n m' → Costs n (if b then m else m')
  Costs-if true m m' h h' = h
  Costs-if false m m' h h' = h'

module _ ⦃E : Env⦄ {A : Type 0} where
  -- A looser bound
  pub Costs-le : {a n : ℕ} {m : Exec A} → a ≤ n → Costs a m → Costs n m
  Costs-le h c = record { at = λ w. omega (arith, h, c.at w) }

module _ ⦃E : Env⦄ {n : ℕ} where
  pub Costs-get_caches : Costs n get_caches
  unfolding get_caches
  Costs-get_caches = record { at = λ w. omega arith }

  pub Costs-put_caches : (caches : Caches) → Costs n (put_caches caches)
  unfolding put_caches
  Costs-put_caches caches = record { at = λ w. omega arith }

  pub Costs-now : Costs n now
  unfolding now
  Costs-now = record { at = λ w. omega arith }

  pub Costs-sleep : (t : ℕ) → Costs n (sleep t)
  unfolding sleep
  Costs-sleep t = record { at = λ w. omega arith }

module _ ⦃E : Env⦄ where
  pub Costs-send : (r : Request) → Costs 1 (send r)
  unfolding send
  Costs-send r = record { at = λ w. omega arith }

module _ ⦃E : Env⦄ {A : Type 0} where
  handled :
      (r : Result A) (h : Exc → Exec A) (w : World E.State)
      → ((e : Exc) → Costs 0 (h e))
      → length (catch (lift r) h w).1.sent ≤ length w.sent
  unfolding catch lift
  handled (ok a) h w k = omega arith
  handled (err e) h w k = omega (arith, (k e).at w)
  handled out_of_fuel h w k = omega arith

module _ ⦃E : Env⦄ {A : Type 0} {n : ℕ} where
  -- The handler sends nothing.
  pub Costs-catch :
      (m : Exec A) (h : Exc → Exec A)
      → Costs n m
      → ((e : Exc) → Costs 0 (h e))
      → Costs n (catch m h)
  unfolding catch lift
  Costs-catch m h c k = record {
    at = λ w. let rest = handled (m w).0 h (m w).1 k in omega (arith, c.at w);
  }

  pub Costs-spent : Costs n (spent {A = A})
  unfolding spent
  Costs-spent = record { at = λ w. omega arith }

module _ ⦃E : Env⦄ {A B : Type 0} where
  continued :
      {n : ℕ} (r : Result A) (f : A → Exec B) (w : World E.State)
      → ((a : A) → Costs n (f a))
      → length ((lift r >>= f) w).1.sent ≤ n + length w.sent
  unfolding ◌>>=◌
  continued (ok a) f w k = (k a).at w
  continued (err e) f w k = omega arith
  continued out_of_fuel f w k = omega arith

  pub Costs-bind :
      (a b : ℕ) {n : ℕ} (m : Exec A) (f : A → Exec B)
      → a + b ≡ n
      → Costs a m
      → ((v : A) → Costs b (f v))
      → Costs n (m >>= f)
  unfolding ◌>>=◌
  Costs-bind a b m f e h k = record {
    at = λ w. let rest = continued (m w).0 f (m w).1 k in omega (arith, h.at w);
  }

  -- The first action sends nothing.
  pub Costs-quiet :
      {b : ℕ} (m : Exec A) (f : A → Exec B)
      → Costs 0 m
      → ((v : A) → Costs b (f v))
      → Costs b (m >>= f)
  Costs-quiet {b} m f h k = Costs-bind 0 b m f (omega arith) h k

  -- The rest sends nothing.
  pub Costs-last :
      {a : ℕ} (m : Exec A) (f : A → Exec B)
      → Costs a m
      → ((v : A) → Costs 0 (f v))
      → Costs a (m >>= f)
  Costs-last {a} m f h k = Costs-bind a 0 m f (omega arith) h k

pub ruleset costs_rules = (
  Costs-pure, Costs-raise, Costs-lift, Costs-if, Costs-catch, Costs-spent, Costs-get_caches,
  Costs-put_caches, Costs-now, Costs-sleep, Costs-send, Costs-quiet, Costs-last,
)
