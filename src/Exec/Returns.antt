-- ===== src/Exec/Returns.antt =====
-- What an action returns: a postcondition on the value of every run that does not raise, one rule
-- for each way to build an action.
use saltext_vmware.Base.{◌≡◌, refl, Bool, true, false, if◌then◌else◌}
use saltext_vmware.Http.{Exc, Result, ok, err, out_of_fuel, is_http_error}
use saltext_vmware.Exec.{Env, World, Exec, pure, raise, lift, spent, catch, catch_http, ◌>>=◌}

pub record Returns ⦃E : Env⦄ {A : Type 0} (P : A → Type 0) (m : Exec A) : Type 0 where
  pub at : (w : World E.State) (a : A) → (m w).0 ≡ ok a → P a

module _ ⦃E : Env⦄ {A : Type 0} {P : A → Type 0} where
  pub Returns-pure : (a : A) → P a → Returns P (pure a)
  unfolding pure
  Returns-pure a h = record { at = λ w b p. let e : a ≡ b = cc in rw e at h }

  pub Returns-raise : (e : Exc) → Returns P (raise e)
  unfolding raise
  Returns-raise e = record { at = λ w b p. cc }

  pub Returns-spent : Returns P spent
  unfolding spent
  Returns-spent = record { at = λ w b p. cc }

  pub Returns-lift : (r : Result A) → ((a : A) → r ≡ ok a → P a) → Returns P (lift r)
  unfolding lift
  Returns-lift r h = record { at = λ w b p. h b p }

  pub Returns-if :
      (b : Bool) (m n : Exec A)
      → (b ≡ true → Returns P m)
      → (b ≡ false → Returns P n)
      → Returns P (if b then m else n)
  Returns-if true m n km kn = km refl
  Returns-if false m n km kn = kn refl

  handled :
      (r : Result A) (h : Exc → Exec A) (w : World E.State) (a : A)
      → ((b : A) → r ≡ ok b → P b)
      → ((e : Exc) → Returns P (h e))
      → (catch (lift r) h w).0 ≡ ok a
      → P a
  unfolding catch lift
  handled (ok b) h w a k kh p = k a p
  handled (err e) h w a k kh p = (kh e).at w a p
  handled out_of_fuel h w a k kh p = cc

  pub Returns-catch :
      (m : Exec A) (h : Exc → Exec A)
      → Returns P m
      → ((e : Exc) → Returns P (h e))
      → Returns P (catch m h)
  unfolding catch lift
  Returns-catch m h km kh = record { at = λ w a p. handled (m w).0 h (m w).1 a (km.at w) kh p }

  only :
      (h : Exc → Exec A) (e : Exc) (b : Bool) (w : World E.State) (a : A)
      → is_http_error e ≡ b
      → Returns P (h e)
      → (catch_http (raise e) h w).0 ≡ ok a
      → P a
  unfolding catch_http raise
  only h e true w a q kh p = kh.at w a (rw q at p)
  only h e false w a q kh p = let p' = rw q at p in cc

  handled_http :
      (r : Result A) (h : Exc → Exec A) (w : World E.State) (a : A)
      → ((b : A) → r ≡ ok b → P b)
      → ((e : Exc) → Returns P (h e))
      → (catch_http (lift r) h w).0 ≡ ok a
      → P a
  unfolding catch_http lift raise
  handled_http (ok b) h w a k kh p = k a p
  handled_http (err e) h w a k kh p = only h e (is_http_error e) w a refl (kh e) p
  handled_http out_of_fuel h w a k kh p = cc

  pub Returns-catch_http :
      (m : Exec A) (h : Exc → Exec A)
      → Returns P m
      → ((e : Exc) → Returns P (h e))
      → Returns P (catch_http m h)
  unfolding catch_http lift
  Returns-catch_http m h km kh = record {
    at = λ w a p. handled_http (m w).0 h (m w).1 a (km.at w) kh p;
  }

module _ ⦃E : Env⦄ {A B : Type 0} {Q : A → Type 0} {P : B → Type 0} where
  bound :
      (r : Result A) (f : A → Exec B) (w : World E.State) (b : B)
      → ((a : A) → r ≡ ok a → Q a)
      → ((a : A) → Q a → Returns P (f a))
      → ((lift r >>= f) w).0 ≡ ok b
      → P b
  unfolding ◌>>=◌
  bound (ok a) f w b q k p = (k a (q a refl)).at w b p
  bound (err e) f w b q k p = cc
  bound out_of_fuel f w b q k p = cc

  -- The rest of the block may use what the first action returns.
  pub Returns-bind :
      (m : Exec A) (f : A → Exec B)
      → Returns Q m
      → ((a : A) → Q a → Returns P (f a))
      → Returns P (m >>= f)
  unfolding ◌>>=◌
  Returns-bind m f km k = record { at = λ w b p. bound (m w).0 f (m w).1 b (km.at w) k p }

module _ ⦃E : Env⦄ {A : Type 0} where
  any_value : (m : Exec A) → Returns (λ _. Unit {0}) m
  any_value m = record { at = λ w a p. tt }

module _ ⦃E : Env⦄ {A B : Type 0} {P : B → Type 0} where
  pub Returns-after :
      (m : Exec A) (f : A → Exec B) → ((a : A) → Returns P (f a)) → Returns P (m >>= f)
  Returns-after m f k = Returns-bind m f (any_value m) (λ a _. k a)

pub ruleset returns_rules = (
  Returns-pure, Returns-raise, Returns-spent, Returns-if, Returns-catch, Returns-catch_http,
  Returns-after,
)
