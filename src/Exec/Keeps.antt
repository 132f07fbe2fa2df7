-- ===== src/Exec/Keeps.antt =====
-- Invariants of `Exec` actions, one rule for each way to build an action.
use saltext_vmware.Base.{ℕ, ◌≡◌, refl, Bool, true, false, List, All, if◌then◌else◌}
use saltext_vmware.Json.{Fields}
use saltext_vmware.Http.{Request, Exc, Result, ok, err, out_of_fuel, is_http_error}
use saltext_vmware.Exec.{
  Caches, Env, World, Exec, pure, raise, lift, spent, catch, catch_http, ◌>>=◌,
}
use saltext_vmware.Exec.{send, now, sleep, get_sessions, put_sessions, get_caches, put_caches}

-- A predicate on the history of requests
abbrev pub History : Type 1
History = List Request → Type 0

-- From a history with `P`, `m` leaves one with `P`, whether it returns or raises.
pub record Keeps ⦃E : Env⦄ {A : Type 0} (P : History) (m : Exec A) : Type 0 where
  pub at : (w : World E.State) → P w.sent → P (m w).1.sent

module _ ⦃E : Env⦄ {A : Type 0} {P : History} where
  pub Keeps-pure : (a : A) → Keeps P (pure a)
  unfolding pure
  Keeps-pure a = record { at = λ w h. h }

  pub Keeps-raise : (e : Exc) → Keeps P (raise {A = A} e)
  unfolding raise
  Keeps-raise e = record { at = λ w h. h }

  pub Keeps-lift : (r : Result A) → Keeps P (lift r)
  unfolding lift
  Keeps-lift r = record { at = λ w h. h }

  pub Keeps-spent : Keeps P (spent {A = A})
  unfolding spent
  Keeps-spent = record { at = λ w h. h }

  pub Keeps-if :
      (test : Bool) (hit miss : Exec A)
      → (test ≡ true → Keeps P hit)
      → (test ≡ false → Keeps P miss)
      → Keeps P (if test then hit else miss)
  Keeps-if false hit miss left right = right refl
  Keeps-if true hit miss left right = left refl

  handled :
      (r : Result A) (h : Exc → Exec A) (w : World E.State)
      → ((e : Exc) → Keeps P (h e))
      → P w.sent
      → P (catch (lift r) h w).1.sent
  unfolding catch lift
  handled (ok a) h w kh p = p
  handled (err e) h w kh p = (kh e).at w p
  handled out_of_fuel h w kh p = p

  pub Keeps-catch :
      (m : Exec A) (h : Exc → Exec A)
      → Keeps P m
      → ((e : Exc) → Keeps P (h e))
      → Keeps P (catch m h)
  unfolding catch lift
  Keeps-catch m h km kh = record { at = λ w p. let (r, w') = m w in handled r h w' kh (km.at w p) }

  only :
      (m : Exec A) (h : Exc → Exec A) (e : Exc) (b : Bool) (w : World E.State)
      → is_http_error e ≡ b
      → Keeps P (h e)
      → P w.sent
      → P (catch_http (raise e) h w).1.sent
  unfolding catch_http raise
  only m h e true w q kh p = rw q (kh.at w p)
  only m h e false w q kh p = rw q p

  handled_http :
      (r : Result A) (h : Exc → Exec A) (w : World E.State)
      → ((e : Exc) → Keeps P (h e))
      → P w.sent
      → P (catch_http (lift r) h w).1.sent
  unfolding catch_http lift raise
  handled_http (ok a) h w kh p = p
  handled_http (err e) h w kh p = only (raise e) h e (is_http_error e) w refl (kh e) p
  handled_http out_of_fuel h w kh p = p

  pub Keeps-catch_http :
      (m : Exec A) (h : Exc → Exec A)
      → Keeps P m
      → ((e : Exc) → Keeps P (h e))
      → Keeps P (catch_http m h)
  unfolding catch_http lift
  Keeps-catch_http m h km kh = record {
    at = λ w p. let (r, w') = m w in handled_http r h w' kh (km.at w p);
  }

module _ ⦃E : Env⦄ {A B : Type 0} {P : History} where
  -- A result that no exception ended is known in what follows.
  pub Keeps-bind-lift :
      (result : Result A) (next : A → Exec B)
      → ((value : A) → result ≡ ok value → Keeps P (next value))
      → Keeps P (lift result >>= next)
  unfolding ◌>>=◌
  Keeps-bind-lift out_of_fuel next k = Keeps-spent
  Keeps-bind-lift (err e) next k = Keeps-raise e
  Keeps-bind-lift (ok value) next k = k value refl

  pub Keeps-bind :
      (first : Exec A) (next : A → Exec B)
      → Keeps P first
      → ((value : A) → Keeps P (next value))
      → Keeps P (first >>= next)
  unfolding ◌>>=◌
  Keeps-bind first next k k' = record {
    at = λ w before.
        let (result, after) = first w in
        let rest : Keeps P (lift result >>= next) =
          Keeps-bind-lift result next (λ value _. k' value) in
        rest.at after (k.at w before);
  }

module _ ⦃E : Env⦄ {P : Request → Type 0} where
  -- A request of the kind that the history holds
  pub Keeps-sent : (r : Request) → P r → Keeps (All P) (send r)
  unfolding send
  Keeps-sent r h = record { at = λ w p. (h, p) }

module _ ⦃E : Env⦄ {P : History} where
  pub Keeps-now : Keeps P now
  unfolding now
  Keeps-now = record { at = λ w p. p }

  pub Keeps-sleep : (n : ℕ) → Keeps P (sleep n)
  unfolding sleep
  Keeps-sleep n = record { at = λ w p. p }

  pub Keeps-get_sessions : Keeps P get_sessions
  unfolding get_sessions
  Keeps-get_sessions = record { at = λ w p. p }

  pub Keeps-put_sessions : (cache : Fields) → Keeps P (put_sessions cache)
  unfolding put_sessions
  Keeps-put_sessions cache = record { at = λ w p. p }

  pub Keeps-get_caches : Keeps P get_caches
  unfolding get_caches
  Keeps-get_caches = record { at = λ w p. p }

  pub Keeps-put_caches : (caches : Caches) → Keeps P (put_caches caches)
  unfolding put_caches
  Keeps-put_caches caches = record { at = λ w p. p }

pub ruleset keeps_rules = (
  Keeps-pure, Keeps-raise, Keeps-lift, Keeps-spent, Keeps-if, Keeps-catch, Keeps-catch_http,
  Keeps-bind, Keeps-now, Keeps-sleep, Keeps-get_sessions, Keeps-put_sessions, Keeps-get_caches,
  Keeps-put_caches,
)
