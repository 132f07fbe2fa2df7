-- ===== src/Exec/Total.antt =====
-- Actions that end: they do not run out of fuel, and the clock does not go back. One rule for each
-- way to build an action, and rules for a loop that is bounded by the clock.
use saltext_vmware.Base.{ℕ, ◌+◌, ◌≤◌, ◌≡◌, refl, ◌≢◌, Bool, true, false, arith}
use saltext_vmware.Base.{if◌then◌else◌}
use saltext_vmware.Json.{Fields}
use saltext_vmware.Http.{Request, Reply, answered, failed, Exc, Result, ok, err, out_of_fuel}
use saltext_vmware.Http.{is_http_error}
use saltext_vmware.Exec.{
  Caches, Env, IsClock, World, Exec, pure, raise, lift, catch, catch_http, ◌>>=◌,
}
use saltext_vmware.Exec.{
  send, now, sleep, get_sessions, put_sessions, get_caches, put_caches, received,
}
use saltext_vmware.Exec.Later.{clock, GoesOn, bind-GoesOn}

module _ ⦃E : Env⦄ where
  -- From the world `w` the action does not run out of fuel.
  pub record Ends {A : Type 0} (m : Exec A) (w : World E.State) : Type 0 where
    pub ends : (m w).0 ≢ out_of_fuel

  pub record IsTotal {A : Type 0} (m : Exec A) : Type 0 where
    pub ends_at : (w : World E.State) → Ends m w
    pub later : (w : World E.State) → clock w ≤ clock (m w).1

  pub goes_on : {A : Type 0} {m : Exec A} → IsTotal m → GoesOn m
  goes_on t = record { later = t.later }

module _ ⦃E : Env⦄ {A : Type 0} where
  pub pure-IsTotal : (a : A) → IsTotal (pure a)
  unfolding pure
  pure-IsTotal a = record { ends_at = λ w. record { ends = λ p. cc }; later = λ w. omega arith }

  pub raise-IsTotal : (e : Exc) → IsTotal (raise {A = A} e)
  unfolding raise
  raise-IsTotal e = record { ends_at = λ w. record { ends = λ p. cc }; later = λ w. omega arith }

  pub lift-IsTotal : (r : Result A) → r ≢ out_of_fuel → IsTotal (lift r)
  unfolding lift
  lift-IsTotal r h = record { ends_at = λ w. record { ends = h }; later = λ w. omega arith }

  pub if-IsTotal : (b : Bool) (m n : Exec A) → IsTotal m → IsTotal n → IsTotal (if b then m else n)
  if-IsTotal true m n tm tn = tm
  if-IsTotal false m n tm tn = tn

  handled :
      (r : Result A) (h : Exc → Exec A) (w : World E.State)
      → r ≢ out_of_fuel
      → ((e : Exc) → IsTotal (h e))
      → Ends (catch (lift r) h) w × (clock w ≤ clock (catch (lift r) h w).1)
  unfolding catch lift
  handled (ok a) h w n th = (record { ends = λ p. cc }, omega arith)
  handled (err e) h w n th = (record { ends = ((th e).ends_at w).ends }, (th e).later w)
  handled out_of_fuel h w n th = absurd (n refl)

  pub catch-IsTotal :
      (m : Exec A) (h : Exc → Exec A)
      → IsTotal m
      → ((e : Exc) → IsTotal (h e))
      → IsTotal (catch m h)
  unfolding catch lift
  catch-IsTotal m h tm th = record {
    ends_at = λ w. record { ends = (handled (m w).0 h (m w).1 ((tm.ends_at w).ends) th).0.ends };
    later = λ w. omega (arith, tm.later w, (handled (m w).0 h (m w).1 ((tm.ends_at w).ends) th).1);
  }

  only :
      (h : Exc → Exec A) (e : Exc) (b : Bool) (w : World E.State)
      → is_http_error e ≡ b
      → IsTotal (h e)
      → Ends (catch_http (raise e) h) w × (clock w ≤ clock (catch_http (raise e) h w).1)
  unfolding catch_http raise
  only h e true w q th = (record { ends = rw q ((th.ends_at w).ends) }, rw q (th.later w))
  only h e false w q th = (record { ends = rw q (λ p. cc) }, rw q (omega arith))

  handled_http :
      (r : Result A) (h : Exc → Exec A) (w : World E.State)
      → r ≢ out_of_fuel
      → ((e : Exc) → IsTotal (h e))
      → Ends (catch_http (lift r) h) w × (clock w ≤ clock (catch_http (lift r) h w).1)
  unfolding catch_http lift raise
  handled_http (ok a) h w n th = (record { ends = λ p. cc }, omega arith)
  handled_http (err e) h w n th =
      let p = only h e (is_http_error e) w refl (th e) in (record { ends = p.0.ends }, p.1)
  handled_http out_of_fuel h w n th = absurd (n refl)

  pub catch_http-IsTotal :
      (m : Exec A) (h : Exc → Exec A)
      → IsTotal m
      → ((e : Exc) → IsTotal (h e))
      → IsTotal (catch_http m h)
  unfolding catch_http lift
  catch_http-IsTotal m h tm th = record {
    ends_at =
        λ w. record { ends = (handled_http (m w).0 h (m w).1 ((tm.ends_at w).ends) th).0.ends };
    later =
        λ w. omega (arith, tm.later w, (handled_http (m w).0 h (m w).1 ((tm.ends_at w).ends) th).1);
  }

module _ ⦃E : Env⦄ {A B : Type 0} where
  bound-Ends :
      (r : Result A) (f : A → Exec B) (w : World E.State)
      → r ≢ out_of_fuel
      → ((a : A) → r ≡ ok a → Ends (f a) w)
      → Ends (lift r >>= f) w
  unfolding ◌>>=◌
  bound-Ends (ok a) f w n k = record { ends = (k a refl).ends }
  bound-Ends (err e) f w n k = record { ends = λ p. cc }
  bound-Ends out_of_fuel f w n k = absurd (n refl)

  -- The rest of the block starts no earlier than the block.
  pub bind-Ends :
      (m : Exec A) (f : A → Exec B) (w : World E.State)
      → IsTotal m
      → ((a : A) (w' : World E.State) → clock w ≤ clock w' → Ends (f a) w')
      → Ends (m >>= f) w
  unfolding ◌>>=◌
  bind-Ends m f w tm k = record {
    ends =
        (bound-Ends (m w).0 f (m w).1 ((tm.ends_at w).ends) (λ a _. k a (m w).1 (tm.later w))).ends;
  }

  pub bind-IsTotal :
      (m : Exec A) (f : A → Exec B) → IsTotal m → ((a : A) → IsTotal (f a)) → IsTotal (m >>= f)
  unfolding ◌>>=◌
  bind-IsTotal m f tm tf = record {
    ends_at = λ w. record { ends = (bind-Ends m f w tm (λ a w' _. (tf a).ends_at w')).ends };
    later = (bind-GoesOn m f (goes_on tm) (λ a. goes_on (tf a))).later;
  }

received-ne : (reply : Reply) → received reply ≢ out_of_fuel
received-ne (answered p) h = cc
received-ne (failed m) h = cc

module _ ⦃E : Env⦄ where
  pub get_sessions-IsTotal : IsTotal get_sessions
  unfolding get_sessions
  get_sessions-IsTotal = record {
    ends_at = λ w. record { ends = λ p. cc };
    later = λ w. omega arith;
  }

  pub put_sessions-IsTotal : (cache : Fields) → IsTotal (put_sessions cache)
  unfolding put_sessions
  put_sessions-IsTotal cache = record {
    ends_at = λ w. record { ends = λ p. cc };
    later = λ w. omega arith;
  }

  pub get_caches-IsTotal : IsTotal get_caches
  unfolding get_caches
  get_caches-IsTotal = record { ends_at = λ w. record { ends = λ p. cc }; later = λ w. omega arith }

  pub put_caches-IsTotal : (caches : Caches) → IsTotal (put_caches caches)
  unfolding put_caches
  put_caches-IsTotal caches = record {
    ends_at = λ w. record { ends = λ p. cc };
    later = λ w. omega arith;
  }

  pub now-IsTotal : IsTotal now
  unfolding now
  now-IsTotal = record { ends_at = λ w. record { ends = λ p. cc }; later = λ w. omega arith }

module _ ⦃E : Env⦄ (c : IsClock E) where
  pub send-IsTotal : (r : Request) → IsTotal (send r)
  unfolding send
  send-IsTotal r = record {
    ends_at = λ w. record { ends = received-ne (E.respond r w.remote).0 };
    later = λ w. c.respond_later r w.remote;
  }

  pub sleep-IsTotal : (n : ℕ) → IsTotal (sleep n)
  unfolding sleep
  sleep-IsTotal n = record {
    ends_at = λ w. record { ends = λ p. cc };
    later = λ w. omega (arith, c.suspend_later n w.remote);
  }

  -- After a sleep the rest of the block starts later by the time slept.
  pub sleep-Ends :
      {A : Type 0} (n : ℕ) (again : Exec A) (w : World E.State)
      → ((w' : World E.State) → clock w + n ≤ clock w' → Ends again w')
      → Ends (sleep n >>= λ _. again) w
  unfolding sleep ◌>>=◌
  sleep-Ends n again w k = record {
    ends = (k (record w { remote = E.suspend n w.remote }) (c.suspend_later n w.remote)).ends;
  }

module _ ⦃E : Env⦄ {A : Type 0} where
  pub if-Ends :
      (b : Bool) (m n : Exec A) (w : World E.State)
      → (b ≡ true → Ends m w)
      → (b ≡ false → Ends n w)
      → Ends (if b then m else n) w
  if-Ends true m n w hm hn = hm refl
  if-Ends false m n w hm hn = hn refl

  -- The first action of the block reads the clock.
  pub now-Ends : (f : ℕ → Exec A) (w : World E.State) → Ends (f (clock w)) w → Ends (now >>= f) w
  unfolding now ◌>>=◌
  now-Ends f w h = record { ends = h.ends }

pub ruleset total_rules = (
  pure-IsTotal, raise-IsTotal, lift-IsTotal, if-IsTotal, catch-IsTotal, catch_http-IsTotal,
  bind-IsTotal, get_sessions-IsTotal, put_sessions-IsTotal, get_caches-IsTotal, put_caches-IsTotal,
  now-IsTotal, send-IsTotal, sleep-IsTotal,
)
