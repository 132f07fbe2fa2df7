-- ===== src/Exec/Runs.antt =====
-- How a block runs from a given world, from the runs of its parts, and back.
use saltext_vmware.Base.{◌≡◌, refl, ap, true, false, ◌⊎◌, inl, inr}
use saltext_vmware.Http.{Exc, Result, ok, err, out_of_fuel, is_http_error}
use saltext_vmware.Exec.{Env, World, Exec, lift, catch, catch_http, ◌>>=◌}

module _ ⦃E : Env⦄ {A B : Type 0} (m : Exec A) (f : A → Exec B) {w w' : World E.State} where
  pub bind-ok : {a : A} → m w ≡ (ok a, w') → (m >>= f) w ≡ f a w'
  unfolding ◌>>=◌
  bind-ok h = rw h

  pub bind-err : {e : Exc} → m w ≡ (err e, w') → (m >>= f) w ≡ (err e, w')
  unfolding ◌>>=◌
  bind-err h = rw h

module _ ⦃E : Env⦄ {A : Type 0} where
  pub paired : (m : Exec A) (w : World E.State) {a : A} → (m w).0 ≡ ok a → m w ≡ (ok a, (m w).1)
  paired m w h = ap (λ r. (r, (m w).1)) h

module _ ⦃E : Env⦄ {A B : Type 0} where
  continued :
      (r : Result A) (f : A → Exec B) {w v : World E.State} {b : B}
      → (lift r >>= f) w ≡ (ok b, v)
      → (a : A) × (r ≡ ok a) × (f a w ≡ (ok b, v))
  unfolding ◌>>=◌
  continued (ok a) f h = (a, refl, h)
  continued (err e) f h = cc
  continued out_of_fuel f h = cc

  -- A block that returns ran its first action, and then the rest.
  pub bind-eq-ok :
      (m : Exec A) (f : A → Exec B) {w v : World E.State} {b : B}
      → (m >>= f) w ≡ (ok b, v)
      → (a : A) × (m w ≡ (ok a, (m w).1)) × (f a (m w).1 ≡ (ok b, v))
  unfolding ◌>>=◌
  bind-eq-ok m f {w} h = let (a, p, q) = continued (m w).0 f {w = (m w).1} h in (a, cc, q)

  pub lift-bind-eq-ok :
      (r : Result A) (f : A → Exec B) {w v : World E.State} {b : B}
      → (lift r >>= f) w ≡ (ok b, v)
      → (a : A) × (r ≡ ok a) × (f a w ≡ (ok b, v))
  lift-bind-eq-ok = continued

  raised :
      (r : Result A) (f : A → Exec B) (w : World E.State) (x : Exc)
      → ((lift r >>= f) w).0 ≡ err x
      → (r ≡ err x) ⊎ ((a : A) × (r ≡ ok a) × ((f a w).0 ≡ err x))
  unfolding ◌>>=◌
  raised (ok a) f w x h = inr (a, refl, h)
  raised (err e) f w x h = let same : e ≡ x = cc in inl (ap err same)
  raised out_of_fuel f w x h = cc

  -- A block that raises ends in its first action, or after it.
  pub bind-eq-err :
      (m : Exec A) (f : A → Exec B) (w : World E.State) (x : Exc)
      → ((m >>= f) w).0 ≡ err x
      → ((m w).0 ≡ err x) ⊎ ((a : A) × ((m w).0 ≡ ok a) × ((f a (m w).1).0 ≡ err x))
  unfolding ◌>>=◌
  bind-eq-err m f w x h = raised (m w).0 f (m w).1 x h

  pub lift-bind :
      (r : Result A) (f : A → Exec B) {w : World E.State} {a : A}
      → r ≡ ok a
      → (lift r >>= f) w ≡ f a w
  unfolding ◌>>=◌
  lift-bind r f h = rw h

module _ ⦃E : Env⦄ {A : Type 0} (m : Exec A) (h : Exc → Exec A) {w w' : World E.State} where
  pub catch-ok : {a : A} → m w ≡ (ok a, w') → catch m h w ≡ (ok a, w')
  unfolding catch
  catch-ok p = rw p

  pub catch-err : {e : Exc} → m w ≡ (err e, w') → catch m h w ≡ h e w'
  unfolding catch
  catch-err p = rw p

  pub catch_http-ok : {a : A} → m w ≡ (ok a, w') → catch_http m h w ≡ (ok a, w')
  unfolding catch_http
  catch_http-ok p = rw p

  pub catch_http-err :
      {e : Exc} → m w ≡ (err e, w') → is_http_error e ≡ true → catch_http m h w ≡ h e w'
  unfolding catch_http
  catch_http-err p q = rw p (rw q)

  pub catch_http-other :
      {e : Exc} → m w ≡ (err e, w') → is_http_error e ≡ false → catch_http m h w ≡ (err e, w')
  unfolding catch_http
  catch_http-other p q = rw p (rw q)
