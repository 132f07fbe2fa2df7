-- ===== src/TokenCache.antt =====
-- What the callers of a module's token cache rely on, as a step of an abstract machine whose state
-- is a map from keys to tokens.
use saltext_vmware.Base.{String, ◌==◌, ◌≡◌, refl, ◌≢◌, Option, none, some, List, ◌∷◌, if◌then◌else◌}
use saltext_vmware.Http.{Request, Exc, Result, ok, err, out_of_fuel}
use saltext_vmware.Dict.{Dict, find, put, find-put}
use saltext_vmware.Exec.{Env, World, Caches, Exec, pure, lift, ◌>>=◌, ◌>>◌, get_caches, put_caches}

abbrev pub View : Type 0 → Type 0
View V = String → Option V

-- A call for the token of `key` answers `r`, where `login` is the request that acquires a token and
-- `answer` what the call makes of a token.
pub data Serves {V A : Type 0} (answer : V → A) (login : Request) (key : String)
    (before after : View V) (sent sent' : List Request) (r : Result A) : Type 0 where
  held :
      (v : V)
      → r ≡ ok (answer v)
      → before key ≡ some v
      → ((j : String) → after j ≡ before j)
      → sent' ≡ sent
      → Serves answer login key before after sent sent' r
  acquired :
      (v : V)
      → r ≡ ok (answer v)
      → before key ≡ none
      → ((j : String) → after j ≡ (if key == j then some v else before j))
      → sent' ≡ login ∷ sent
      → Serves answer login key before after sent sent' r
  refused :
      (e : Exc)
      → r ≡ err e
      → before key ≡ none
      → ((j : String) → after j ≡ before j)
      → sent' ≡ login ∷ sent
      → Serves answer login key before after sent sent' r

-- `Acquires m login`: the action sends `login` and nothing else, and leaves the caches alone.
pub record Acquires ⦃E : Env⦄ {T : Type 0} (m : Exec T) (login : Request) : Type 0 where
  pub sent_by : (w : World E.State) → (m w).1.sent ≡ login ∷ w.sent
  pub kept_by : (w : World E.State) → (m w).1.caches ≡ w.caches
  pub done_by : (w : World E.State) → (m w).0 ≢ out_of_fuel

module _ ⦃E : Env⦄ {T V : Type 0} (read : Caches → Dict V) (write : Caches → Dict V → Caches)
    (read-write : (c : Caches) (d : Dict V) → read (write c d) ≡ d) (make : T → V) (key : String)
    (login : Request) (m : Exec T) where
  -- The token is asked for, and what is made of it is stored under the key.
  unfoldable pub remember : Exec V
  remember = do
    t ← m
    caches ← get_caches
    put_caches (write caches (put (read caches) key (make t)))
    pure (make t)

  stored-Serves :
      (r : Result T) (w w' : World E.State)
      → r ≢ out_of_fuel
      → w'.sent ≡ login ∷ w.sent
      → w'.caches ≡ w.caches
      → find (read w.caches) key ≡ none
      → let (answer, after) =
          (lift r >>= λ t. get_caches >>= λ caches.
          put_caches (write caches (put (read caches) key (make t))) >> pure (make t))
            w' in
        Serves
          (λ v. v)
          login
          key
          (find (read w.caches))
          (find (read after.caches))
          w.sent
          after.sent
          answer
  unfolding ◌>>=◌ get_caches put_caches pure
  stored-Serves (ok t) w w' done sent kept missing =
      acquired (make t) refl missing
        (λ j. rw (read-write, kept) (find-put (read w.caches) key j (make t))) sent
  stored-Serves (err e) w w' done sent kept missing = refused e refl missing (λ j. rw kept) sent
  stored-Serves out_of_fuel w w' done sent kept missing = absurd (done refl)

  pub remember-Serves :
      (w : World E.State)
      → Acquires m login
      → find (read w.caches) key ≡ none
      → Serves
          (λ v. v)
          login
          key
          (find (read w.caches))
          (find (read (remember w).1.caches))
          w.sent
          (remember w).1.sent
          (remember w).0
  unfolding remember ◌>>=◌ lift
  remember-Serves w a missing =
      stored-Serves (m w).0 w (m w).1 (a.done_by w) (a.sent_by w) (a.kept_by w) missing

module _ ⦃E : Env⦄ {V A : Type 0} (f : V → A) {key : String} {login : Request}
    {before after : View V} {sent sent' : List Request} where
  -- What is made of the answer afterwards sends nothing.
  pub Serves-bind :
      {r : Result V} (w : World E.State)
      → Serves (λ v. v) login key before after sent sent' r
      → Serves f login key before after sent sent' (((lift r) >>= λ v. pure (f v)) w).0
  unfolding ◌>>=◌ pure lift
  Serves-bind w (held v e h same quiet) = rw e (held v refl h same quiet)
  Serves-bind w (acquired v e h new one) = rw e (acquired v refl h new one)
  Serves-bind w (refused x e h same one) = rw e (refused x refl h same one)
