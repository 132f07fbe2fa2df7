-- ===== src/Exec.antt =====
-- Python code that calls over the network and may raise: the state comes back beside the result,
-- and what was done before an exception stays done. `requests`, the remote machines, the clock and
-- Python's `repr` and `int` are the fields of an `Env`.
pub mod Keeps
pub mod Later
pub mod Total
pub mod Returns
pub mod Runs
pub mod Ensures
pub mod Costs
use saltext_vmware.Base.{ℕ, String, ◌≤◌, ◌+◌, Bool, true, false, Option, none, some, List, ◌∷◌}
use saltext_vmware.Json.{Json, Fields, bool, num, str}
use saltext_vmware.Dict.{Dict}
use saltext_vmware.Settings.{SshConfig}
use saltext_vmware.Http.{Request, Response, Reply, answered, failed, Exc, exc, connection_error}
use saltext_vmware.Http.{value_error, type_error}
use saltext_vmware.Http.{Result, ok, err, out_of_fuel, is_http_error}

-- What a command over ssh comes to: its exit status and its two outputs, no connection, or an
-- exception while it runs.
pub data SshReply : Type 0 where
  exited : ℕ → String → String → SshReply
  unreachable : String → SshReply
  interrupted : Exc → SshReply

pub record Env : Type 1 where
  pub State : Type 0
  pub respond : Request → State → Reply × State
  pub monotonic : State → ℕ
  pub suspend : ℕ → State → State
  pub run_command : SshConfig → String → State → SshReply × State
  pub repr : Json → String
  pub parse_int : String → Option ℕ
  pub dumps : Json → String
  pub loads : String → Option Json
  pub status_error : Response → String

-- What the documentation of `time` promises: the clock never goes back, and `sleep` suspends for at
-- least the time that it is given. The clock counts in the unit of the timeouts.
pub record IsClock (E : Env) : Type 0 where
  pub respond_later : (r : Request) (s : E.State) → E.monotonic s ≤ E.monotonic (E.respond r s).1
  pub suspend_later : (n : ℕ) (s : E.State) → E.monotonic s + n ≤ E.monotonic (E.suspend n s)

-- A `requests.Session` that authenticates by the header `Authorization`
pub record Bearer : Type 0 where
  pub authorization : Json
  pub verify : Json

-- A token and the time it is to be renewed at, in fifths of the clock's unit
pub record Lease : Type 0 where
  pub token : Json
  pub expires_at : ℕ
  pub provider : Json

-- The module-level caches of utils/sddc.py, utils/installer.py and utils/vrli.py
pub record Caches : Type 0 where
  pub sddc : Dict Json
  pub installer : Dict Bearer
  pub vrli : Dict Lease

-- `sessions` is the module-level `_SESSION_CACHE` of utils/vcenter.py. `sent` is the history of requests, the newest
-- first: the program does not read it, and the theorems do.
pub record World (S : Type 0) : Type 0 where
  pub remote : S
  pub sessions : Fields
  pub caches : Caches
  pub sent : List Request
  pub ran : List String

module _ ⦃E : Env⦄ where
  abbrev pub Exec : Type 0 → Type 0
  Exec A = World E.State → Result A × World E.State

module _ ⦃E : Env⦄ {A : Type 0} where
  unfoldable pub pure : A → Exec A
  pure a w = (ok a, w)

  unfoldable pub raise : Exc → Exec A
  raise e w = (err e, w)

  unfoldable pub lift : Result A → Exec A
  lift r w = (r, w)

  unfoldable pub spent : Exec A
  spent w = (out_of_fuel, w)

  abbrev handle : Result A → (Exc → Exec A) → Exec A
  handle (ok a) h w = (ok a, w)
  handle (err e) h w = h e w
  handle out_of_fuel h w = (out_of_fuel, w)

  -- `try: m except Exception as e: h(e)`
  unfoldable pub catch : Exec A → (Exc → Exec A) → Exec A
  catch m h w = let (r, w') = m w in handle r h w'

  abbrev only_http : Bool → (Exc → Exec A) → Exc → Exec A
  only_http true h e w = h e w
  only_http false h e w = (err e, w)

  -- `try: m except requests.HTTPError as e: h(e)`
  unfoldable pub catch_http : Exec A → (Exc → Exec A) → Exec A
  unfolding catch
  catch_http m h = catch m (λ e. only_http (is_http_error e) h e)

module _ ⦃E : Env⦄ {A B : Type 0} where
  abbrev continue : Result A → (A → Exec B) → Exec B
  continue (ok a) f w = f a w
  continue (err e) f w = (err e, w)
  continue out_of_fuel f w = (out_of_fuel, w)

  infixl 5 ◌>>=◌ ◌>>◌
  unfoldable pub ◌>>=◌ : Exec A → (A → Exec B) → Exec B
  unfolding pure raise lift spent
  ◌>>=◌ m f w = let (r, w') = m w in continue r f w'

  abbrev pub ◌>>◌ : Exec A → Exec B → Exec B
  m >> n = m >>= λ _. n

abbrev pub received : Reply → Result Response
received (answered p) = ok p
received (failed m) = err (exc connection_error m)

module _ ⦃E : Env⦄ where
  unfoldable pub send : Request → Exec Response
  send r w =
      let (reply, s) = E.respond r w.remote in
      (received reply, record w { remote = s; sent = r ∷ w.sent })

  -- `time.monotonic()` and `time.sleep(n)`
  unfoldable pub now : Exec ℕ
  now w = (ok (E.monotonic w.remote), w)

  unfoldable pub sleep : ℕ → Exec Unit
  sleep n w = (ok tt, record w { remote = E.suspend n w.remote })

  unfoldable pub get_sessions : Exec (Fields)
  get_sessions w = (ok w.sessions, w)

  unfoldable pub put_sessions : Fields → Exec Unit
  put_sessions cache w = (ok tt, record w { sessions = cache })

  unfoldable pub get_caches : Exec Caches
  get_caches w = (ok w.caches, w)

  unfoldable pub put_caches : Caches → Exec Unit
  put_caches caches w = (ok tt, record w { caches = caches })

  -- `str(v)`, which is `repr(v)` of a value that is no text
  abbrev pub show : Json → String
  show (str s) = s
  show v = E.repr v

  -- `int(v)`; of a text, the integer that it writes
  unfoldable pub to_int : Json → Result ℕ
  to_int (num n) = ok n
  to_int (bool true) = ok 1
  to_int (bool false) = ok 0
  to_int (str s) = elim (E.parse_int s) [
    | none ↦ err (exc value_error "invalid literal for int()")
    | some n ↦ ok n
  ]
  to_int v = err (exc type_error "int() argument must be a string or a real number")
