-- ===== src/Vcenter/Caching.antt =====
-- The cache of session tokens.
use text.Mathlib.TextPositions.{eq_refl}
use saltext_vmware.Base.{String, ◌==◌, ◌≡◌, refl, Option, none, some, ◌∷◌}
use saltext_vmware.Base.{arith, if◌then◌else◌}
use saltext_vmware.Json.{Json, lookup}
use saltext_vmware.Json.Laws.{lookup-insert, lookup-remove}
use saltext_vmware.Http.{Exc, ok, err}
use saltext_vmware.Exec.{Env, World, ◌>>=◌, send, get_sessions, put_sessions}
use saltext_vmware.Exec.Runs.{lift-bind-eq-ok}
use saltext_vmware.Vcenter.Config.{Config, get_config}
use saltext_vmware.Vcenter.Session.{Session, cache_key, login_request, login, cached_or_login}
use saltext_vmware.Vcenter.Session.{require_success, get_session, invalidate_session}

module _ ⦃E : Env⦄ where
  login-caches :
      (cfg : Config) (w : World E.State) (token : Json)
      → (login cfg w).0 ≡ ok token
      → lookup (login cfg w).1.sessions (cache_key cfg) ≡ some token
  unfolding login ◌>>=◌ send get_sessions put_sessions require_success
  login-caches cfg w token h = ground (
    arith,
    lookup-insert w.sessions (cache_key cfg) (cache_key cfg) token,
    eq_refl (cache_key cfg),
  )

  again_with :
      (opts : Json) (profile : Option String) (w w' : World E.State) (s : Session) (cfg : Config)
      → get_config opts profile ≡ ok cfg
      → get_session opts profile w ≡ (ok s, w')
      → get_session opts profile w' ≡ (ok s, w')
  unfolding get_session ◌>>=◌ get_sessions cached_or_login
  again_with opts profile w w' s cfg e h = ground (arith, login-caches cfg w s.token)

  -- After a call of `get_session` that returns, the same call returns the same session at once: it
  -- sends nothing and leaves the state alone.
  pub get_session_again :
      (opts : Json) (profile : Option String) (w w' : World E.State) (s : Session)
      → get_session opts profile w ≡ (ok s, w')
      → get_session opts profile w' ≡ (ok s, w')
  unfolding get_session
  get_session_again opts profile w w' s h =
      let (cfg, e, _) = lift-bind-eq-ok (get_config opts profile) _ h in
      again_with opts profile w w' s cfg e h

  -- With a configuration that can be read, `invalidate_session` drops the token of that
  -- configuration and no other, and sends nothing.
  pub invalidate_session_lem :
      (opts : Json) (profile : Option String) (cfg : Config) (w : World E.State) (key : String)
      → get_config opts profile ≡ ok cfg
      → let w' = (invalidate_session opts profile w).1 in
        (lookup w'.sessions key ≡ (if cache_key cfg == key then none else lookup w.sessions key))
        × (w'.sent ≡ w.sent)
        × (w'.remote ≡ w.remote)
  unfolding invalidate_session ◌>>=◌ get_sessions put_sessions
  invalidate_session_lem opts profile cfg w key e =
      rw e (lookup-remove w.sessions (cache_key cfg) key, refl, refl)

  -- With a configuration that can be read, the next `get_session` after `invalidate_session` logs
  -- in again: its one request is the login.
  pub get_session-invalidate_session :
      (opts : Json) (profile : Option String) (cfg : Config) (w : World E.State)
      → get_config opts profile ≡ ok cfg
      → (get_session opts profile (invalidate_session opts profile w).1).1.sent
        ≡ login_request cfg ∷ w.sent
  unfolding get_session invalidate_session ◌>>=◌ get_sessions put_sessions cached_or_login login
      send require_success
  get_session-invalidate_session opts profile cfg w e = rw e (
      ground
        (arith, lookup-remove w.sessions (cache_key cfg) (cache_key cfg), eq_refl (cache_key cfg)))

  -- A `get_session` that raises leaves the cache as it was.
  pub get_session_err :
      (opts : Json) (profile : Option String) (w : World E.State) (e : Exc)
      → (get_session opts profile w).0 ≡ err e
      → (get_session opts profile w).1.sessions ≡ w.sessions
  unfolding get_session ◌>>=◌ get_sessions put_sessions cached_or_login login send require_success
  get_session_err opts profile w e h = ground arith
