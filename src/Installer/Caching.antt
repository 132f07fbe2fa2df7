-- ===== src/Installer/Caching.antt =====
-- The session cache of utils/installer.py implements the abstract one.
use saltext_vmware.Base.{String, ◌==◌, ◌≡◌, refl, Option, none, some, arith, if◌then◌else◌}
use saltext_vmware.Base.{◌<>◌}
use saltext_vmware.Json.{Json, str}
use saltext_vmware.Http.{Result, ok, err, out_of_fuel}
use saltext_vmware.Settings.{Connection}
use saltext_vmware.Dict.{find, find-drop}
use saltext_vmware.TokenCache.{Serves, held, Acquires, remember, remember-Serves, Serves-bind}
use saltext_vmware.Exec.{Env, World, Bearer, raise, ◌>>=◌, lift, pure, send, get_caches}
use saltext_vmware.Exec.{put_caches, show}
use saltext_vmware.Vcenter.Session.{Session, body_of, require_success}
use saltext_vmware.Installer.Config.{get_config}
use saltext_vmware.Installer.Session.{cache_key, login_request, login, open_session}
use saltext_vmware.Installer.Session.{cached_or_open, session, invalidate_session}

module _ ⦃E : Env⦄ where
  login-Acquires : (cfg : Connection) → Acquires (login cfg) (login_request cfg)
  unfolding login ◌>>=◌ send require_success body_of lift pure raise
  login-Acquires cfg = record {
    sent_by = λ w. ground arith;
    kept_by = λ w. ground arith;
    done_by = λ w p. ground arith;
  }

  cached_or_open-Serves :
      (cfg : Connection) (w : World E.State) (known : Option Bearer)
      → find w.caches.installer (cache_key cfg) ≡ known
      → let (r, w') = cached_or_open cfg known w in
        Serves
          (λ v. v)
          (login_request cfg)
          (cache_key cfg)
          (find w.caches.installer)
          (find w'.caches.installer)
          w.sent
          w'.sent
          r
  unfolding cached_or_open open_session remember pure
  cached_or_open-Serves cfg w (some known) h = held known refl h (λ j. refl) refl
  cached_or_open-Serves cfg w none h =
      remember-Serves (λ c. c.installer) (λ c d. record c { installer = d }) (λ c d. refl)
        (λ t. record { authorization = str ("Bearer " <> show t); verify = cfg.verify_ssl })
        (cache_key cfg) (login_request cfg) (login cfg) w (login-Acquires cfg) h

  -- The session that the calls use, of a cached one
  abbrev pub session_of : Connection → Bearer → Session
  session_of cfg known = record {
    token = known.authorization;
    verify = known.verify;
    host = cfg.host;
  }

  opened-Serves :
      (cfg : Connection) (w w' : World E.State) (r : Result Bearer)
      → Serves
          (λ v. v)
          (login_request cfg)
          (cache_key cfg)
          (find w.caches.installer)
          (find w'.caches.installer)
          w.sent
          w'.sent
          r
      → let (answer, after) = (lift r >>= λ known. pure (session_of cfg known)) w' in
        Serves
          (session_of cfg)
          (login_request cfg)
          (cache_key cfg)
          (find w.caches.installer)
          (find after.caches.installer)
          w.sent
          after.sent
          answer
  unfolding ◌>>=◌ pure
  opened-Serves cfg w w' (ok known) h = Serves-bind (session_of cfg) w' h
  opened-Serves cfg w w' (err e) h = Serves-bind (session_of cfg) w' h
  opened-Serves cfg w w' out_of_fuel h = Serves-bind (session_of cfg) w' h

  -- With a configuration that can be read, `_session` is a step of the abstract token cache, where
  -- the token is the session with its header.
  pub session-Serves :
      (opts : Json) (profile : Option String) (cfg : Connection) (w : World E.State)
      → get_config opts profile ≡ ok cfg
      → let (r, w') = session opts profile w in
        Serves
          (session_of cfg)
          (login_request cfg)
          (cache_key cfg)
          (find w.caches.installer)
          (find w'.caches.installer)
          w.sent
          w'.sent
          r
  unfolding session ◌>>=◌ get_caches lift
  session-Serves opts profile cfg w e =
      let known = find w.caches.installer (cache_key cfg) in
      let (r, w') = cached_or_open cfg known w in
      rw e (opened-Serves cfg w w' r (cached_or_open-Serves cfg w known refl))

  -- With a configuration that can be read, `invalidate_session` forgets the session of that
  -- configuration and no other, and sends nothing.
  pub invalidate_session_lem :
      (opts : Json) (profile : Option String) (cfg : Connection) (w : World E.State) (key : String)
      → get_config opts profile ≡ ok cfg
      → let (r, w') = invalidate_session opts profile w in
        (r ≡ ok tt)
        × (find w'.caches.installer key
            ≡ (if cache_key cfg == key then none else find w.caches.installer key))
        × (w'.sent ≡ w.sent)
  unfolding invalidate_session ◌>>=◌ get_caches put_caches lift
  invalidate_session_lem opts profile cfg w key e =
      rw e (refl, find-drop w.caches.installer (cache_key cfg) key, refl)
