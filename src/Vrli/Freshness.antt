-- ===== src/Vrli/Freshness.antt =====
-- The token that `get_token` of utils/vrli.py returns is of a lease that is good.
use mathlib.Core.Path.{subst}
use saltext_vmware.Base.{
  ℕ, ◌+◌, String, ◌≡◌, refl, ◌∙◌, sym, ap, ◌⊎◌, inl, inr, ◌<◌, ◌*◌, Bool, true, false,
}
use saltext_vmware.Base.{Option, none, some, ◌∷◌, not, arith, ltb, if◌then◌else◌}
use saltext_vmware.Json.{Json, null, num, truthy, empty, ◌or◌}
use saltext_vmware.Http.{Exc, Response, ok, get}
use saltext_vmware.Dict.{find, put, find-put_self}
use saltext_vmware.Exec.{Env, World, Exec, Lease, pure, raise, lift, ◌>>=◌, send, now}
use saltext_vmware.Exec.{get_caches, put_caches, to_int}
use saltext_vmware.Exec.Later.{clock}
use saltext_vmware.Exec.Runs.{bind-eq-ok, lift-bind, lift-bind-eq-ok}
use saltext_vmware.Vcenter.Session.{body_of, require_success}
use saltext_vmware.Vrli.Config.{Config, get_config, cache_key}
use saltext_vmware.Vrli.Session.{
  sessions_request, expiry, lease_of, acquire_token, renew, cached_or_renew, token_for, get_token,
}

module _ ⦃E : Env⦄ where
  -- A lease of the answer to the request that was sent from the world `w`: its token is the session
  -- of the answer, and it is to be renewed after four fifths of the time to live that the answer
  -- names, of 1800 where it names none.
  abbrev pub IsNew : Config → Lease → World E.State → World E.State → Type 0
  IsNew cfg lease w w' =
      (resp : Response) × (answer : Json) × (given : Json) × (ttl : ℕ) × ((send
          (sessions_request cfg) w).0
        ≡ ok resp)
      × (body_of resp ≡ ok answer)
      × (get (answer or empty) "sessionId" null ≡ ok lease.token)
      × (get (answer or empty) "ttl" (num 1800) ≡ ok given)
      × (to_int given ≡ ok ttl)
      × (lease.expires_at ≡ 5 * clock w' + 4 * ttl)

  lease_of-eq :
      (cfg : Config) (body session_id : Json) (w w' : World E.State) (lease : Lease)
      → lease_of cfg body session_id w ≡ (ok lease, w')
      → (given : Json) × (ttl : ℕ) × (get body "ttl" (num 1800) ≡ ok given)
        × (to_int given ≡ ok ttl)
        × (session_id ≡ lease.token)
        × (lease.expires_at ≡ 5 * clock w' + 4 * ttl)
  unfolding lease_of ◌>>=◌ now pure
  lease_of-eq cfg body session_id w w' lease e =
      let (given, g, rest) = lift-bind-eq-ok (get body "ttl" (num 1800)) _ e in
      let (ttl, i, taken) = lift-bind-eq-ok (to_int given) _ rest in
      let (same, lasts) = timed ttl taken in (given, ttl, g, i, same, lasts)
    where
      timed :
          (ttl : ℕ)
          → (now >>= λ t.
                pure (record {
                  token = session_id;
                  expires_at = expiry t ttl;
                  provider = cfg.provider;
                }))
              w
            ≡ (ok lease, w')
          → (session_id ≡ lease.token) × (lease.expires_at ≡ 5 * clock w' + 4 * ttl)
      timed ttl h =
          let made : Lease = record {
            token = session_id;
            expires_at = expiry (clock w) ttl;
            provider = cfg.provider;
          } in
          let same : made ≡ lease = cc in
          let there : w ≡ w' = cc in
          (
            ap (λ l. l.token) same,
            sym (ap (λ l. l.expires_at) same) ∙ ap (λ v. expiry (clock v) ttl) there,
          )

  success :
      (b : Bool) (e : Exc) (resp checked : Response) (w w' : World E.State)
      → (if b then raise e else pure resp) w ≡ (ok checked, w')
      → resp ≡ checked
  unfolding raise pure
  success true e resp checked w w' h = cc
  success false e resp checked w w' h = cc

  named_session :
      (b : Bool) (e : Exc) (m : Exec Lease) {w w' : World E.State} {lease : Lease}
      → (if b then raise e else m) w ≡ (ok lease, w')
      → m w ≡ (ok lease, w')
  unfolding raise
  named_session true e m h = cc
  named_session false e m h = h

  acquire_token-IsNew :
      (cfg : Config) (w w' : World E.State) (lease : Lease)
      → acquire_token cfg w ≡ (ok lease, w')
      → IsNew cfg lease w w'
  unfolding acquire_token require_success
  acquire_token-IsNew cfg w w' lease e =
      let (resp, sent, e1) = bind-eq-ok (send (sessions_request cfg)) _ e in
      let (checked, passed, e2) = bind-eq-ok (require_success resp) _ e1 in
      let (answer, b, e3) = lift-bind-eq-ok (body_of checked) _ e2 in
      let (session_id, s, e4) = lift-bind-eq-ok (get (answer or empty) "sessionId" null) _ e3 in
      let taken = named_session (not (truthy session_id)) _ _ e4 in
      let (given, ttl, g, i, same, lasts) = lease_of-eq cfg _ session_id _ w' lease taken in
      let whole : resp ≡ checked = success _ _ resp checked _ _ passed in
      (
        resp,
        answer,
        given,
        ttl,
        ap (λ r. r.0) sent,
        ap body_of whole ∙ b,
        s ∙ ap ok same,
        g,
        i,
        lasts,
      )

  acquire_token-sent :
      (cfg : Config) (w : World E.State)
      → ((acquire_token cfg w).1.sent ≡ sessions_request cfg ∷ w.sent)
        × ((acquire_token cfg w).1.caches ≡ w.caches)
  unfolding acquire_token lease_of ◌>>=◌ send require_success body_of lift pure raise now
  acquire_token-sent cfg w = ground arith

  -- The token is of a lease that the cache holds after the call: one that it held before and that is
  -- good, without a request; or one that the one request has just taken out.
  abbrev pub IsGood : Config → Json → World E.State → World E.State → Type 0
  IsGood cfg token w w' =
      (lease : Lease) × (token ≡ lease.token)
      × (find w'.caches.vrli (cache_key cfg) ≡ some lease)
      × (((w' ≡ w) × (5 * clock w < lease.expires_at))
          ⊎ ((w'.sent ≡ sessions_request cfg ∷ w.sent) × IsNew cfg lease w w'))

  renew-IsGood :
      (cfg : Config) (w w' : World E.State) (token : Json)
      → renew cfg w ≡ (ok token, w')
      → IsGood cfg token w w'
  unfolding renew ◌>>=◌ get_caches put_caches pure
  renew-IsGood cfg w w' token e =
      let (lease, taken, rest) = bind-eq-ok (acquire_token cfg) _ e in
      let after = (acquire_token cfg w).1 in
      let stored = put after.caches.vrli (cache_key cfg) lease in
      let end : World E.State = record after { caches = record after.caches { vrli = stored } } in
      let here : Json × World E.State = (lease.token, end) in
      let there : Json × World E.State = (token, w') in
      let both : here ≡ there = cc in
      let kept : IsGood cfg lease.token w end = (
        lease,
        refl,
        find-put_self after.caches.vrli (cache_key cfg) lease,
        inr ((acquire_token-sent cfg w).0, acquire_token-IsNew cfg w after lease taken),
      ) in
      subst (λ p. IsGood cfg p.0 w p.1) both kept

  cached_or_renew-IsGood :
      (cfg : Config) (known : Option Lease) (w w' : World E.State) (token : Json)
      → find w.caches.vrli (cache_key cfg) ≡ known
      → cached_or_renew cfg known w ≡ (ok token, w')
      → IsGood cfg token w w'
  unfolding cached_or_renew ◌>>=◌ now pure
  cached_or_renew-IsGood cfg none w w' token h e = renew-IsGood cfg w w' token e
  cached_or_renew-IsGood cfg (some lease) w w' token h e =
      good (ltb (5 * clock w) lease.expires_at) refl e
    where
      good :
          (b : Bool)
          → ltb (5 * clock w) lease.expires_at ≡ b
          → (if b then pure lease.token else renew cfg) w ≡ (ok token, w')
          → IsGood cfg token w w'
      good false q e' = renew-IsGood cfg w w' token e'
      good true q e' =
          let same : w' ≡ w = cc in
          let tok : token ≡ lease.token = cc in (lease, tok, rw same h, inl (same, ground arith))

  token_for-IsGood :
      (cfg : Config) (w w' : World E.State) (token : Json)
      → token_for cfg w ≡ (ok token, w')
      → IsGood cfg token w w'
  unfolding token_for ◌>>=◌ get_caches raise
  token_for-IsGood cfg w w' token e = named _ (not (truthy cfg.host)) e
    where
      named :
          (unnamed : Exc) (b : Bool)
          → (if b
                then raise unnamed
                else (λ v. cached_or_renew cfg (find v.caches.vrli (cache_key cfg)) v))
              w
            ≡ (ok token, w')
          → IsGood cfg token w w'
      named unnamed true e' = cc
      named unnamed false e' = cached_or_renew-IsGood cfg _ w w' token refl e'

  -- With a configuration that can be read, a token that `get_token` returns is of a lease that the
  -- cache holds after the call, and that is good: its time to be renewed was still to come when the
  -- call began, and nothing was sent; or it is the session of the answer to the one request of the
  -- call, to be renewed after four fifths of the time to live that the answer names, of 1800 where
  -- it names none.
  pub get_token-IsGood :
      (opts : Json) (profile : Option String) (cfg : Config) (w w' : World E.State) (token : Json)
      → get_config opts profile ≡ ok cfg
      → get_token opts profile w ≡ (ok token, w')
      → IsGood cfg token w w'
  unfolding get_token
  get_token-IsGood opts profile cfg w w' token c e =
      token_for-IsGood cfg w w' token (sym (lift-bind (get_config opts profile) _ c) ∙ e)
