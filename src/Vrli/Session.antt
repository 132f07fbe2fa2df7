-- ===== src/Vrli/Session.antt =====
-- `_acquire_token`, `get_token`, `invalidate_token` and `_session` of utils/vrli.py.
-- `disable_warnings` is left out.
use saltext_vmware.Base.{ℕ, String, ◌<>◌, ◌+◌, ◌*◌, not, Option, none, some, ltb, if◌then◌else◌}
use saltext_vmware.Json.{Json, null, num, str, obj, field, end, empty, ◌or◌, truthy}
use saltext_vmware.Http.{Request, exc, runtime_error, get}
use saltext_vmware.Dict.{find, put, drop}
use saltext_vmware.Exec.{Env, Lease, Bearer, Exec, pure, raise, lift, ◌>>=◌, ◌>>◌, send, now}
use saltext_vmware.Exec.{get_caches, put_caches, show, to_int}
use saltext_vmware.Vcenter.Session.{body_of, require_success}
use saltext_vmware.Vrli.Config.{Config, get_config, base_url, cache_key}

-- A session with its configuration
pub record Connected : Type 0 where
  pub bearer : Bearer
  pub config : Config

module _ ⦃E : Env⦄ where
  unfoldable pub sessions_request : Config → Request
  sessions_request cfg = record {
    method = "POST";
    url = base_url cfg <> "/api/v2/sessions";
    params = null;
    body = obj (
        field "provider" cfg.provider
          (field "username" cfg.username (field "password" cfg.password end)));
    auth = none;
    token = null;
    verify = cfg.verify_ssl;
    timeout = cfg.timeout;
  }

  -- `_now() + ttl * 0.80`, in fifths
  abbrev pub expiry : ℕ → ℕ → ℕ
  expiry t ttl = 5 * t + 4 * ttl

  unfoldable pub lease_of : Config → Json → Json → Exec Lease
  lease_of cfg body session_id = do
    given ← lift (get body "ttl" (num 1800))
    ttl ← lift (to_int given)
    t ← now
    pure (record { token = session_id; expires_at = expiry t ttl; provider = cfg.provider })

  unfoldable pub acquire_token : Config → Exec Lease
  acquire_token cfg = do
    resp ← send (sessions_request cfg)
    checked ← require_success resp
    answer ← lift (body_of checked)
    session_id ← lift (get (answer or empty) "sessionId" null)
    if not (truthy session_id)
        then raise (
            exc runtime_error
              ("vRLI POST /api/v2/sessions did not return sessionId: " <> E.repr (answer or empty)))
        else lease_of cfg (answer or empty) session_id

  unfoldable pub renew : Config → Exec Json
  renew cfg = do
    lease ← acquire_token cfg
    caches ← get_caches
    put_caches (record caches { vrli = put caches.vrli (cache_key cfg) lease })
    pure lease.token

  -- A lease of the cache is good while `expires_at` is ahead of the clock.
  unfoldable pub cached_or_renew : Config → Option Lease → Exec Json
  cached_or_renew cfg none = renew cfg
  cached_or_renew cfg (some lease) = do
    t ← now
    if ltb (5 * t) lease.expires_at then pure lease.token else renew cfg

  unfoldable pub token_for : Config → Exec Json
  token_for cfg =
      if not (truthy cfg.host)
      then raise
          (exc runtime_error "saltext.vcf.vrli.host is not configured; cannot reach vRLI master")
      else (do caches ← get_caches; cached_or_renew cfg (find caches.vrli (cache_key cfg)))

  unfoldable pub get_token : Json → Option String → Exec Json
  get_token opts profile = do cfg ← lift (get_config opts profile); token_for cfg

  unfoldable pub invalidate_token : Json → Option String → Exec Unit
  invalidate_token opts profile = do
    cfg ← lift (get_config opts profile)
    caches ← get_caches
    put_caches (record caches { vrli = drop caches.vrli (cache_key cfg) })

  unfoldable pub session : Json → Option String → Exec Connected
  session opts profile = do
    cfg ← lift (get_config opts profile)
    token ← get_token opts profile
    pure (record {
      bearer = record { authorization = str ("Bearer " <> show token); verify = cfg.verify_ssl };
      config = cfg;
    })
