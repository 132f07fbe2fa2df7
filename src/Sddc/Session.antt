-- ===== src/Sddc/Session.antt =====
-- `get_token`, `invalidate_token` and `_session` of utils/sddc.py. `disable_warnings` is left out.
use saltext_vmware.Base.{String, ◌<>◌, Option, none, some}
use saltext_vmware.Json.{Json, null, num, str, obj, field, end}
use saltext_vmware.Http.{Request, item}
use saltext_vmware.Settings.{Connection}
use saltext_vmware.Dict.{find, put, drop}
use saltext_vmware.Exec.{Env, Exec, pure, lift, ◌>>=◌, ◌>>◌, send, get_caches, put_caches, show}
use saltext_vmware.Vcenter.Session.{Session, body_of, require_success}
use saltext_vmware.Sddc.Config.{get_config}

module _ ⦃E : Env⦄ where
  unfoldable pub cache_key : Connection → String
  cache_key cfg = show cfg.host <> ":" <> show cfg.username

  unfoldable pub bearer : Json → Json
  bearer token = str ("Bearer " <> show token)

  unfoldable pub token_request : Connection → Request
  token_request cfg = record {
    method = "POST";
    url = "https://" <> show cfg.host <> "/v1/tokens";
    params = null;
    body = obj (field "username" cfg.username (field "password" cfg.password end));
    auth = none;
    token = null;
    verify = cfg.verify_ssl;
    timeout = num 30;
  }

  unfoldable pub request_token : Connection → Exec Json
  request_token cfg = do
    resp ← send (token_request cfg)
    checked ← require_success resp
    body ← lift (body_of checked)
    lift (item body "accessToken")

  unfoldable pub acquire : Connection → Exec Json
  acquire cfg = do
    token ← request_token cfg
    caches ← get_caches
    put_caches (record caches { sddc = put caches.sddc (cache_key cfg) token })
    pure token

  unfoldable pub cached_or_acquire : Connection → Option Json → Exec Json
  cached_or_acquire cfg none = acquire cfg
  cached_or_acquire cfg (some token) = pure token

  unfoldable pub get_token : Json → Option String → Exec Json
  get_token opts profile = do
    cfg ← lift (get_config opts profile)
    caches ← get_caches
    cached_or_acquire cfg (find caches.sddc (cache_key cfg))

  unfoldable pub invalidate_token : Json → Option String → Exec Unit
  invalidate_token opts profile = do
    cfg ← lift (get_config opts profile)
    caches ← get_caches
    put_caches (record caches { sddc = drop caches.sddc (cache_key cfg) })

  unfoldable pub session : Json → Option String → Exec Session
  session opts profile = do
    cfg ← lift (get_config opts profile)
    token ← get_token opts profile
    pure (record { token = bearer token; verify = cfg.verify_ssl; host = cfg.host })
