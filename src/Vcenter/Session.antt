-- ===== src/Vcenter/Session.antt =====
-- `get_session` and `invalidate_session` of utils/vcenter.py. `disable_warnings` only silences a
-- warning and is left out.
use saltext_vmware.Base.{String, ◌<>◌, ◌&&◌, Option, none, some, leb, ltb}
use saltext_vmware.Base.{if◌then◌else◌}
use saltext_vmware.Json.{Json, null, lookup, insert, remove}
use saltext_vmware.Http.{Request, Response, parsed, malformed, exc, http_error}
use saltext_vmware.Http.{value_error, Result, ok, err}
use saltext_vmware.Exec.{Env, Exec, pure, raise, lift, ◌>>=◌, ◌>>◌, send, get_sessions}
use saltext_vmware.Exec.{put_sessions, show}
use saltext_vmware.Vcenter.Config.{Config, get_config}

-- `requests.Session` with the headers that the program sets, and the host
pub record Session : Type 0 where
  pub token : Json
  pub verify : Json
  pub host : Json

-- `resp.json()`
unfoldable pub body_of : Response → Result Json
body_of resp = elim resp.json [ parsed v ↦ ok v | malformed m ↦ err (exc value_error m) ]

module _ ⦃E : Env⦄ where
  unfoldable pub cache_key : Config → String
  cache_key cfg = show cfg.host <> ":" <> show cfg.username

  -- `raise_for_status` of `requests`
  unfoldable pub require_success : Response → Exec Response
  require_success resp =
      if leb 400 resp.status_code && ltb resp.status_code 600
      then raise (record { kind = http_error; message = E.status_error resp; response = some resp })
      else pure resp

  unfoldable pub login_request : Config → Request
  login_request cfg = record {
    method = "POST";
    url = "https://" <> show cfg.host <> "/api/session";
    params = null;
    body = null;
    auth = some (cfg.username, cfg.password);
    token = null;
    verify = cfg.verify_ssl;
    timeout = cfg.timeout;
  }

  unfoldable pub login : Config → Exec Json
  login cfg = do
    resp ← send (login_request cfg)
    checked ← require_success resp
    token ← lift (body_of checked)
    cache ← get_sessions
    put_sessions (insert cache (cache_key cfg) token)
    pure token

  unfoldable pub cached_or_login : Config → Option Json → Exec Json
  cached_or_login cfg none = login cfg
  cached_or_login cfg (some token) = pure token

  unfoldable pub get_session : Json → Option String → Exec Session
  get_session opts profile = do
    cfg ← lift (get_config opts profile)
    cache ← get_sessions
    token ← cached_or_login cfg (lookup cache (cache_key cfg))
    pure (record { token = token; verify = cfg.verify_ssl; host = cfg.host })

  unfoldable pub invalidate_session : Json → Option String → Exec Unit
  invalidate_session opts profile = do
    cfg ← lift (get_config opts profile)
    cache ← get_sessions
    put_sessions (remove cache (cache_key cfg))
