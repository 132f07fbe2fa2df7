-- ===== src/Installer/Session.antt =====
-- `_login`, `_session` and `invalidate_session` of utils/installer.py. `disable_warnings` is left
-- out.
use saltext_vmware.Base.{String, ◌<>◌, Option, none, some}
use saltext_vmware.Json.{Json, null, num, str, obj, field, end}
use saltext_vmware.Http.{Request, item}
use saltext_vmware.Settings.{Connection}
use saltext_vmware.Dict.{find, put, drop}
use saltext_vmware.Exec.{
  Env, Bearer, Exec, pure, lift, ◌>>=◌, ◌>>◌, send, get_caches, put_caches, show,
}
use saltext_vmware.Vcenter.Session.{Session, body_of, require_success}
use saltext_vmware.Installer.Config.{get_config}

module _ ⦃E : Env⦄ where
  unfoldable pub cache_key : Connection → String
  cache_key cfg = show cfg.host <> ":" <> show cfg.username

  unfoldable pub login_request : Connection → Request
  login_request cfg = record {
    method = "POST";
    url = "https://" <> show cfg.host <> "/v1/tokens";
    params = null;
    body = obj (field "username" cfg.username (field "password" cfg.password end));
    auth = none;
    token = null;
    verify = cfg.verify_ssl;
    timeout = num 30;
  }

  unfoldable pub login : Connection → Exec Json
  login cfg = do
    resp ← send (login_request cfg)
    checked ← require_success resp
    body ← lift (body_of checked)
    lift (item body "accessToken")

  unfoldable pub open_session : Connection → Exec Bearer
  open_session cfg = do
    token ← login cfg
    let opened : Bearer = record {
      authorization = str ("Bearer " <> show token);
      verify = cfg.verify_ssl;
    } in
        do
          caches ← get_caches
          put_caches (record caches { installer = put caches.installer (cache_key cfg) opened })
          pure opened

  unfoldable pub cached_or_open : Connection → Option Bearer → Exec Bearer
  cached_or_open cfg none = open_session cfg
  cached_or_open cfg (some known) = pure known

  unfoldable pub session : Json → Option String → Exec Session
  session opts profile = do
    cfg ← lift (get_config opts profile)
    caches ← get_caches
    known ← cached_or_open cfg (find caches.installer (cache_key cfg))
    pure (record { token = known.authorization; verify = known.verify; host = cfg.host })

  unfoldable pub invalidate_session : Json → Option String → Exec Unit
  invalidate_session opts profile = do
    cfg ← lift (get_config opts profile)
    caches ← get_caches
    put_caches (record caches { installer = drop caches.installer (cache_key cfg) })
