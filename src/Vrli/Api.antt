-- ===== src/Vrli/Api.antt =====
-- `_looks_like_session_expired`, `_request` and `api_get` to `api_delete` of utils/vrli.py.
use saltext_vmware.Base.{String, ◌<>◌, Bool, false, ◌&&◌, ◌||◌, Option, none, eqb, lower, contains}
use saltext_vmware.Base.{if◌then◌else◌}
use saltext_vmware.Json.{Json, null, str, obj, get_or, empty, ◌or◌}
use saltext_vmware.Http.{Request, Response, Parsed, parsed}
use saltext_vmware.Exec.{Env, Bearer, Exec, pure, ◌>>=◌, ◌>>◌, send, show}
use saltext_vmware.Vcenter.Session.{require_success}
use saltext_vmware.Vcenter.Api.{content_or_empty}
use saltext_vmware.Vrli.Config.{Config, base_url}
use saltext_vmware.Vrli.Session.{session, invalidate_token}

module _ ⦃E : Env⦄ where
  unfoldable pub says_expired : String → Bool
  says_expired msg =
      contains "session expired" (lower msg) || contains "session has expired" (lower msg)

  unfoldable pub expired_body : Parsed → Bool
  expired_body (parsed (obj fs)) =
      says_expired (show (get_or fs "errorMessage" null or get_or fs "message" null or str ""))
  expired_body _ = false

  unfoldable pub looks_like_session_expired : Response → Bool
  looks_like_session_expired resp = eqb resp.status_code 401 && expired_body resp.json

  -- `session.request(method, url, timeout=timeout, **kwargs)`
  unfoldable pub session_request : String → String → Json → Json → Json → Config → Bearer → Request
  session_request method path params body timeout cfg bearer = record {
    method = method;
    url = base_url cfg <> path;
    params = params;
    body = body;
    auth = none;
    token = bearer.authorization;
    verify = bearer.verify;
    timeout = timeout or cfg.timeout;
  }

module _ ⦃E : Env⦄ (method : String) (opts : Json) (path : String) (params body : Json)
    (profile : Option String) (timeout : Json) where
  unfoldable pub again_if_expired : Config → Response → Exec Response
  again_if_expired cfg resp =
      if looks_like_session_expired resp
      then (do
        invalidate_token opts profile
        connected ← session opts profile
        send (session_request method path params body timeout cfg connected.bearer))
      else pure resp

  unfoldable pub request : Exec Response
  request = do
    connected ← session opts profile
    resp ← send (session_request method path params body timeout connected.config connected.bearer)
    final ← again_if_expired connected.config resp
    require_success final

module _ ⦃E : Env⦄ (opts : Json) (path : String) where
  unfoldable pub api_get : Json → Option String → Json → Exec Json
  api_get params profile timeout = do
    resp ← request "GET" opts path params null profile timeout
    content_or_empty resp

  unfoldable pub api_post : Json → Json → Option String → Json → Exec Json
  api_post body params profile timeout = do
    resp ← request "POST" opts path params body profile timeout
    content_or_empty resp

  unfoldable pub api_put : Json → Json → Option String → Json → Exec Json
  api_put body params profile timeout = do
    resp ← request "PUT" opts path params body profile timeout
    content_or_empty resp

  unfoldable pub api_patch : Json → Json → Option String → Json → Exec Json
  api_patch body params profile timeout = do
    resp ← request "PATCH" opts path params body profile timeout
    content_or_empty resp

  unfoldable pub api_delete : Json → Option String → Json → Exec Json
  api_delete params profile timeout = do
    resp ← request "DELETE" opts path params null profile timeout
    pure empty
