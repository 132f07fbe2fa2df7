-- ===== src/Installer/Api.antt =====
-- `_request` and `api_get` to `api_delete` of utils/installer.py.
use saltext_vmware.Base.{String, ◌<>◌, Option, none, eqb, if◌then◌else◌}
use saltext_vmware.Json.{Json, null, num}
use saltext_vmware.Http.{Request, Response}
use saltext_vmware.Exec.{Env, Exec, pure, ◌>>=◌, ◌>>◌, send, show}
use saltext_vmware.Vcenter.Session.{Session, require_success}
use saltext_vmware.Vcenter.Api.{content_or_empty}
use saltext_vmware.Installer.Session.{session, invalidate_session}

module _ ⦃E : Env⦄ where
  -- `session.request(method, f"https://{host}{path}", **kwargs)`
  unfoldable pub session_request : String → String → Json → Json → Session → Request
  session_request method path params body connected = record {
    method = method;
    url = "https://" <> show connected.host <> path;
    params = params;
    body = body;
    auth = none;
    token = connected.token;
    verify = connected.verify;
    timeout = num 30;
  }

module _ ⦃E : Env⦄ (method : String) (opts : Json) (path : String) (params body : Json)
    (profile : Option String) where
  unfoldable pub attempt : Exec Response
  attempt = do
    connected ← session opts profile
    send (session_request method path params body connected)

  unfoldable pub again_if_unauthorized : Response → Exec Response
  again_if_unauthorized resp =
      if eqb resp.status_code 401 then (do invalidate_session opts profile; attempt) else pure resp

  unfoldable pub request : Exec Json
  request = do
    resp ← attempt
    final ← again_if_unauthorized resp
    checked ← require_success final
    content_or_empty checked

module _ ⦃E : Env⦄ (opts : Json) (path : String) where
  unfoldable pub api_get : Json → Option String → Exec Json
  api_get params profile = request "GET" opts path params null profile

  unfoldable pub api_post : Json → Json → Option String → Exec Json
  api_post body params profile = request "POST" opts path params body profile

  unfoldable pub api_patch : Json → Option String → Exec Json
  api_patch body profile = request "PATCH" opts path null body profile

  unfoldable pub api_put : Json → Option String → Exec Json
  api_put body profile = request "PUT" opts path null body profile

  unfoldable pub api_delete : Option String → Exec Json
  api_delete profile = request "DELETE" opts path null null profile
