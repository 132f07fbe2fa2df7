-- ===== src/Sddc/Api.antt =====
-- `api_get` to `api_delete` of utils/sddc.py.
use saltext_vmware.Base.{String, ◌<>◌, Option, none}
use saltext_vmware.Json.{Json, null, num, empty}
use saltext_vmware.Http.{Response}
use saltext_vmware.Exec.{Env, Exec, pure, ◌>>=◌, send, show}
use saltext_vmware.Vcenter.Session.{require_success}
use saltext_vmware.Vcenter.Api.{content_or_empty}
use saltext_vmware.Sddc.Session.{session}

module _ ⦃E : Env⦄ (opts : Json) where
  unfoldable pub call : String → String → Json → Json → Option String → Exec Response
  call method path params body profile = do
    connected ← session opts profile
    resp ← send (record {
      method = method;
      url = "https://" <> show connected.host <> path;
      params = params;
      body = body;
      auth = none;
      token = connected.token;
      verify = connected.verify;
      timeout = num 30;
    })
    require_success resp

  unfoldable pub api_get : String → Json → Option String → Exec Json
  api_get path params profile = do resp ← call "GET" path params null profile; content_or_empty resp

  unfoldable pub api_post : String → Json → Option String → Exec Json
  api_post path body profile = do resp ← call "POST" path null body profile; content_or_empty resp

  unfoldable pub api_patch : String → Json → Option String → Exec Json
  api_patch path body profile = do resp ← call "PATCH" path null body profile; content_or_empty resp

  unfoldable pub api_put : String → Json → Option String → Exec Json
  api_put path body profile = do resp ← call "PUT" path null body profile; content_or_empty resp

  unfoldable pub api_delete : String → Option String → Exec Json
  api_delete path profile = do resp ← call "DELETE" path null null profile; pure empty
