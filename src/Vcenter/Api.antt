-- ===== src/Vcenter/Api.antt =====
-- `_raise_for_status` and the `api_*` helpers of utils/vcenter.py.
use saltext_vmware.Base.{String, ◌<>◌, Option, none, some, ltb}
use saltext_vmware.Base.{if◌then◌else◌}
use saltext_vmware.Json.{Json, null, num, empty}
use saltext_vmware.Http.{Response, http_error}
use saltext_vmware.Exec.{Env, Exec, pure, raise, lift, ◌>>=◌, ◌>>◌, send, show}
use saltext_vmware.Vcenter.Config.{resolve_timeout}
use saltext_vmware.Vcenter.Session.{get_session, body_of}

module _ ⦃E : Env⦄ where
  unfoldable pub status_message : Response → String
  status_message resp =
      show (num resp.status_code)
      <> " "
      <> resp.reason
      <> " for "
      <> elim resp.method [ none ↦ "?" | some m ↦ m ]
      <> " "
      <> resp.url
      <> ": "
      <> elim resp.text [ none ↦ "<unreadable response body>" | some t ↦ t ]

  unfoldable pub raise_for_status : Response → Exec Unit
  raise_for_status resp =
      if ltb resp.status_code 400
      then pure tt
      else raise (record { kind = http_error; message = status_message resp; response = some resp })

  -- `resp.json()` if there is a body, else `{}`
  unfoldable pub content_or_empty : Response → Exec Json
  content_or_empty resp = if resp.content then lift (body_of resp) else pure empty

  unfoldable pub call : String → Json → String → Json → Json → Option String → Json → Exec Response
  call method opts path params body profile override = do
    session ← get_session opts profile
    timeout ← lift (resolve_timeout opts profile override)
    resp ← send (record {
      method = method;
      url = "https://" <> show session.host <> path;
      params = params;
      body = body;
      auth = none;
      token = session.token;
      verify = session.verify;
      timeout = timeout;
    })
    raise_for_status resp
    pure resp

  unfoldable pub api_get : Json → String → Json → Option String → Json → Exec Json
  api_get opts path params profile timeout = do
    resp ← call "GET" opts path params null profile timeout
    content_or_empty resp

  unfoldable pub api_post : Json → String → Json → Json → Option String → Json → Exec Json
  api_post opts path body params profile timeout = do
    resp ← call "POST" opts path params body profile timeout
    content_or_empty resp

  unfoldable pub api_patch : Json → String → Json → Option String → Json → Exec Json
  api_patch opts path body profile timeout = do
    resp ← call "PATCH" opts path null body profile timeout
    content_or_empty resp

  unfoldable pub api_put : Json → String → Json → Option String → Json → Exec Json
  api_put opts path body profile timeout = do
    resp ← call "PUT" opts path null body profile timeout
    content_or_empty resp

  unfoldable pub api_delete : Json → String → Json → Option String → Json → Exec Json
  api_delete opts path params profile timeout = do
    resp ← call "DELETE" opts path params null profile timeout
    pure empty
