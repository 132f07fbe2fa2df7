-- ===== src/VcPatch/Updates.antt =====
-- The requests of clients/vc_patch.py: the repository policy, the pending updates, the actions on
-- them and the staged update.
use saltext_vmware.Base.{String, ◌<>◌, Option, none, some, eqb, quote, if◌then◌else◌}
use saltext_vmware.Json.{Json, null, str, arr, nil, cons, obj, field, end, empty, truthy, ◌or◌}
use saltext_vmware.Json.{is_none}
use saltext_vmware.Http.{Response, Exc, parsed, malformed}
use saltext_vmware.Exec.{Env, Exec, pure, raise, catch_http, show}
use saltext_vmware.Vcenter.Api.{api_get, api_post, api_put, api_delete}
use saltext_vmware.Vcenter.Task.{is_not_found}

abbrev pub base : String
base = "/rest/appliance/update"

-- The body that came with a 404, or `{}` where it is no JSON.
unfoldable pub body_or_empty : Response → Json
body_or_empty resp = elim resp.json [ parsed v ↦ v | malformed m ↦ empty ]

module _ ⦃E : Env⦄ where
  unfoldable pub quoted : Json → String
  quoted version = quote (show version)

  unfoldable pub pending_path : Json → String
  pending_path version = base <> "/pending/" <> quoted version

module _ ⦃E : Env⦄ (opts : Json) (profile : Option String) where
  unfoldable pub get_update_policy : Exec Json
  get_update_policy = api_get opts (base <> "/policy") null profile null

  unfoldable pub set_update_policy : Json → Json → Json → Json → Json → Json → Exec Json
  set_update_policy repository_url auto_stage certificate_check check_schedule username password =
      api_put opts (base <> "/policy")
        (obj (
          field "policy"
            (obj (
              field "auto_stage" auto_stage (
                field "check_schedule" (if is_none check_schedule then arr nil else check_schedule)
                  (field "certificate_check" certificate_check (
                    field "custom_URL" repository_url (
                      field "username" (username or str "")
                        (field "password" (password or str "") end)))))))
            end))
        profile null

  unfoldable pub list_pending_updates : Json → Json → Exec Json
  list_pending_updates repository_url source_type =
      api_get opts (base <> "/pending")
        (obj (
          field "source_type" (if truthy repository_url then str "LOCAL_AND_URL" else source_type)
            (if truthy repository_url then field "url" repository_url end else end)))
        profile null

  unfoldable pub get_pending_update : Json → Exec Json
  get_pending_update version = api_get opts (pending_path version) null profile null

  unfoldable pub list_upgradeable_components : Json → Exec Json
  list_upgradeable_components version =
      api_get opts (pending_path version <> "/components") null profile null

  unfoldable pub get_update_status : Exec Json
  get_update_status = api_get opts base null profile null

  unfoldable pub act : String → Json → Json → Exec Json
  act action version body =
      api_post opts (pending_path version) body (obj (field "action" (str action) end)) profile null

  unfoldable pub component_body : Json → Json
  component_body component =
      if truthy component then obj (field "component" component end) else null

  unfoldable pub precheck : Json → Json → Exec Json
  precheck version component = act "precheck" version (component_body component)

  unfoldable pub stage : Json → Json → Exec Json
  stage version component = act "stage" version (component_body component)

  unfoldable pub install : Json → Json → Json → Exec Json
  install version sso_password component = act "install" version (
      obj (
        field "user_data"
          (arr
            (cons (obj (field "key" (str "vmdir.password") (field "value" sso_password end))) nil))
          (if truthy component then field "component" component end else end)))

  -- The answer to an `HTTPError` of a tolerant read
  unfoldable pub tolerate : Exc → Option Response → Exec Json
  unfolding body_or_empty
  tolerate e none = raise e
  tolerate e (some resp) = if eqb resp.status_code 404 then pure (body_or_empty resp) else raise e

  unfoldable pub get_tolerant : String → Exec Json
  get_tolerant path = catch_http (api_get opts path null profile null) (λ e. tolerate e e.response)

  unfoldable pub get_staged_update : Exec Json
  get_staged_update = get_tolerant (base <> "/staged")

  unfoldable pub delete_staged_update : Exec Json
  delete_staged_update =
      catch_http (api_delete opts (base <> "/staged") null profile null)
        λ e. if is_not_found e then pure empty else raise e

  unfoldable pub get_update_history : Exec Json
  get_update_history = api_get opts (base <> "/history") null profile null
