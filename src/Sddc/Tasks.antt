-- ===== src/Sddc/Tasks.antt =====
-- clients/sddc_tasks.py: the tasks of SDDC Manager.
use saltext_vmware.Base.{ℕ, String, ◌<>◌, Bool, not, ◌||◌, Option, if◌then◌else◌}
use saltext_vmware.Json.{Json, null, num, arr, obj, end, field, empty, is_text}
use saltext_vmware.Http.{exc, runtime_error, timeout_error, type_error, Result, ok, err, get}
use saltext_vmware.Exec.{Env, Exec, pure, raise, lift, catch_http, ◌>>=◌, show}
use saltext_vmware.Vcenter.Task.{is_not_found}
use saltext_vmware.Waiting.{Progress, finished, running, poll_until}
use saltext_vmware.Sddc.Api.{api_get, api_patch, api_delete}
use saltext_vmware.Sddc.Errors.{error_message}

-- `status in TERMINAL`: a list or a dict is not hashable.
unfoldable pub is_terminal : Json → Result Bool
is_terminal (arr vs) = err (exc type_error "unhashable type: 'list'")
is_terminal (obj fs) = err (exc type_error "unhashable type: 'dict'")
is_terminal status =
    ok (is_text status "Successful" || is_text status "Failed" || is_text status "Cancelled")

module _ ⦃E : Env⦄ (opts : Json) where
  unfoldable pub list_tasks : ℕ → ℕ → Option String → Exec Json
  list_tasks page page_size profile =
      api_get opts "/v1/tasks"
        (obj (field "page" (num page) (field "pageSize" (num page_size) end))) profile

  unfoldable pub task_path : Json → String
  task_path task_id = "/v1/tasks/" <> show task_id

  unfoldable pub get_task : Json → Option String → Exec Json
  get_task task_id profile = api_get opts (task_path task_id) null profile

  unfoldable pub get_task_or_none : Json → Option String → Exec Json
  get_task_or_none task_id profile =
      catch_http (get_task task_id profile) (λ e. if is_not_found e then pure null else raise e)

  unfoldable pub retry_task : Json → Option String → Exec Json
  retry_task task_id profile = api_patch opts (task_path task_id) empty profile

  unfoldable pub cancel_task : Json → Option String → Exec Json
  cancel_task task_id profile = api_delete opts (task_path task_id) profile

module _ ⦃E : Env⦄ (opts : Json) (task_id : Json) (profile : Option String) where
  unfoldable pub still : Json → ℕ → String
  still status timeout =
      "task "
      <> show task_id
      <> " still "
      <> E.repr status
      <> " after "
      <> show (num timeout)
      <> "s"

  unfoldable pub task_ended : Json → Json → Exec Progress
  task_ended task status =
      if not (is_text status "Successful")
      then (do
        msg ← error_message task
        raise (
            exc runtime_error (
              "task "
              <> show task_id
              <> " ended with status "
              <> E.repr status
              <> ": "
              <> show msg)))
      else pure (finished task)

  unfoldable pub look_at_task : ℕ → Exec Progress
  look_at_task timeout = do
    task ← get_task opts task_id profile
    status ← lift (get task "status" null)
    terminal ← lift (is_terminal status)
    if terminal
        then task_ended task status
        else pure (running (exc timeout_error (still status timeout)))

  unfoldable pub wait : ℕ → ℕ → Exec Json
  wait timeout poll_interval = poll_until (look_at_task timeout) timeout poll_interval
