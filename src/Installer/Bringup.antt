-- ===== src/Installer/Bringup.antt =====
-- clients/installer_bringup.py: validation and bringup of a management domain.
use saltext_vmware.Base.{ℕ, String, ◌<>◌, Bool, not, ◌||◌, Option, if◌then◌else◌}
use saltext_vmware.Json.{Json, null, num, str, obj, end, field, is_text, ◌or◌}
use saltext_vmware.Http.{exc, runtime_error, timeout_error, get}
use saltext_vmware.Exec.{Env, Exec, pure, raise, lift, catch_http, ◌>>=◌, show}
use saltext_vmware.Vcenter.Task.{is_not_found}
use saltext_vmware.Waiting.{Progress, finished, running, poll_until}
use saltext_vmware.Installer.Api.{api_get, api_post, api_patch}

-- `v in ("IN_PROGRESS", "PENDING", "QUEUED")`
unfoldable pub is_busy : Json → Bool
is_busy v = is_text v "IN_PROGRESS" || is_text v "PENDING" || is_text v "QUEUED"

-- `v in ("SUCCEEDED", "COMPLETED", "PASSED")`
unfoldable pub has_passed : Json → Bool
has_passed v = is_text v "SUCCEEDED" || is_text v "COMPLETED" || is_text v "PASSED"

-- `v in ("COMPLETED_WITH_SUCCESS", "SUCCEEDED", "COMPLETED")`
unfoldable pub is_complete : Json → Bool
is_complete v = is_text v "COMPLETED_WITH_SUCCESS" || is_text v "SUCCEEDED" || is_text v "COMPLETED"

module _ ⦃E : Env⦄ (opts : Json) where
  unfoldable pub validate : Json → Option String → Exec Json
  validate spec profile = api_post opts "/v1/sddcs/validations" spec null profile

  unfoldable pub validation_status : Json → Option String → Exec Json
  validation_status validation_id profile =
      api_get opts ("/v1/sddcs/validations/" <> show validation_id) null profile

  unfoldable pub validation_status_or_none : Json → Option String → Exec Json
  validation_status_or_none validation_id profile =
      catch_http (validation_status validation_id profile)
        (λ e. if is_not_found e then pure null else raise e)

  unfoldable pub list_validations : Option String → Exec Json
  list_validations profile = api_get opts "/v1/sddcs/validations" null profile

  unfoldable pub submit : Json → Option String → Exec Json
  submit spec profile = api_post opts "/v1/sddcs" spec null profile

  unfoldable pub bringup_path : Json → String
  bringup_path sddc_id = "/v1/sddcs/" <> show sddc_id

  unfoldable pub bringup_status : Json → Option String → Exec Json
  bringup_status sddc_id profile = api_get opts (bringup_path sddc_id) null profile

  unfoldable pub bringup_status_or_none : Json → Option String → Exec Json
  bringup_status_or_none sddc_id profile =
      catch_http (bringup_status sddc_id profile)
        (λ e. if is_not_found e then pure null else raise e)

  unfoldable pub list_bringups : Option String → Exec Json
  list_bringups profile = api_get opts "/v1/sddcs" null profile

  unfoldable pub retry_bringup : Json → Option String → Exec Json
  retry_bringup sddc_id profile =
      api_patch opts (bringup_path sddc_id) (obj (field "action" (str "RETRY") end)) profile

module _ ⦃E : Env⦄ (opts validation_id : Json) (profile : Option String) where
  unfoldable pub validation_ended : Json → Json → Exec Progress
  validation_ended info result =
      if not (has_passed result)
      then raise (
          exc runtime_error (
            "validation " <> show validation_id <> " ended " <> E.repr result <> ": " <> show info))
      else pure (finished info)

  unfoldable pub look_at_validation : ℕ → Exec Progress
  look_at_validation timeout = do
    info ← validation_status opts validation_id profile
    execution ← lift (get info "executionStatus" null)
    status ← lift (get info "status" null)
    if not (is_busy (execution or status))
        then (do
          result ← lift (get info "resultStatus" null)
          validation_ended info (result or status))
        else pure (
            running (
              exc timeout_error (
                "validation "
                <> show validation_id
                <> " did not complete in "
                <> show (num timeout)
                <> "s")))

  unfoldable pub wait_validation : ℕ → ℕ → Exec Json
  wait_validation timeout poll_interval =
      poll_until (look_at_validation timeout) timeout poll_interval

module _ ⦃E : Env⦄ (opts sddc_id : Json) (profile : Option String) where
  unfoldable pub bringup_ended : Json → Json → Exec Progress
  bringup_ended info state =
      if not (is_complete state)
      then raise (
          exc runtime_error
            ("bringup " <> show sddc_id <> " ended " <> E.repr state <> ": " <> show info))
      else pure (finished info)

  unfoldable pub look_at_bringup : ℕ → Exec Progress
  look_at_bringup timeout = do
    info ← bringup_status opts sddc_id profile
    state ← lift (get info "status" null)
    if not (is_busy state)
        then bringup_ended info state
        else pure (
            running (
              exc timeout_error (
                "bringup "
                <> show sddc_id
                <> " did not complete in "
                <> show (num timeout)
                <> "s")))

  unfoldable pub wait_bringup : ℕ → ℕ → Exec Json
  wait_bringup timeout poll_interval = poll_until (look_at_bringup timeout) timeout poll_interval
