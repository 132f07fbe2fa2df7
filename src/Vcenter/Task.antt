-- ===== src/Vcenter/Task.antt =====
-- `wait_for_task` of utils/vcenter.py.
use saltext_vmware.Base.{ℕ, zero, suc, ◌+◌, String, ◌<>◌, Bool, true, false, not, ◌&&◌, ◌||◌}
use saltext_vmware.Base.{Option, none, some, ltb, eqb, if◌then◌else◌}
use saltext_vmware.Json.{Json, null, bool, str, num, obj, field, end, empty, is_text}
use saltext_vmware.Http.{Exc, exc, runtime_error, timeout_error, get}
use saltext_vmware.Exec.{Env, Exec, pure, raise, lift, spent, catch_http, ◌>>=◌, ◌>>◌, now, sleep}
use saltext_vmware.Exec.{show}
use saltext_vmware.Vcenter.Api.{api_get}

-- `exc.response is not None and exc.response.status_code == 404`
unfoldable pub is_not_found : Exc → Bool
is_not_found e = elim e.response [ none ↦ false | some resp ↦ eqb resp.status_code 404 ]

-- `status in ("SUCCEEDED", "SUCCESS")`
unfoldable pub is_success : Json → Bool
is_success status = is_text status "SUCCEEDED" || is_text status "SUCCESS"

-- `status in ("FAILED", "CANCELED", "CANCELLED")`
unfoldable pub is_failure : Json → Bool
is_failure status =
    is_text status "FAILED" || is_text status "CANCELED" || is_text status "CANCELLED"

pub data Lookup : Type 0 where
  ran_synchronously : Lookup
  task : Json → Lookup

module _ ⦃E : Env⦄ (opts : Json) (task_id : Json) (profile : Option String) where
  unfoldable pub synchronous : Json
  synchronous = obj (
      field "status" (str "SUCCEEDED")
        (field "task_id" task_id (field "synchronous" (bool true) end)))

  unfoldable pub read_task : Bool → Exec Lookup
  read_task seen =
      catch_http
        (do
          found ← api_get opts ("/api/cis/tasks/" <> show task_id) null profile null
          pure (task found))
        λ e. if not seen && is_not_found e then pure ran_synchronously else raise e

  unfoldable pub task_failed : Json → Json → Exec Json
  task_failed status found = raise (
      exc runtime_error
        ("task " <> show task_id <> " ended " <> E.repr status <> ": " <> show found))

  -- The tests on `status`; `again` is the next round.
  unfoldable pub verdict : ℕ → (Json → Exec Json) → Json → Json → Exec Json
  verdict poll_interval again found status =
      if is_success status
      then pure found
      else if is_failure status
      then task_failed status found
      else (do sleep poll_interval; again found)

  unfoldable pub judge : ℕ → (Json → Exec Json) → Lookup → Exec Json
  judge poll_interval again ran_synchronously = pure synchronous
  judge poll_interval again (task found) = do
    status ← lift (get found "status" null)
    verdict poll_interval again found status

  unfoldable pub timed_out : ℕ → Json → Exec Json
  timed_out timeout found = raise (
      exc timeout_error (
        "task "
        <> show task_id
        <> " did not complete within "
        <> show (num timeout)
        <> "s: "
        <> show found))

  -- The body of the loop. `found` is the last task that was read, and `seen` is `seen_task`.
  unfoldable pub wait_round : ℕ → ℕ → ℕ → (Json → Exec Json) → Json → Bool → ℕ → Exec Json
  wait_round timeout poll_interval deadline again found seen t =
      if ltb t deadline
      then (do answer ← read_task seen; judge poll_interval again answer)
      else timed_out timeout found

  unfoldable pub wait_loop : ℕ → ℕ → ℕ → ℕ → Json → Bool → Exec Json
  wait_loop zero timeout poll_interval deadline found seen = spent
  wait_loop (suc fuel) timeout poll_interval deadline found seen = do
    t ← now
    wait_round timeout poll_interval deadline
        (λ last. wait_loop fuel timeout poll_interval deadline last true) found seen t

  -- Each round but the last takes a unit of time, so that `timeout + 1` rounds are enough.
  unfoldable pub wait_for_task : ℕ → ℕ → Exec Json
  wait_for_task timeout poll_interval = do
    start ← now
    wait_loop (timeout + 1) timeout poll_interval (start + timeout) empty false
