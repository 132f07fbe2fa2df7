-- ===== src/VcPatch/Polling.antt =====
-- The polling loops of clients/vc_patch.py. Log lines are left out, and with them `last_state`,
-- which only they read. Every loop takes fuel: a round that does not return sleeps, so that
-- `timeout + 2` rounds are enough where the poll interval is positive.
use saltext_vmware.Base.{ℕ, zero, suc, ◌+◌, String, ◌<>◌, true, ◌||◌, Option, ltb, leb}
use saltext_vmware.Base.{if◌then◌else◌}
use saltext_vmware.Json.{Json, null, bool, num, str, obj, Fields, field, end, get_or, is_text}
use saltext_vmware.Http.{Exc, exc, runtime_error, timeout_error}
use saltext_vmware.Exec.{Env, Exec, pure, raise, spent, catch_http, ◌>>=◌, ◌>>◌, now, sleep, show}
use saltext_vmware.Vcenter.Session.{invalidate_session}
use saltext_vmware.VcPatch.Errors.{is_transient_error}
use saltext_vmware.VcPatch.Updates.{get_staged_update, get_update_status}
use saltext_vmware.VcPatch.Matching.{staged_matches}

unfoldable pub inner_state : Fields → Json → Json
inner_state status (obj value) = get_or value "state" null
inner_state status _ = get_or status "state" null

unfoldable pub extract_state : Json → Json
extract_state (obj status) = inner_state status (get_or status "value" null)
extract_state _ = null

-- What a look at the staged update finds
pub data Check : Type 0 where
  matched : Json → Check
  unmatched : Json → Check

-- The last status that was read, and the transient errors since
pub record Progress : Type 0 where
  pub status : Json
  pub errors : ℕ

pub data Install : Type 0 where
  finished : Json → Install
  running : Progress → Install

module _ ⦃E : Env⦄ where
  -- `if time.monotonic() > deadline: raise …; time.sleep(poll_interval)`, and the next round
  unfoldable pub check_deadline : ℕ → ℕ → Exc → Exec Json → ℕ → Exec Json
  check_deadline deadline poll_interval late again t =
      if ltb deadline t then raise late else (do sleep poll_interval; again)

  unfoldable pub pause : ℕ → ℕ → Exc → Exec Json → Exec Json
  pause deadline poll_interval late again = do
    t ← now
    check_deadline deadline poll_interval late again t

module _ ⦃E : Env⦄ (opts : Json) (profile : Option String) where
  -- The first `try` of the loops; an `HTTPError` leaves the last answer.
  unfoldable pub check_staged : Json → Json → Exec Check
  check_staged version last =
      catch_http
        (do
          staged ← get_staged_update opts profile
          pure (if staged_matches staged version then matched staged else unmatched staged))
        λ e. pure (unmatched last)

  unfoldable pub wait_late : Json → Exc
  wait_late last =
      exc timeout_error ("Timed out waiting for staged update. Last response: " <> show last)

  unfoldable pub wait_round : ℕ → ℕ → (Json → Exec Json) → Check → Exec Json
  wait_round poll_interval deadline again (matched staged) = pure (
      obj (
        field "success" (bool true)
          (field "state" (str "STAGED") (field "staged_update" staged end))))
  wait_round poll_interval deadline again (unmatched last) =
      pause deadline poll_interval (wait_late last) (again last)

  unfoldable pub wait_loop : ℕ → Json → ℕ → ℕ → Json → Exec Json
  wait_loop zero version poll_interval deadline last = spent
  wait_loop (suc fuel) version poll_interval deadline last = do
    check ← check_staged version last
    wait_round poll_interval deadline (wait_loop fuel version poll_interval deadline) check

  unfoldable pub wait_for_staged_update : Json → ℕ → ℕ → Exec Json
  wait_for_staged_update version poll_interval timeout = do
    start ← now
    wait_loop (timeout + 2) version poll_interval (start + timeout) null

  unfoldable pub inspect_stage : Json → Exec Progress
  inspect_stage status =
      if is_text (extract_state status) "STAGE_FAILED"
        || is_text (extract_state status) "INSTALL_FAILED"
      then raise (exc runtime_error ("VCSA stage failed. Status: " <> show status))
      else pure (record { status = status; errors = 0 })

  unfoldable pub too_many : String → ℕ → Exc → Exc
  too_many what max_transient_errors e = exc runtime_error (
      "VCSA "
      <> what
      <> " monitor failed after "
      <> show (num max_transient_errors)
      <> " transient errors. Last error: "
      <> e.message)

  -- The handler of an `HTTPError` in both monitors
  unfoldable pub retry : String → ℕ → Progress → Exc → Exec Progress
  retry what max_transient_errors p e =
      if is_transient_error e
      then (do
        invalidate_session opts profile
        (if leb max_transient_errors (p.errors + 1)
            then raise (too_many what max_transient_errors e)
            else pure (record { status = p.status; errors = p.errors + 1 })))
      else raise e

  -- The second `try` of `monitor_stage`
  unfoldable pub poll_stage : ℕ → Progress → Exec Progress
  poll_stage max_transient_errors p =
      catch_http (do status ← get_update_status opts profile; inspect_stage status)
        (retry "stage" max_transient_errors p)

  unfoldable pub stage_late : ℕ → Progress → Exc
  stage_late timeout p = exc timeout_error (
      "Timed out waiting for VCSA stage after "
      <> show (num timeout)
      <> "s. Last status: "
      <> show p.status)

  unfoldable pub stage_round : ℕ → ℕ → ℕ → ℕ → Progress → (Progress → Exec Json) → Check → Exec Json
  stage_round poll_interval timeout deadline max_transient_errors p again (matched staged) = pure (
      obj (
        field "success" (bool true) (
          field "state" (str "STAGED")
            (field "status" p.status (field "staged_update" staged end)))))
  stage_round poll_interval timeout deadline max_transient_errors p again (unmatched last) = do
    p' ← poll_stage max_transient_errors p
    pause deadline poll_interval (stage_late timeout p') (again p')

  unfoldable pub stage_loop : ℕ → Json → ℕ → ℕ → ℕ → ℕ → Progress → Exec Json
  stage_loop zero version poll_interval timeout deadline max_transient_errors p = spent
  stage_loop (suc fuel) version poll_interval timeout deadline max_transient_errors p = do
    check ← check_staged version null
    stage_round poll_interval timeout deadline max_transient_errors p
        (stage_loop fuel version poll_interval timeout deadline max_transient_errors) check

  unfoldable pub monitor_stage : Json → ℕ → ℕ → ℕ → Exec Json
  monitor_stage version poll_interval timeout max_transient_errors = do
    start ← now
    stage_loop (timeout + 2) version poll_interval timeout (start + timeout) max_transient_errors
        (record { status = null; errors = 0 })

  unfoldable pub inspect_install : Json → Exec Install
  inspect_install status =
      if is_text (extract_state status) "UP_TO_DATE"
      then pure (finished status)
      else if is_text (extract_state status) "INSTALL_FAILED"
      then raise (exc runtime_error ("Install failed. Status: " <> show status))
      else pure (running (record { status = status; errors = 0 }))

  unfoldable pub poll_install : ℕ → Progress → Exec Install
  poll_install max_transient_errors p =
      catch_http (do status ← get_update_status opts profile; inspect_install status)
        λ e. do p' ← retry "install" max_transient_errors p e; pure (running p')

  unfoldable pub install_late : Progress → Exc
  install_late p =
      exc timeout_error ("Timed out waiting for install. Last status: " <> show p.status)

  unfoldable pub install_round : ℕ → ℕ → (Progress → Exec Json) → Install → Exec Json
  install_round poll_interval deadline again (finished status) = pure (
      obj (
        field "success" (bool true)
          (field "state" (extract_state status) (field "status" status end))))
  install_round poll_interval deadline again (running p) =
      pause deadline poll_interval (install_late p) (again p)

  unfoldable pub install_loop : ℕ → ℕ → ℕ → ℕ → Progress → Exec Json
  install_loop zero poll_interval deadline max_transient_errors p = spent
  install_loop (suc fuel) poll_interval deadline max_transient_errors p = do
    found ← poll_install max_transient_errors p
    install_round poll_interval deadline
        (install_loop fuel poll_interval deadline max_transient_errors) found

  unfoldable pub monitor_install : ℕ → ℕ → ℕ → Exec Json
  monitor_install poll_interval timeout max_transient_errors = do
    start ← now
    install_loop (timeout + 2) poll_interval (start + timeout) max_transient_errors
        (record { status = null; errors = 0 })
