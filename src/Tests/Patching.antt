-- ===== src/Tests/Patching.antt =====
-- clients/vc_patch.py over the scripted machine.
use saltext_vmware.Base.{String, ◌≢◌, refl, true}
use saltext_vmware.Base.{none, [], ◌∷◌, arith}
use saltext_vmware.Json.{Json, bool, str, obj, field, end, Fields}
use saltext_vmware.Http.{out_of_fuel}
use saltext_vmware.Exec.{World}
use saltext_vmware.VcPatch.Errors.{is_transient_error}
use saltext_vmware.VcPatch.Updates.{
  quoted, pending_path, get_pending_update, list_pending_updates, get_update_status, tolerate,
  get_tolerant, get_staged_update, body_or_empty,
}
use saltext_vmware.VcPatch.Matching.{
  extract_values, dict_values, staged_matches, staged_value, value_matches, is_blank, is_exact,
  is_prefix, match_version, or_else, version_fields, candidates, agrees, nested_fields,
}
use saltext_vmware.VcPatch.Resolve.{
  is_requested, is_named, version_of, look_up, no_updates, not_listed, listed_or_raise, choose,
  keep_or, detail_of, settle, pick, resolve_listed, after_lookup, resolve_update_version,
}
use saltext_vmware.VcPatch.Polling.{
  extract_state, inner_state, check_deadline, pause, check_staged, wait_late, wait_round, wait_loop,
  wait_for_staged_update, inspect_stage, too_many, retry, poll_stage, stage_late, stage_round,
  stage_loop, monitor_stage, inspect_install, poll_install, install_late, install_round,
  install_loop, monitor_install,
}
use saltext_vmware.VcPatch.Ending.{
  wait_for_staged_update_ends, monitor_stage_ends, monitor_install_ends,
}
use saltext_vmware.VcPatch.Outcomes.{
  Monitored, Installed, Waited, monitor_stage_ok, monitor_install_ok, wait_for_staged_update_ok,
}
use saltext_vmware.Tests.Machine.{
  Script, machine, machine-IsClock, success, failure, connected, options,
}
use saltext_vmware.Tests.Connection.{opened}

-- Opens what a run of this module needs.
unfoldable pub patching : Json → Json
unfolding opened is_transient_error quoted pending_path get_pending_update list_pending_updates
    get_update_status tolerate get_tolerant get_staged_update body_or_empty extract_values
    dict_values staged_matches staged_value value_matches is_blank is_exact is_prefix match_version
    or_else version_fields candidates agrees nested_fields is_requested is_named version_of look_up
    no_updates not_listed listed_or_raise choose keep_or detail_of settle pick resolve_listed
    after_lookup resolve_update_version extract_state inner_state check_deadline pause check_staged
    wait_late wait_round wait_loop wait_for_staged_update inspect_stage too_many retry poll_stage
    stage_late stage_round stage_loop monitor_stage inspect_install poll_install install_late
    install_round install_loop monitor_install
patching status = extract_state status

abbrev pub update : String → Fields
update version = field "version" (str version) end

abbrev pub staged : Json
staged = obj (field "value" (obj (update "9.0.1")) end)

abbrev pub status : String → Json
status s = obj (field "state" (str s) end)

-- Nothing is staged at first; then the status is read, and then the update is there.
abbrev staging : World Script
staging = connected 0 [] (failure 404 ∷ success (status "STAGING") ∷ success staged ∷ [])

monitor_stage_ends_example :
    (monitor_stage options none (str "9.0.1") 5 60 3 staging).0 ≢ out_of_fuel
monitor_stage_ends_example =
    monitor_stage_ends machine-IsClock options none (str "9.0.1") 5 60 3 staging (omega arith)

monitor_stage_ok_example : Monitored options none (str "9.0.1") (
    obj (
      field "success" (bool true) (
        field "state"
          (str "STAGED")
          (field "status" (status "STAGING") (field "staged_update" staged end)))))
unfolding patching
monitor_stage_ok_example = monitor_stage_ok options none (str "9.0.1") 5 60 3 staging _ refl

abbrev installing : World Script
installing =
    connected 0 [] (failure 503 ∷ success (str "token") ∷ success (status "UP_TO_DATE") ∷ [])

monitor_install_ends_example : (monitor_install options none 5 60 3 installing).0 ≢ out_of_fuel
monitor_install_ends_example =
    monitor_install_ends machine-IsClock options none 5 60 3 installing (omega arith)

monitor_install_ok_example : Installed options none (
    obj (
      field "success"
        (bool true)
        (field "state" (str "UP_TO_DATE") (field "status" (status "UP_TO_DATE") end))))
unfolding patching
monitor_install_ok_example = monitor_install_ok options none 5 60 3 installing _ refl

wait_for_staged_update_ends_run :
    (wait_for_staged_update options none (str "9.0.1") 5 60 (connected 0 [] [])).0 ≢ out_of_fuel
wait_for_staged_update_ends_run =
    wait_for_staged_update_ends machine-IsClock options none (str "9.0.1") 5 60 (connected 0 [] [])
      (omega arith)

wait_for_staged_update_ok_run : Waited options none (str "9.0.1") (
    obj (
      field "success"
        (bool true)
        (field "state" (str "STAGED") (field "staged_update" staged end))))
unfolding patching
wait_for_staged_update_ok_run =
    wait_for_staged_update_ok options none (str "9.0.1") 5 60
      (connected 0 [] (failure 404 ∷ success staged ∷ [])) _ refl
