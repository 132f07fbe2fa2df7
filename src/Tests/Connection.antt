-- ===== src/Tests/Connection.antt =====
-- utils/vcenter.py over the scripted machine.
use saltext_vmware.Base.{◌≡◌, ◌≢◌, refl, true, false, none, some, []}
use saltext_vmware.Base.{◌∷◌, arith}
use saltext_vmware.Json.{Json, null, bool, num, str, obj, field, end, lookup}
use saltext_vmware.Http.{
  Request, Exc, exc, http_error, timeout_error, connection_error, Result, ok, err, out_of_fuel,
}
use saltext_vmware.Exec.{pure, raise, lift, catch, catch_http, ◌>>=◌, send, now, sleep}
use saltext_vmware.Exec.{get_sessions, put_sessions}
use saltext_vmware.Vcenter.Config.{Config, get_config, resolve_timeout}
use saltext_vmware.Vcenter.Session.{
  Session, body_of, cache_key, require_success, login_request, login, cached_or_login, get_session,
  invalidate_session,
}
use saltext_vmware.Vcenter.Api.{status_message, raise_for_status, content_or_empty, call, api_get}
use saltext_vmware.Vcenter.Task.{
  is_not_found, is_success, is_failure, ran_synchronously, synchronous, read_task, task_failed,
  verdict, judge, timed_out, wait_round, wait_loop, wait_for_task,
}
use saltext_vmware.Vcenter.Caching.{
  get_session_again, invalidate_session_lem, get_session-invalidate_session, get_session_err,
}
use saltext_vmware.Vcenter.TaskEnding.{wait_for_task_ends}
use saltext_vmware.Vcenter.Outcomes.{HasSucceeded, wait_for_task_ok, read_task_missing}
use saltext_vmware.Tests.Machine.{
  machine, machine-IsClock, success, failure, failure_with, scripted, connected, options,
}

-- Opens what a run of this module needs.
unfoldable pub opened : Json → Result Config
unfolding get_config resolve_timeout body_of cache_key require_success login_request login
    cached_or_login get_session invalidate_session status_message raise_for_status content_or_empty
    call api_get is_not_found is_success is_failure synchronous read_task task_failed verdict judge
    timed_out wait_round wait_loop wait_for_task pure raise lift catch catch_http ◌>>=◌ send now
    sleep get_sessions put_sessions
opened opts = get_config opts none

abbrev root : Config
root = record {
  host = str "vc";
  username = str "root";
  password = str "pw";
  verify_ssl = bool true;
  timeout = num 30;
}

abbrev session : Session
session = record { token = str "token"; verify = bool true; host = str "vc" }

root_config : get_config options none ≡ ok root
unfolding opened
root_config = refl

get_session_again_run :
    get_session options none (connected 1 (login_request root ∷ []) [])
    ≡ (ok session, connected 1 (login_request root ∷ []) [])
unfolding opened
get_session_again_run =
    get_session_again options none (scripted (success (str "token") ∷ []))
      (connected 1 (login_request root ∷ []) []) session refl

get_session-invalidate_session_example :
    (get_session options none (invalidate_session options none (connected 0 [] [])).1).1.sent
    ≡ login_request root ∷ []
get_session-invalidate_session_example =
    get_session-invalidate_session options none root (connected 0 [] []) root_config

login_refused : (get_session options none (scripted (failure 401 ∷ []))).1.sessions ≡ end
unfolding opened
login_refused = refl

get_session_err_run : (get_session options none (scripted [])).1.sessions ≡ end
unfolding opened
get_session_err_run =
    get_session_err options none (scripted []) (exc connection_error "connection refused") refl

abbrev running : Json
running = obj (field "status" (str "RUNNING") end)

abbrev done : Json
done = obj (field "status" (str "SUCCEEDED") end)

wait_for_task_ends_example :
    (wait_for_task options (str "7") none 3 1 (connected 0 [] (success running ∷ []))).0
    ≢ out_of_fuel
wait_for_task_ends_example =
    wait_for_task_ends machine-IsClock options (str "7") none 3 1
      (connected 0 [] (success running ∷ [])) (omega arith)

wait_for_task_ok_example : HasSucceeded done
unfolding opened
wait_for_task_ok_example =
    wait_for_task_ok options (str "7") none 10 1
      (connected 0 [] (success running ∷ success done ∷ [])) done refl

abbrev task_missing : Exc
task_missing = record {
  kind = http_error;
  message = "1 Error for GET https://vc: ";
  response = some (failure_with 404);
}

abbrev lookup_request : Request
lookup_request = record {
  method = "GET";
  url = "https://vc/api/cis/tasks/7";
  params = null;
  body = null;
  auth = none;
  token = str "token";
  verify = bool true;
  timeout = num 30;
}

read_task_missing_run :
    (read_task options (str "7") none false (connected 0 [] (failure 404 ∷ []))
      ≡ (ok ran_synchronously, connected 1 (lookup_request ∷ []) []))
    × (read_task options (str "7") none true (connected 0 [] (failure 404 ∷ []))
        ≡ (err task_missing, connected 1 (lookup_request ∷ []) []))
unfolding opened
read_task_missing_run =
    read_task_missing options (str "7") none task_missing (connected 0 [] (failure 404 ∷ []))
      (connected 1 (lookup_request ∷ []) []) refl refl refl

-- A task that never ends times out.
never_done :
    (wait_for_task options (str "7") none 2 1 (connected 0 [] (success running ∷ []))).0
    ≡ err (exc timeout_error "task 7 did not complete within 1s: {...}")
unfolding opened
never_done = refl

invalidate_session_lem_run :
    let w = (invalidate_session options none (connected 0 [] [])).1 in
    (lookup w.sessions "vc:root" ≡ none) × (w.sent ≡ []) × (w.remote ≡ (scripted []).remote)
unfolding opened
invalidate_session_lem_run =
    invalidate_session_lem options none root (connected 0 [] []) "vc:root" root_config
