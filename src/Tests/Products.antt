-- ===== src/Tests/Products.antt =====
-- SDDC Manager and the VCF Installer over the scripted machine.
use saltext_vmware.Base.{◌≤◌, ◌≢◌, ◌⊎◌, refl, true, false, none, List, []}
use saltext_vmware.Base.{◌∷◌}
use saltext_vmware.Json.{Json, Fields, null, bool, num, str, arr, nil, cons, obj, field, end}
use saltext_vmware.Http.{Request, Reply, exc, connection_error}
use saltext_vmware.Http.{out_of_fuel}
use saltext_vmware.Dict.{find}
use saltext_vmware.Settings.{Connection, connection, section, of_profile, either}
use saltext_vmware.Exec.{World, Bearer, pure, raise, lift, catch, ◌>>=◌, send}
use saltext_vmware.Exec.{get_caches, now, sleep}
use saltext_vmware.Exec.Costs.{length}
use saltext_vmware.Waiting.{poll_until, poll_loop, go_on, sleep_or_give_up}
use saltext_vmware.Vcenter.Session.{Session, body_of, require_success}
use saltext_vmware.Vcenter.Api.{content_or_empty}
use saltext_vmware.Sddc
use saltext_vmware.Installer
use saltext_vmware.Installer.Session.{cached_or_open, session}
use saltext_vmware.Installer.Api.{session_request, attempt, again_if_unauthorized, request, api_get}
use saltext_vmware.Installer.Retry.{request_at_most}
use saltext_vmware.Installer.Reading.{OnlyReads}
use saltext_vmware.Installer.Bringup.{
  is_busy, list_bringups, wait_bringup, look_at_bringup, bringup_status, bringup_ended,
  bringup_path,
}
use saltext_vmware.BringupState.Steps.{await, find_active, list_or_none, pick_active, first_or_busy}
use saltext_vmware.BringupState.Steps.{first_busy}
use saltext_vmware.BringupState.Complete.{
  join_running, await_bringup, after_bringup, sddc_changes, Goal, reuse, reuse_or_start, complete,
}
use saltext_vmware.BringupState.Reusing.{complete_once, complete_dry}
use saltext_vmware.BringupState.Submitting.{submission, complete-list_err}
use mathlib.Core.List.{Memᴰ}
use saltext_vmware.BringupState.Confirmed.{WasComplete, HasWaited, complete-HasWaited}
use saltext_vmware.BringupState.Ending.{complete_ends}
use saltext_vmware.PatchState.Ret.{Ret, fresh}
use saltext_vmware.Tests.Machine.{
  Script, machine, machine-IsClock, success, failure, scripted, no_caches,
}

abbrev login : Json
login = obj (field "host" (str "h") (field "username" (str "u") (field "password" (str "p") end)))

abbrev root : Fields
root = field "sddc_manager" login (field "vcf_installer" login end)

abbrev options : Json
options = obj (field "pillar" (obj (field "saltext.vcf" (obj root) end)) end)

abbrev test_options : Json
test_options =
    obj (field "pillar" (obj (field "saltext.vcf" (obj root) end)) (field "test" (bool true) end))

abbrev known : Connection
known = record { host = str "h"; username = str "u"; password = str "p"; verify_ssl = bool true }

abbrev issuing : World Script
issuing = scripted (success (obj (field "accessToken" (str "jwt") end)) ∷ [])

abbrev bearer : Bearer
bearer = record { authorization = str "Bearer jwt"; verify = bool true }

-- The installer's session is in the cache.
abbrev ready : List Reply → World Script
ready answers = record (scripted answers) {
  caches = record no_caches { installer = ("h:u", bearer) ∷ [] };
}

request_at_most_example :
    length (request "GET" options "/v1/sddcs" null null none (ready (failure 401 ∷ []))).1.sent ≤ 4
request_at_most_example =
    request_at_most "GET" options "/v1/sddcs" null null none (ready (failure 401 ∷ []))

abbrev opened : Session
opened = record { token = str "Bearer jwt"; verify = bool true; host = str "h" }

abbrev list_request : Request
list_request = record {
  method = "GET";
  url = "https://h/v1/sddcs";
  params = null;
  body = null;
  auth = none;
  token = str "Bearer jwt";
  verify = bool true;
  timeout = num 30;
}

-- After a request for the list of bringups
abbrev asked : List Reply → World Script
asked answers = record (ready answers) {
  remote = record { time = 1; answers = answers };
  sent = list_request ∷ [];
}

abbrev goal : Goal
goal = record {
  name = "mgmt";
  spec = obj end;
  wait = true;
  timeout = 10;
  validate_first = false;
  profile = none;
}

abbrev finished : Json
finished = obj (field "id" (str "1") (field "status" (str "SUCCEEDED") end))

abbrev listing : World Script
listing = ready (success (arr (cons finished nil)) ∷ [])

complete_once_example : OnlyReads (complete options goal listing).1.sent
unfolding find_active list_or_none pick_active first_or_busy first_busy list_bringups api_get
    is_busy request attempt again_if_unauthorized session session_request cached_or_open
    Installer.Session.cache_key find Installer.Config.get_config connection section of_profile
    either require_success content_or_empty body_of pure lift raise catch ◌>>=◌ send get_caches
    Sddc.Errors.iterate
complete_once_example = complete_once options goal finished listing (asked []) refl tt

complete_dry_example : OnlyReads (complete test_options goal listing).1.sent
complete_dry_example = complete_dry test_options goal (bool true) refl refl listing tt

complete-list_err_example :
    Memᴰ (submission options goal opened) (complete options goal (ready [])).1.sent
unfolding list_bringups api_get request attempt session session_request cached_or_open
    Installer.Session.cache_key find Installer.Config.get_config connection section of_profile
    either pure lift raise ◌>>=◌ send get_caches
complete-list_err_example =
    complete-list_err options goal (exc connection_error "connection refused") null opened
      (ready []) (asked []) (asked []) refl refl refl refl refl

-- The bringup that is listed is in progress, and the first read of it finds that it succeeded.
abbrev progressing : World Script
progressing = ready (
    success (arr (cons (obj (field "id" (str "1") (field "status" (str "IN_PROGRESS") end))) nil))
    ∷ success finished
    ∷ [])

abbrev joined : Ret
joined = record (fresh "mgmt") {
  changes = sddc_changes (str "1") (str "SUCCEEDED");
  comment = "bringup completed";
}

complete-HasWaited_example :
    let w' = (complete options goal progressing).1 in
    WasComplete options goal progressing joined ⊎ HasWaited options goal progressing joined w'
unfolding complete reuse_or_start reuse join_running await_bringup await after_bringup wait_bringup
    look_at_bringup bringup_status bringup_ended bringup_path poll_until poll_loop go_on
    sleep_or_give_up find_active list_or_none pick_active first_or_busy first_busy list_bringups
    api_get is_busy Installer.Bringup.is_complete request attempt again_if_unauthorized session
    session_request cached_or_open Installer.Session.cache_key find Installer.Config.get_config
    connection section of_profile either require_success content_or_empty body_of pure lift raise
    catch ◌>>=◌ send get_caches now sleep Sddc.Errors.iterate
complete-HasWaited_example = complete-HasWaited options goal progressing _ joined refl refl refl

complete_ends_example : (complete options goal (ready [])).0 ≢ out_of_fuel
complete_ends_example = complete_ends machine-IsClock options goal (ready [])
