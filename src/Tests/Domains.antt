-- ===== src/Tests/Domains.antt =====
-- The states of SDDC Manager over the scripted machine, and the bound of `complete`.
use saltext_vmware.Base.{
  ◌+◌, ◌*◌, ◌≤◌, ◌≡◌, ◌↔◌, arith, ◌≢◌, refl, true, false, none, List, [], ◌∷◌,
}
use saltext_vmware.Json.{Json, null, bool, str, arr, nil, cons, obj, field, end}
use saltext_vmware.Json.Equal.{equal}
use saltext_vmware.Http.{Reply, ok, out_of_fuel}
use saltext_vmware.Dict.{find}
use saltext_vmware.Settings.{connection, section, of_profile, either}
use saltext_vmware.Exec.{World, pure, raise, lift, ◌>>=◌, send, get_caches}
use saltext_vmware.Exec.{now, sleep}
use saltext_vmware.Waiting.{poll_until, poll_loop, go_on, sleep_or_give_up}
use saltext_vmware.Sddc.Outcomes.{IsSuccessful}
use saltext_vmware.Sddc.Succeeding.{Succeeds, wait-Succeeds}
use saltext_vmware.SddcModules.WorkloadDomain.{create_domain, wait_for}
use saltext_vmware.SddcModules.Confirming.{create_domain_ok}
use saltext_vmware.Exec.Costs.{length}
use saltext_vmware.Vcenter.Session.{body_of, require_success}
use saltext_vmware.Vcenter.Api.{content_or_empty}
use saltext_vmware.PatchState.Ret.{Ret, fresh}
use saltext_vmware.Sddc
use saltext_vmware.Sddc.Reading.{OnlyReads}
use saltext_vmware.Rest.{first_with, element_with}
use saltext_vmware.SddcClients
use saltext_vmware.SddcStates.Domain.{
  present, absent, domain, mark_if_there, mark_unless_test, mark_domain,
}
use saltext_vmware.SddcStates.Host.{commissioned, decommissioned}
use saltext_vmware.SddcStates.DryRun.{sddc_states_dry}
use saltext_vmware.SddcStates.Marking.{MarksListed, absent-MarksListed}
use saltext_vmware.BringupState.Complete.{Goal, complete}
use saltext_vmware.BringupState.Bounds.{complete_at_most}
use saltext_vmware.Tests.Machine.{Script, machine, machine-IsClock, success, scripted, no_caches}

abbrev login : Json
login = obj (field "host" (str "h") (field "username" (str "u") (field "password" (str "p") end)))

abbrev options_with : Json → Json
options_with test = obj (
    field "pillar" (obj (field "saltext.vcf" (obj (field "sddc_manager" login end)) end))
      (field "test" test end))

-- The token of SDDC Manager is in the cache.
abbrev ready : List Reply → World Script
ready answers = record (scripted answers) {
  caches = record no_caches { sddc = ("h:u", str "jwt") ∷ [] };
}

sddc_states_dry_example :
    let opts = options_with (bool true) in
    OnlyReads (present opts "wld" none null (ready [])).1.sent
    × OnlyReads (absent opts "wld" none (ready [])).1.sent
    × OnlyReads (commissioned opts "wld" none null (ready [])).1.sent
    × OnlyReads (decommissioned opts "wld" none (ready [])).1.sent
sddc_states_dry_example =
    sddc_states_dry (options_with (bool true)) "wld" none (bool true) refl refl null null (ready [])
      tt

abbrev wld : Json
wld = obj (field "id" (str "7") (field "name" (str "wld") end))

abbrev marked : Ret
marked = record (fresh "wld") {
  changes = obj (field "marked_for_deletion" (str "7") end);
  comment = "Workload domain wld marked for deletion";
}

abbrev listing : World Script
listing = ready (success (obj (field "elements" (arr (cons wld nil)) end)) ∷ success (obj end) ∷ [])

absent-MarksListed_example :
    (body : Json) × ((SddcClients.Domain.list (options_with (bool false)) none listing).0 ≡ ok body)
    × MarksListed "wld" body marked
unfolding absent mark_if_there mark_unless_test mark_domain domain SddcClients.Domain.get_by_name
    SddcClients.Domain.list SddcClients.Domain.mark_for_deletion element_with first_with equal
    Sddc.Errors.iterate Sddc.Api.api_get Sddc.Api.api_patch Sddc.Api.call Sddc.Session.session
    Sddc.Session.get_token Sddc.Session.cached_or_acquire Sddc.Session.cache_key
    Sddc.Config.get_config connection section of_profile either find require_success
    content_or_empty body_of pure lift raise ◌>>=◌ send get_caches
absent-MarksListed_example =
    absent-MarksListed (options_with (bool false)) "wld" none listing marked refl

abbrev goal : Goal
goal = record {
  name = "mgmt";
  spec = obj end;
  wait = true;
  timeout = 10;
  validate_first = true;
  profile = none;
}

complete_at_most_example :
    ((complete (options_with null) goal (scripted [])).0 ≢ out_of_fuel)
    × (length (complete (options_with null) goal (scripted [])).1.sent ≤ 7216 + 4 * (10 + 1) + 0)
complete_at_most_example = complete_at_most (options_with null) goal machine-IsClock (scripted [])

abbrev finished_task : Json
finished_task = obj (field "id" (str "9") (field "status" (str "Successful") end))

abbrev creating : World Script
creating = ready (success (obj (field "id" (str "9") end)) ∷ success finished_task ∷ [])

create_domain_ok_example : IsSuccessful finished_task
unfolding create_domain wait_for SddcClients.Domain.create Sddc.Tasks.wait Sddc.Tasks.look_at_task
    Sddc.Tasks.get_task Sddc.Tasks.task_path Sddc.Tasks.is_terminal Sddc.Tasks.task_ended poll_until
    poll_loop go_on sleep_or_give_up Sddc.Api.api_get Sddc.Api.api_post Sddc.Api.call
    Sddc.Session.session Sddc.Session.get_token Sddc.Session.cached_or_acquire
    Sddc.Session.cache_key Sddc.Config.get_config connection section of_profile either find
    require_success content_or_empty body_of pure lift raise ◌>>=◌ send get_caches now sleep
create_domain_ok_example =
    create_domain_ok (options_with null) none (obj end) (bool true) 10 1 creating finished_task refl
      refl

-- The first read of the task finds it in progress, the second one, after a sleep, successful.
abbrev progressing : World Script
progressing = ready (
    success (obj (field "id" (str "9") (field "status" (str "In Progress") end)))
    ∷ success finished_task
    ∷ [])

abbrev waited : World Script
waited = (Sddc.Tasks.wait (options_with null) (str "9") none 10 1 progressing).1

wait_run :
    Sddc.Tasks.wait (options_with null) (str "9") none 10 1 progressing ≡ (ok finished_task, waited)
unfolding Sddc.Tasks.wait Sddc.Tasks.look_at_task Sddc.Tasks.get_task Sddc.Tasks.task_path
    Sddc.Tasks.is_terminal Sddc.Tasks.task_ended poll_until poll_loop go_on sleep_or_give_up
    Sddc.Api.api_get Sddc.Api.api_post Sddc.Api.call Sddc.Session.session Sddc.Session.get_token
    Sddc.Session.cached_or_acquire Sddc.Session.cache_key Sddc.Config.get_config connection section
    of_profile either find require_success content_or_empty body_of pure lift raise ◌>>=◌ send
    get_caches now sleep
wait_run = refl

wait-Succeeds_example :
    (Sddc.Tasks.wait (options_with null) (str "9") none 10 1 progressing
      ≡ (ok finished_task, waited))
    ↔ Succeeds (options_with null) (str "9") none 1 (0 + 10) finished_task waited progressing
wait-Succeeds_example =
    wait-Succeeds (options_with null) (str "9") none machine-IsClock 10 1 finished_task progressing
      waited (omega arith)
