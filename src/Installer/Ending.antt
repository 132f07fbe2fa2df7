-- ===== src/Installer/Ending.antt =====
-- The calls of utils/installer.py and clients/installer_bringup.py return or raise.
use saltext_vmware.Base.{ℕ, String, ◌<◌, ◌≢◌, Option, none, some, arith}
use saltext_vmware.Json.{Json}
use saltext_vmware.Http.{out_of_fuel}
use saltext_vmware.Settings.{Connection}
use saltext_vmware.Exec.{Env, IsClock, World, Bearer, lift}
use saltext_vmware.Exec.Total.{IsTotal, total_rules, lift-IsTotal}
use saltext_vmware.Waiting.Ending.{poll_until-Ends, poll_until-IsTotal}
use saltext_vmware.Sddc.Ending.{require_success-IsTotal, body-IsTotal, item-IsTotal, get-IsTotal}
use saltext_vmware.Sddc.Ending.{content_or_empty-IsTotal}
use saltext_vmware.Installer.Config.{get_config, get_config-IsDone}
use saltext_vmware.Installer.Session.{login, open_session, cached_or_open, session}
use saltext_vmware.Installer.Session.{invalidate_session}
use saltext_vmware.Installer.Api.{attempt, again_if_unauthorized, request, api_get}
use saltext_vmware.Installer.Bringup.{validation_status, validation_ended, look_at_validation}
use saltext_vmware.Installer.Bringup.{wait_validation, bringup_status, bringup_ended}
use saltext_vmware.Installer.Bringup.{look_at_bringup, wait_bringup}

module _ ⦃E : Env⦄ (c : IsClock E) where
  config-IsTotal :
      (opts : Json) (profile : Option String) → IsTotal (lift (get_config opts profile))
  config-IsTotal opts profile = lift-IsTotal _ (get_config-IsDone opts profile).done

  cached_or_open-IsTotal :
      (cfg : Connection) (known : Option Bearer) → IsTotal (cached_or_open cfg known)
  unfolding cached_or_open open_session login
  cached_or_open-IsTotal cfg (some known) = search total_rules
  cached_or_open-IsTotal cfg none =
      search (total_rules, c, require_success-IsTotal, body-IsTotal, item-IsTotal) depth 16

  session-IsTotal : (opts : Json) (profile : Option String) → IsTotal (session opts profile)
  unfolding session
  session-IsTotal opts profile =
      search (total_rules, config-IsTotal, cached_or_open-IsTotal) depth 10

  invalidate_session-IsTotal :
      (opts : Json) (profile : Option String) → IsTotal (invalidate_session opts profile)
  unfolding invalidate_session
  invalidate_session-IsTotal opts profile = search (total_rules, config-IsTotal) depth 8

  attempt-IsTotal :
      (method : String) (opts : Json) (path : String) (params body : Json) (profile : Option String)
      → IsTotal (attempt method opts path params body profile)
  unfolding attempt
  attempt-IsTotal method opts path params body profile =
      search (total_rules, c, session-IsTotal) depth 6

  pub request-IsTotal :
      (method : String) (opts : Json) (path : String) (params body : Json) (profile : Option String)
      → IsTotal (request method opts path params body profile)
  unfolding request again_if_unauthorized
  request-IsTotal method opts path params body profile =
      search
        (
          total_rules, attempt-IsTotal, invalidate_session-IsTotal, require_success-IsTotal,
          content_or_empty-IsTotal,
        )
        depth 12

  pub look_at_validation-IsTotal :
      (opts validation_id : Json) (profile : Option String) (timeout : ℕ)
      → IsTotal (look_at_validation opts validation_id profile timeout)
  unfolding look_at_validation validation_status validation_ended api_get
  look_at_validation-IsTotal opts validation_id profile timeout =
      search (total_rules, request-IsTotal, get-IsTotal) depth 16

  pub look_at_bringup-IsTotal :
      (opts sddc_id : Json) (profile : Option String) (timeout : ℕ)
      → IsTotal (look_at_bringup opts sddc_id profile timeout)
  unfolding look_at_bringup bringup_status bringup_ended api_get
  look_at_bringup-IsTotal opts sddc_id profile timeout =
      search (total_rules, request-IsTotal, get-IsTotal) depth 14

  pub wait_bringup-IsTotal :
      (opts sddc_id : Json) (profile : Option String) (timeout : ℕ)
      → IsTotal (wait_bringup opts sddc_id profile timeout 60)
  unfolding wait_bringup
  wait_bringup-IsTotal opts sddc_id profile timeout =
      poll_until-IsTotal c _ (look_at_bringup-IsTotal opts sddc_id profile timeout) timeout 60
        (omega arith)

  pub wait_validation-IsTotal :
      (opts validation_id : Json) (profile : Option String) (timeout : ℕ)
      → IsTotal (wait_validation opts validation_id profile timeout 10)
  unfolding wait_validation
  wait_validation-IsTotal opts validation_id profile timeout =
      poll_until-IsTotal c _ (look_at_validation-IsTotal opts validation_id profile timeout) timeout
        10 (omega arith)

  -- With a clock that does not go back and a positive poll interval, `wait` of a bringup returns or
  -- raises, whatever the installer answers: its fuel is enough.
  pub wait_bringup_ends :
      (opts sddc_id : Json) (profile : Option String) (timeout poll : ℕ) (w : World E.State)
      → 0 < poll
      → (wait_bringup opts sddc_id profile timeout poll w).0 ≢ out_of_fuel
  unfolding wait_bringup
  wait_bringup_ends opts sddc_id profile timeout poll w pos =
      (poll_until-Ends c _ (look_at_bringup-IsTotal opts sddc_id profile timeout) timeout poll w
        pos).ends

  -- With a clock that does not go back and a positive poll interval, `wait_validation` returns or
  -- raises, whatever the installer answers: its fuel is enough.
  pub wait_validation_ends :
      (opts validation_id : Json) (profile : Option String) (timeout poll : ℕ) (w : World E.State)
      → 0 < poll
      → (wait_validation opts validation_id profile timeout poll w).0 ≢ out_of_fuel
  unfolding wait_validation
  wait_validation_ends opts validation_id profile timeout poll w pos =
      (poll_until-Ends c _ (look_at_validation-IsTotal opts validation_id profile timeout) timeout
        poll w pos).ends
