-- ===== src/Installer/Outcomes.antt =====
-- What the waits of clients/installer_bringup.py return, and when.
use saltext_vmware.Base.{ℕ, String, ◌<◌, ◌≡◌, ◌↔◌, ◌+◌, true, false, not, Bool, Option, arith}
use saltext_vmware.Json.{Json, null, ◌or◌}
use saltext_vmware.Http.{ok, get}
use saltext_vmware.Exec.{Env, IsClock, World, lift, ◌>>=◌}
use saltext_vmware.Exec.Later.{clock}
use saltext_vmware.Exec.Returns.{
  Returns, Returns-bind, Returns-after, Returns-lift, Returns-if, returns_rules,
}
use saltext_vmware.Waiting.Returning.{IsFinished, poll_until-Returns}
use saltext_vmware.Waiting.Reaching.{Reaches, poll_until_iff}
use saltext_vmware.Installer.Bringup.{
  is_busy, has_passed, is_complete, validation_status, validation_ended, look_at_validation,
  wait_validation, bringup_status, bringup_ended, look_at_bringup, wait_bringup,
}
use saltext_vmware.Installer.Ending.{look_at_bringup-IsTotal}

abbrev pub IsComplete : Json → Type 0
IsComplete info = (state : Json) × (get info "status" null ≡ ok state) × (is_complete state ≡ true)

abbrev pub HasPassed : Json → Type 0
HasPassed info =
    (result : Json) × (status : Json) × (get info "resultStatus" null ≡ ok result)
    × (get info "status" null ≡ ok status)
    × (has_passed (result or status) ≡ true)

module _ ⦃E : Env⦄ (opts sddc_id : Json) (profile : Option String) where
  bringup_ended-Returns :
      (info state : Json)
      → get info "status" null ≡ ok state
      → Returns (IsFinished IsComplete) (bringup_ended opts sddc_id profile info state)
  unfolding bringup_ended
  bringup_ended-Returns info state e =
      let won : not (is_complete state) ≡ false → IsComplete info = λ h. (state, e, ground arith) in
      search (returns_rules, won) depth 8

  look_at_bringup-Returns :
      (timeout : ℕ) → Returns (IsFinished IsComplete) (look_at_bringup opts sddc_id profile timeout)
  unfolding look_at_bringup
  look_at_bringup-Returns timeout = Returns-after (bringup_status opts sddc_id profile) _ λ info.
      Returns-bind (lift (get info "status" null)) _
        (Returns-lift {P = λ state. get info "status" null ≡ ok state} _ (λ state e. e))
        λ state e. search (returns_rules, bringup_ended-Returns info state e) depth 8

  -- A bringup that `wait` returns has a status of success.
  pub wait_bringup_ok :
      (timeout poll : ℕ) (w : World E.State) (info : Json)
      → (wait_bringup opts sddc_id profile timeout poll w).0 ≡ ok info
      → IsComplete info
  unfolding wait_bringup
  wait_bringup_ok timeout poll =
      (poll_until-Returns _ (look_at_bringup-Returns timeout) timeout poll).at

  -- With a clock that does not go back and a positive poll interval, `wait` of a bringup returns a
  -- state of it exactly where polls before the deadline find it busy and the next finds this state,
  -- of success.
  pub wait_bringup_iff :
      (c : IsClock E) (timeout poll : ℕ) (info : Json) (w last : World E.State)
      → 0 < poll
      → (wait_bringup opts sddc_id profile timeout poll w ≡ (ok info, last))
        ↔ Reaches
            (look_at_bringup opts sddc_id profile timeout)
            poll
            (clock w + timeout)
            info
            last
            w
  unfolding wait_bringup
  wait_bringup_iff c timeout poll info w last pos =
      poll_until_iff c (look_at_bringup opts sddc_id profile timeout)
        (look_at_bringup-IsTotal c opts sddc_id profile timeout) timeout poll info w last pos

unless_false : (b : Bool) → not b ≡ false → b ≡ true
unless_false b h = ground arith

module _ ⦃E : Env⦄ (opts validation_id : Json) (profile : Option String) where
  validation_ended-Returns :
      (info result status : Json)
      → get info "status" null ≡ ok status
      → get info "resultStatus" null ≡ ok result
      → Returns
          (IsFinished HasPassed)
          (validation_ended opts validation_id profile info (result or status))
  unfolding validation_ended
  validation_ended-Returns info result status e e' =
      let won : not (has_passed (result or status)) ≡ false → HasPassed info =
        λ h. (result, status, e', e, unless_false (has_passed (result or status)) h) in
      search (returns_rules, won) depth 8

  judged :
      (info status : Json)
      → get info "status" null ≡ ok status
      → Returns (IsFinished HasPassed) (do
        result ← lift (get info "resultStatus" null)
        validation_ended opts validation_id profile info (result or status))
  judged info status e =
      Returns-bind (lift (get info "resultStatus" null)) _
        (Returns-lift {P = λ result. get info "resultStatus" null ≡ ok result} _ (λ result e'. e'))
        (λ result e'. validation_ended-Returns info result status e e')

  look_at_validation-Returns :
      (timeout : ℕ)
      → Returns (IsFinished HasPassed) (look_at_validation opts validation_id profile timeout)
  unfolding look_at_validation
  look_at_validation-Returns timeout =
      Returns-after (validation_status opts validation_id profile) _ λ info.
        Returns-after (lift (get info "executionStatus" null)) _ λ execution.
          Returns-bind (lift (get info "status" null)) _
            (Returns-lift {P = λ status. get info "status" null ≡ ok status} _ (λ status e. e))
            λ status e.
              Returns-if (not (is_busy (execution or status))) _ _ (λ _. judged info status e)
                (λ _. search returns_rules)

  -- A validation that `wait_validation` returns has passed: its `resultStatus`, or its `status` where
  -- there is none, is SUCCEEDED, COMPLETED or PASSED.
  pub wait_validation_ok :
      (timeout poll : ℕ) (w : World E.State) (info : Json)
      → (wait_validation opts validation_id profile timeout poll w).0 ≡ ok info
      → HasPassed info
  unfolding wait_validation
  wait_validation_ok timeout poll =
      (poll_until-Returns _ (look_at_validation-Returns timeout) timeout poll).at
