-- ===== src/BringupState/Bounds.antt =====
-- How many requests `complete` sends at most.
use saltext_vmware.Base.{ℕ, String, ◌+◌, ◌*◌, ◌≤◌, ◌≢◌, refl, Bool, true, not, Option, none, some}
use saltext_vmware.Base.{List, [], ◌∷◌, arith}
use saltext_vmware.Json.{Json, null, truthy}
use saltext_vmware.Http.{get, out_of_fuel}
use saltext_vmware.Exec.{Env, IsClock, World, Exec, lift}
use saltext_vmware.Exec.Costs.{
  Costs, length, costs_rules, Costs-bind, Costs-quiet, Costs-last, Costs-if, Costs-pure, Costs-lift,
  Costs-catch, Costs-le,
}
use saltext_vmware.PatchState.Ret.{Ret}
use saltext_vmware.Waiting.Counting.{poll_until-Costs}
use saltext_vmware.Installer.Api.{api_get, api_post}
use saltext_vmware.Installer.Retry.{request-Costs}
use saltext_vmware.Installer.Bringup.{
  validate, submit, list_bringups, is_busy, validation_status, validation_ended, look_at_validation,
  wait_validation, bringup_status, bringup_ended, look_at_bringup, wait_bringup,
}
use saltext_vmware.BringupState.Steps.{
  Waited, completed, gave_up, first_busy, first_or_busy, pick_active, list_or_none, find_active,
  failed_wait, await, after_validation, await_validation, validated,
}
use saltext_vmware.BringupState.Ending.{complete_ends}
use saltext_vmware.BringupState.Complete.{
  Goal, after_bringup, await_bringup, join_running, reuse, submit_new, submit_if_valid,
  validate_and_submit, start_new, reuse_or_start, complete,
}

module _ ⦃E : Env⦄ (opts : Json) where
  look_at_bringup-Costs :
      (sddc_id : Json) (profile : Option String) (timeout : ℕ)
      → Costs 4 (look_at_bringup opts sddc_id profile timeout)
  unfolding look_at_bringup bringup_status bringup_ended api_get
  look_at_bringup-Costs sddc_id profile timeout =
      Costs-last _ _ (request-Costs _ _ _ _ _ _) (λ info. search costs_rules depth 12)

  look_at_validation-Costs :
      (validation_id : Json) (profile : Option String) (timeout : ℕ)
      → Costs 4 (look_at_validation opts validation_id profile timeout)
  unfolding look_at_validation validation_status validation_ended api_get
  look_at_validation-Costs validation_id profile timeout =
      Costs-last _ _ (request-Costs _ _ _ _ _ _) (λ info. search costs_rules depth 16)

  first_busy-Costs : (first : Json) (ts : List Json) → Costs 0 (first_busy opts first ts)
  unfolding first_busy
  first_busy-Costs first [] = Costs-pure _
  first_busy-Costs first (t ∷ ts) =
      Costs-quiet (lift (get t "status" null)) _ (Costs-lift _)
        λ status. Costs-if (is_busy status) _ _ (Costs-pure _) (first_busy-Costs first ts)

  first_or_busy-Costs : (ts : List Json) → Costs 0 (first_or_busy opts ts)
  unfolding first_or_busy
  first_or_busy-Costs [] = Costs-pure _
  first_or_busy-Costs (t ∷ ts) = first_busy-Costs t (t ∷ ts)

  find_active-Costs : (profile : Option String) → Costs 4 (find_active opts profile)
  unfolding find_active list_or_none pick_active list_bringups api_get
  find_active-Costs profile =
      Costs-last _ _ (Costs-catch _ _ (request-Costs _ _ _ _ _ _) (λ e. Costs-pure _))
        (λ tasks. search (costs_rules, first_or_busy-Costs) depth 8)

  await-Costs :
      {n : ℕ} (ret : Ret) (what : String) (m : Exec Json) → Costs n m → Costs n (await ret what m)
  unfolding await failed_wait
  await-Costs ret what m h =
      Costs-catch _ (failed_wait ret what) (Costs-last m _ h (λ final. Costs-pure _))
        (λ e. search costs_rules)

  after_validation-Costs :
      (ret : Ret) (val_id : Json) (waited : Waited)
      → Costs 0 (after_validation opts ret val_id waited)
  unfolding after_validation
  after_validation-Costs ret val_id (gave_up failed) = Costs-pure failed
  after_validation-Costs ret val_id (completed final) = search costs_rules depth 6

  validated-Costs :
      (name : String) (spec : Json) (wait : Bool) (timeout : ℕ) (profile : Option String)
      → Costs (4 + 4 * (timeout + 1)) (validated opts name spec wait timeout profile)
  unfolding validated validate api_post await_validation wait_validation
  validated-Costs name spec wait timeout profile =
      Costs-bind 4 (4 * (timeout + 1)) _ _ refl (request-Costs _ _ _ _ _ _) λ val.
        Costs-quiet (lift (get val "id" null)) _ (Costs-lift _) λ val_id.
          Costs-if (not wait) _ _ (Costs-pure _) (
            Costs-quiet (lift (get opts "test" null)) _ (Costs-lift _) λ test.
              Costs-if (truthy test) _ _ (Costs-pure _) (
                Costs-last _ _
                  (await-Costs _ _ _ (
                    poll_until-Costs _ 4 (look_at_validation-Costs val_id profile timeout) timeout
                      10))
                  (after_validation-Costs _ val_id)))

module _ ⦃E : Env⦄ (opts : Json) (goal : Goal) where
  after_bringup-Costs :
      (ret : Ret) (sddc_id : Json) (comment : String) (waited : Waited)
      → Costs 0 (after_bringup opts goal ret sddc_id comment waited)
  unfolding after_bringup
  after_bringup-Costs ret sddc_id comment (gave_up failed) = Costs-pure failed
  after_bringup-Costs ret sddc_id comment (completed final) = search costs_rules depth 6

  await_bringup-Costs :
      (ret : Ret) (sddc_id : Json) (comment : String)
      → Costs (4 * (goal.timeout + 1)) (await_bringup opts goal ret sddc_id comment)
  unfolding await_bringup wait_bringup
  await_bringup-Costs ret sddc_id comment =
      Costs-last _ _
        (await-Costs opts ret _ _ (
          poll_until-Costs _ 4 (look_at_bringup-Costs opts sddc_id goal.profile goal.timeout)
            goal.timeout 60))
        (after_bringup-Costs ret sddc_id comment)

  reuse-Costs : (existing : Json) → Costs (4 * (goal.timeout + 1)) (reuse opts goal existing)
  unfolding reuse join_running
  reuse-Costs existing = search (costs_rules, await_bringup-Costs) depth 20

  submit_new-Costs : Costs (4 + 4 * (goal.timeout + 1)) (submit_new opts goal)
  unfolding submit_new submit api_post
  submit_new-Costs =
      Costs-bind 4 (4 * (goal.timeout + 1)) _ _ refl (request-Costs _ _ _ _ _ _)
        λ submitted. search (costs_rules, await_bringup-Costs) depth 8

  start_new-Costs : Costs (7212 + 4 * (goal.timeout + 1)) (start_new opts goal)
  unfolding start_new validate_and_submit submit_if_valid
  start_new-Costs = Costs-quiet (lift (get opts "test" null)) _ (Costs-lift _) λ test.
      Costs-if (truthy test) _ _ (Costs-pure _) (
        Costs-if goal.validate_first _ _
          (Costs-bind 7208 (4 + 4 * (goal.timeout + 1)) _ _ (omega arith)
            (validated-Costs opts _ goal.spec true 1800 goal.profile)
            (λ checked. search (costs_rules, submit_new-Costs)))
          (Costs-le (omega arith) submit_new-Costs))

  reuse_or_start-Costs :
      (found : Option Json) → Costs (7212 + 4 * (goal.timeout + 1)) (reuse_or_start opts goal found)
  unfolding reuse_or_start
  reuse_or_start-Costs none = start_new-Costs
  reuse_or_start-Costs (some existing) = Costs-le (omega arith) (reuse-Costs existing)

  -- With a clock that does not go back, a run of `complete` ends, within the fuel of its two waits, and
  -- has then sent at most 7216 requests and four for each unit of its timeout and one more: four
  -- for the list of bringups, the submission and each poll, where the validation is polled for 1800
  -- units at most.
  pub complete_at_most :
      (c : IsClock E) (w : World E.State)
      → ((complete opts goal w).0 ≢ out_of_fuel)
        × (length (complete opts goal w).1.sent ≤ 7216 + 4 * (goal.timeout + 1) + length w.sent)
  unfolding complete
  complete_at_most c w = (
    complete_ends c opts goal w,
    (Costs-bind 4 (7212 + 4 * (goal.timeout + 1)) _ _ (omega arith)
          (find_active-Costs opts goal.profile) reuse_or_start-Costs).at
        w,
  )
