-- ===== src/BringupState/Ending.antt =====
-- `validated` and `complete` return or raise.
use saltext_vmware.Base.{ℕ, String, ◌≢◌, Bool, Option, none, some, List, [], ◌∷◌}
use saltext_vmware.Json.{Json, null, truthy}
use saltext_vmware.Http.{out_of_fuel}
use saltext_vmware.Exec.{Env, IsClock, World, Exec}
use saltext_vmware.Exec.Total.{
  IsTotal, total_rules, bind-IsTotal, catch-IsTotal, if-IsTotal, pure-IsTotal,
}
use saltext_vmware.PatchState.Ret.{Ret}
use saltext_vmware.Sddc.Ending.{get-IsTotal, iterate-IsTotal}
use saltext_vmware.Installer.Api.{api_get, api_post}
use saltext_vmware.Installer.Bringup.{validate, submit, list_bringups, is_busy}
use saltext_vmware.Installer.Ending.{request-IsTotal, wait_bringup-IsTotal, wait_validation-IsTotal}
use saltext_vmware.BringupState.Steps.{
  Waited, completed, gave_up, first_busy, first_or_busy, pick_active, list_or_none, find_active,
  failed_wait, await, after_validation, await_validation, validated,
}
use saltext_vmware.BringupState.Complete.{
  Goal, after_bringup, await_bringup, join_running, reuse, submit_new, submit_if_valid,
  validate_and_submit, start_new, reuse_or_start, complete,
}

module _ ⦃E : Env⦄ (c : IsClock E) (opts : Json) where
  first_busy-IsTotal : (first : Json) (ts : List Json) → IsTotal (first_busy opts first ts)
  unfolding first_busy
  first_busy-IsTotal first [] = pure-IsTotal _
  first_busy-IsTotal first (t ∷ ts) =
      bind-IsTotal _ _ (get-IsTotal t "status" null)
        λ status. if-IsTotal (is_busy status) _ _ (pure-IsTotal _) (first_busy-IsTotal first ts)

  first_or_busy-IsTotal : (ts : List Json) → IsTotal (first_or_busy opts ts)
  unfolding first_or_busy
  first_or_busy-IsTotal [] = pure-IsTotal _
  first_or_busy-IsTotal (t ∷ ts) = first_busy-IsTotal t (t ∷ ts)

  find_active-IsTotal : (profile : Option String) → IsTotal (find_active opts profile)
  unfolding find_active list_or_none pick_active list_bringups api_get
  find_active-IsTotal profile =
      search (total_rules, request-IsTotal c, iterate-IsTotal, first_or_busy-IsTotal) depth 14

  await-IsTotal :
      (ret : Ret) (what : String) (m : Exec Json) → IsTotal m → IsTotal (await ret what m)
  unfolding await failed_wait
  await-IsTotal ret what m h =
      catch-IsTotal _ (failed_wait ret what) (bind-IsTotal m _ h (λ final. pure-IsTotal _))
        (λ e. search total_rules)

  after_validation-IsTotal :
      (ret : Ret) (val_id : Json) (waited : Waited)
      → IsTotal (after_validation opts ret val_id waited)
  unfolding after_validation
  after_validation-IsTotal ret val_id (gave_up failed) = pure-IsTotal failed
  after_validation-IsTotal ret val_id (completed final) = search (total_rules, get-IsTotal) depth 6

  await_validation-IsTotal :
      (ret : Ret) (val_id : Json) (timeout : ℕ) (profile : Option String)
      → IsTotal (await_validation opts ret val_id timeout profile)
  unfolding await_validation
  await_validation-IsTotal ret val_id timeout profile =
      bind-IsTotal _ _ (get-IsTotal opts "test" null) λ test.
        if-IsTotal (truthy test) _ _ (pure-IsTotal _) (
          bind-IsTotal _ _
            (await-IsTotal ret _ _ (wait_validation-IsTotal c opts val_id profile timeout))
            (after_validation-IsTotal ret val_id))

  validated-IsTotal :
      (name : String) (spec : Json) (wait : Bool) (timeout : ℕ) (profile : Option String)
      → IsTotal (validated opts name spec wait timeout profile)
  unfolding validated validate api_post
  validated-IsTotal name spec wait timeout profile =
      search (total_rules, request-IsTotal c, get-IsTotal, await_validation-IsTotal) depth 12

module _ ⦃E : Env⦄ (c : IsClock E) (opts : Json) (goal : Goal) where
  after_bringup-IsTotal :
      (ret : Ret) (sddc_id : Json) (comment : String) (waited : Waited)
      → IsTotal (after_bringup opts goal ret sddc_id comment waited)
  unfolding after_bringup
  after_bringup-IsTotal ret sddc_id comment (gave_up failed) = pure-IsTotal failed
  after_bringup-IsTotal ret sddc_id comment (completed final) =
      search (total_rules, get-IsTotal) depth 6

  await_bringup-IsTotal :
      (ret : Ret) (sddc_id : Json) (comment : String)
      → IsTotal (await_bringup opts goal ret sddc_id comment)
  unfolding await_bringup
  await_bringup-IsTotal ret sddc_id comment =
      bind-IsTotal _ _
        (await-IsTotal c opts ret _ _
          (wait_bringup-IsTotal c opts sddc_id goal.profile goal.timeout))
        (after_bringup-IsTotal ret sddc_id comment)

  reuse-IsTotal : (existing : Json) → IsTotal (reuse opts goal existing)
  unfolding reuse join_running
  reuse-IsTotal existing = search (total_rules, get-IsTotal, await_bringup-IsTotal) depth 20

  submit_new-IsTotal : IsTotal (submit_new opts goal)
  unfolding submit_new submit api_post
  submit_new-IsTotal =
      search (total_rules, request-IsTotal c, get-IsTotal, await_bringup-IsTotal) depth 12

  submit_if_valid-IsTotal : (checked : Ret) → IsTotal (submit_if_valid opts goal checked)
  unfolding submit_if_valid
  submit_if_valid-IsTotal checked = search (total_rules, submit_new-IsTotal)

  reuse_or_start-IsTotal : (found : Option Json) → IsTotal (reuse_or_start opts goal found)
  unfolding reuse_or_start start_new validate_and_submit
  reuse_or_start-IsTotal (some existing) = reuse-IsTotal existing
  reuse_or_start-IsTotal none =
      search
        (
          total_rules,
          get-IsTotal,
          validated-IsTotal c opts,
          submit_new-IsTotal,
          submit_if_valid-IsTotal,
        )
        depth 14

  -- With a clock that does not go back, `complete` returns or raises, whatever the installer answers:
  -- the fuel of its two waits is enough.
  pub complete_ends : (w : World E.State) → (complete opts goal w).0 ≢ out_of_fuel
  unfolding complete
  complete_ends w =
      ((bind-IsTotal _ _ (find_active-IsTotal c opts goal.profile) reuse_or_start-IsTotal).ends_at
        w).ends
