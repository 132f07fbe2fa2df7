-- ===== src/BringupState/Steps.antt =====
-- `_find_active_sddc` and `validated` of states/vcf_installer_bringup.py.
use saltext_vmware.Base.{ℕ, String, ◌<>◌, Bool, true, false, not, Option, none, some, List, []}
use saltext_vmware.Base.{◌∷◌, if◌then◌else◌}
use saltext_vmware.Json.{Json, null, obj, end, field, truthy}
use saltext_vmware.Http.{runtime_error, timeout_error, Exc, get}
use saltext_vmware.Exec.{Env, Exec, pure, raise, lift, catch, ◌>>=◌, show}
use saltext_vmware.PatchState.Ret.{Ret, fresh}
use saltext_vmware.Sddc.Errors.{iterate}
use saltext_vmware.Installer.Bringup.{validate, wait_validation, list_bringups, is_busy}

module _ ⦃E : Env⦄ (opts : Json) where
  -- The loop over the tasks: the first that is busy, else the first of all
  unfoldable pub first_busy : Json → List Json → Exec (Option Json)
  first_busy first [] = pure (some first)
  first_busy first (t ∷ ts) = do
    status ← lift (get t "status" null)
    if is_busy status then pure (some t) else first_busy first ts

  unfoldable pub first_or_busy : List Json → Exec (Option Json)
  first_or_busy [] = pure none
  first_or_busy (t ∷ ts) = first_busy t (t ∷ ts)

  unfoldable pub pick_active : Json → Exec (Option Json)
  pick_active tasks =
      if truthy tasks then (do ts ← lift (iterate tasks); first_or_busy ts) else pure none

  unfoldable pub list_or_none : Option String → Exec Json
  list_or_none profile = catch (list_bringups opts profile) (λ e. pure null)

  unfoldable pub find_active : Option String → Exec (Option Json)
  find_active profile = do tasks ← list_or_none profile; pick_active tasks

-- `except (TimeoutError, RuntimeError)`
unfoldable pub is_wait_error : Exc → Bool
is_wait_error e = elim e.kind [ runtime_error ↦ true | timeout_error ↦ true | _ ↦ false ]

-- How a `try` around a wait ends: with its value, or with a return of the state.
pub data Waited : Type 0 where
  completed : Json → Waited
  gave_up : Ret → Waited

module _ ⦃E : Env⦄ where
  unfoldable pub failed_wait : Ret → String → Exc → Exec Waited
  failed_wait ret what e =
      if is_wait_error e
      then pure
          (gave_up (record ret { result = some false; comment = what <> " failed: " <> e.message }))
      else raise e

  unfoldable pub await : Ret → String → Exec Json → Exec Waited
  await ret what m = catch (do final ← m; pure (completed final)) (failed_wait ret what)

module _ ⦃E : Env⦄ (opts : Json) where
  unfoldable pub after_validation : Ret → Json → Waited → Exec Ret
  after_validation ret val_id (gave_up failed) = pure failed
  after_validation ret val_id (completed final) = do
    result ← lift (get final "resultStatus" null)
    pure (record ret { comment = "validation " <> show val_id <> " succeeded: " <> show result })

  unfoldable pub await_validation : Ret → Json → ℕ → Option String → Exec Ret
  await_validation ret val_id timeout profile = do
    test ← lift (get opts "test" null)
    if truthy test
        then pure
            (record ret { result = none; comment = "would wait for validation " <> show val_id })
        else (do
          waited ←
              await ret ("validation " <> show val_id)
                (wait_validation opts val_id profile timeout 10)
          after_validation ret val_id waited)

  unfoldable pub validated : String → Json → Bool → ℕ → Option String → Exec Ret
  validated name spec wait timeout profile = do
    val ← validate opts spec profile
    val_id ← lift (get val "id" null)
    let ret : Ret = record (fresh name) { changes = obj (field "validation_id" val_id end) } in
        if not wait
        then pure (record ret { comment = "validation " <> show val_id <> " submitted" })
        else await_validation ret val_id timeout profile
