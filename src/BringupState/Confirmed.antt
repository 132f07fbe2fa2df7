-- ===== src/BringupState/Confirmed.antt =====
-- What a result `True` of `complete` means.
use saltext_vmware.Base.{String, ◌≡◌, ◌≢◌, refl, sym, ap, ◌∙◌, ◌⊎◌, inl, inr, true, false, not}
use saltext_vmware.Base.{Option, none, some}
use saltext_vmware.Json.{Json, null, empty, truthy}
use saltext_vmware.Http.{Exc, ok, get}
use saltext_vmware.Exec.{Env, World, Exec, lift, pure, ◌>>=◌}
use saltext_vmware.Exec.Ensures.{
  Ensures, Ensures-pure, Ensures-raise, Ensures-if, Ensures-split, Ensures-after, Ensures-bind,
  Ensures-known, Ensures-catch,
}
use saltext_vmware.Exec.Runs.{paired, bind-eq-ok, lift-bind-eq-ok}
use saltext_vmware.PatchState.Ret.{Ret}
use saltext_vmware.Installer.Bringup.{is_complete, is_busy, wait_bringup, submit}
use saltext_vmware.Installer.Outcomes.{wait_bringup_ok}
use saltext_vmware.BringupState.Steps.{
  Waited, completed, gave_up, is_wait_error, failed_wait, await, find_active, validated,
}
use saltext_vmware.BringupState.Complete.{
  Goal, sddc_changes, after_bringup, await_bringup, join_running, reuse, submit_new, is_valid,
  submit_if_valid, validate_and_submit, start_new, reuse_or_start, complete,
}

module _ ⦃E : Env⦄ (opts : Json) (goal : Goal) where
  -- The bringup is the one that was found from `w`, or the one that the submission answered with.
  abbrev pub IsOwn : World E.State → Json → Type 0
  IsOwn w sddc_id =
      (info : Json) × (get info "id" null ≡ ok sddc_id)
      × (((find_active opts goal.profile w).0 ≡ ok (some info))
          ⊎ ((v : World E.State) × ((submit opts goal.spec goal.profile v).0 ≡ ok info)))

  -- The last that was done is the wait for this bringup, which has read a status of success; the
  -- changes hold the bringup and this status.
  abbrev pub HasWaited : World E.State → Ret → World E.State → Type 0
  HasWaited w r w' =
      (sddc_id : Json) × (before : World E.State) × (final : Json) × (status : Json) × (wait_bringup
          opts sddc_id goal.profile goal.timeout 60 before
        ≡ (ok final, w'))
      × (get final "status" null ≡ ok status)
      × (is_complete status ≡ true)
      × (r.changes ≡ sddc_changes sddc_id status)
      × IsOwn w sddc_id

  -- There are no changes, and the bringup that was found from `w` has a status of success.
  abbrev pub WasComplete : World E.State → Ret → Type 0
  WasComplete w r =
      (existing : Json) × (status : Json) × ((find_active opts goal.profile w).0
        ≡ ok (some existing))
      × (get existing "status" null ≡ ok status)
      × (is_complete status ≡ true)
      × (r.changes ≡ empty)

  abbrev Confirmed : World E.State → Ret → World E.State → Type 0
  Confirmed w r w' = r.result ≡ some true → WasComplete w r ⊎ HasWaited w r w'

  abbrev HasEnded : Json → Waited → World E.State → Type 0
  HasEnded sddc_id (completed final) w' =
      (before : World E.State) × (wait_bringup opts sddc_id goal.profile goal.timeout 60 before
        ≡ (ok final, w'))
  HasEnded sddc_id (gave_up failed) w' = failed.result ≡ some false

  failed_wait-HasEnded :
      (sddc_id : Json) (ret : Ret) (what : String) (e : Exc)
      → Ensures (HasEnded sddc_id) (failed_wait ret what e)
  unfolding failed_wait
  failed_wait-HasEnded sddc_id ret what e =
      Ensures-if (is_wait_error e) _ _ (Ensures-pure _ (λ w. refl)) (Ensures-raise e)

  waited-HasEnded :
      (sddc_id : Json)
      → Ensures (HasEnded sddc_id) (
          wait_bringup opts sddc_id goal.profile goal.timeout 60 >>= λ final.
          pure (completed final))
  unfolding pure ◌>>=◌
  waited-HasEnded sddc_id =
      let wait : Exec Json = wait_bringup opts sddc_id goal.profile goal.timeout 60 in
      Ensures-bind {Q = λ final w'. (before : World E.State) × (wait before ≡ (ok final, w'))} wait
        _ (record { at = λ w final p. (w, paired wait w p) })
        λ final w b ran p. let same : completed final ≡ b = cc in rw (sym same) ran

  await-HasEnded :
      (ret : Ret) (what : String) (sddc_id : Json)
      → Ensures
          (HasEnded sddc_id)
          (await ret what (wait_bringup opts sddc_id goal.profile goal.timeout 60))
  unfolding await
  await-HasEnded ret what sddc_id =
      Ensures-catch _ (failed_wait ret what) (waited-HasEnded sddc_id)
        (failed_wait-HasEnded sddc_id ret what)

  after_bringup-HasWaited :
      (ret : Ret) (sddc_id : Json) (comment : String) (waited : Waited) (start w : World E.State)
      (r : Ret)
      → IsOwn start sddc_id
      → HasEnded sddc_id waited w
      → (after_bringup opts goal ret sddc_id comment waited w).0 ≡ ok r
      → r.result ≡ some true
      → HasWaited start r (after_bringup opts goal ret sddc_id comment waited w).1
  unfolding after_bringup pure
  after_bringup-HasWaited ret sddc_id comment (gave_up failed) start w r own lost p won =
      let same : failed ≡ r = cc in
      let result : failed.result ≡ r.result = ap (λ f. f.result) same in cc
  after_bringup-HasWaited ret sddc_id comment (completed final) start w r own (before, ran) p won =
      let m = after_bringup opts goal ret sddc_id comment (completed final) in
      let (status, s, e) = lift-bind-eq-ok (get final "status" null) _ (paired m w p) in
      let made : Ret = record ret { changes = sddc_changes sddc_id status; comment = comment } in
      let same : made ≡ r = cc in
      let there : w ≡ (m w).1 = cc in
      let (state, s', good) =
        wait_bringup_ok opts sddc_id goal.profile goal.timeout 60 before final
          (ap (λ q. q.0) ran) in
      let one : state ≡ status = cc in
      (
        sddc_id,
        before,
        final,
        status,
        ran ∙ ap (λ v. (ok final, v)) there,
        s,
        rw one at good,
        ap (λ v. v.changes) (sym same),
        own,
      )

  module _ (w : World E.State) where
    await_bringup-Confirmed :
        (ret : Ret) (sddc_id : Json) (comment : String)
        → IsOwn w sddc_id
        → Ensures (Confirmed w) (await_bringup opts goal ret sddc_id comment)
    unfolding await_bringup
    await_bringup-Confirmed ret sddc_id comment own =
        Ensures-bind (await ret _ _) _ (await-HasEnded ret _ sddc_id) λ waited v r h p won.
          inr (after_bringup-HasWaited ret sddc_id comment waited w v r own h p won)

    module _ (waits : goal.wait ≡ true) where
      impatient : not goal.wait ≢ true
      impatient h = let h' = rw waits at h in cc

      join_running-Confirmed :
          (sddc_id : Json)
          → IsOwn w sddc_id
          → Ensures (Confirmed w) (join_running opts goal sddc_id)
      unfolding join_running
      join_running-Confirmed sddc_id own = Ensures-after (lift (get opts "test" null)) _ λ test.
          Ensures-if (truthy test) _ _ (Ensures-pure _ (λ v e. cc)) (
            Ensures-split (not goal.wait) _ _ (λ h. absurd (impatient h))
              (λ _. await_bringup-Confirmed _ sddc_id "bringup completed" own))

      reuse-Confirmed :
          (existing : Json)
          → (find_active opts goal.profile w).0 ≡ ok (some existing)
          → Ensures (Confirmed w) (reuse opts goal existing)
      unfolding reuse
      reuse-Confirmed existing found = Ensures-known (get existing "status" null) _ λ state s.
          Ensures-known (get existing "id" null) _ λ sddc_id i.
            Ensures-split (is_complete state) _ _
              (λ done. Ensures-pure _ (λ v e. inl (existing, state, found, s, done, refl)))
              λ _.
                Ensures-if (is_busy state) _ _
                  (join_running-Confirmed sddc_id (existing, i, inl found))
                  (Ensures-pure _ (λ v e. cc))

      submit_new-Confirmed : Ensures (Confirmed w) (submit_new opts goal)
      unfolding submit_new
      submit_new-Confirmed =
          let post = submit opts goal.spec goal.profile in
          Ensures-bind {Q = λ info u. (v : World E.State) × ((post v).0 ≡ ok info)} post _
            (record { at = λ v info p. (v, p) })
            λ info u r (v, posted).
              (Ensures-known (get info "id" null) _ λ sddc_id i.
                  Ensures-split (not goal.wait) _ _ (λ h. absurd (impatient h))
                    (λ _. await_bringup-Confirmed _ sddc_id _ (info, i, inr (v, posted)))).at
                u r

      submit_if_valid-Confirmed :
          (checked : Ret) → Ensures (Confirmed w) (submit_if_valid opts goal checked)
      unfolding submit_if_valid is_valid
      submit_if_valid-Confirmed checked =
          Ensures-split (not (is_valid opts goal checked)) _ _
            (λ invalid. Ensures-pure checked (λ v e. let bad = rw e at invalid in cc))
            (λ _. submit_new-Confirmed)

      reuse_or_start-Confirmed :
          (found : Option Json)
          → (find_active opts goal.profile w).0 ≡ ok found
          → Ensures (Confirmed w) (reuse_or_start opts goal found)
      unfolding reuse_or_start start_new validate_and_submit
      reuse_or_start-Confirmed (some existing) found = reuse-Confirmed existing found
      reuse_or_start-Confirmed none found = Ensures-after (lift (get opts "test" null)) _ λ test.
          Ensures-if (truthy test) _ _ (Ensures-pure _ (λ v e. cc)) (
            Ensures-if goal.validate_first _ _
              (Ensures-after (validated opts _ goal.spec true 1800 goal.profile) _
                submit_if_valid-Confirmed)
              submit_new-Confirmed)

  -- With `wait` set, a result `True` of `complete` means that a bringup succeeded: either there are no
  -- changes, and the bringup that `complete` found at first has a status of success; or the last
  -- that it did was to wait for a bringup, the one that it found or the one that a submission of
  -- the spec answered with, the wait has read a status of success, and the changes hold that
  -- bringup and this status.
  pub complete-HasWaited :
      (w w' : World E.State) (r : Ret)
      → goal.wait ≡ true
      → complete opts goal w ≡ (ok r, w')
      → r.result ≡ some true
      → WasComplete w r ⊎ HasWaited w r w'
  unfolding complete
  complete-HasWaited w w' r waits e won =
      let (found, f, rest) = bind-eq-ok (find_active opts goal.profile) _ e in
      let v = (find_active opts goal.profile w).1 in
      let ended =
        (reuse_or_start-Confirmed w waits found (ap (λ q. q.0) f)).at v r (ap (λ q. q.0) rest)
          won in
      rw (ap (λ q. q.1) rest) at ended
