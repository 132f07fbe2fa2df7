-- ===== src/BringupState/Reusing.antt =====
-- Which requests `complete` sends.
use saltext_vmware.Base.{String, ◌≡◌, true, Option, none, some, List, [], ◌∷◌}
use saltext_vmware.Json.{Json, null, truthy}
use saltext_vmware.Http.{ok, get}
use saltext_vmware.Exec.{Env, World, Exec, lift}
use saltext_vmware.Exec.Keeps.{
  Keeps, keeps_rules, Keeps-catch, Keeps-bind, Keeps-bind-lift, Keeps-pure,
}
use saltext_vmware.Exec.Runs.{bind-ok}
use saltext_vmware.PatchState.Ret.{Ret}
use saltext_vmware.Installer.Reading.{OnlyReads, list_bringups-OnlyReads, wait_bringup-OnlyReads}
use saltext_vmware.BringupState.Steps.{Waited, completed, gave_up, first_busy, first_or_busy}
use saltext_vmware.BringupState.Steps.{pick_active, list_or_none, find_active, failed_wait, await}
use saltext_vmware.BringupState.Complete.{
  Goal, after_bringup, await_bringup, join_running, reuse, start_new, reuse_or_start, complete,
}

module _ ⦃E : Env⦄ (opts : Json) where
  first_busy-OnlyReads :
      (first : Json) (ts : List Json) → Keeps OnlyReads (first_busy opts first ts)
  unfolding first_busy
  first_busy-OnlyReads first [] = Keeps-pure _
  first_busy-OnlyReads first (t ∷ ts) =
      let rest : Keeps OnlyReads (first_busy opts first ts) = first_busy-OnlyReads first ts in
      Keeps-bind (lift (get t "status" null)) _ (search keeps_rules)
        λ status. search (keeps_rules, rest)

  first_or_busy-OnlyReads : (ts : List Json) → Keeps OnlyReads (first_or_busy opts ts)
  unfolding first_or_busy
  first_or_busy-OnlyReads [] = search keeps_rules
  first_or_busy-OnlyReads (t ∷ ts) = first_busy-OnlyReads t (t ∷ ts)

  find_active-OnlyReads : (profile : Option String) → Keeps OnlyReads (find_active opts profile)
  unfolding find_active list_or_none pick_active
  find_active-OnlyReads profile =
      search (keeps_rules, list_bringups-OnlyReads, first_or_busy-OnlyReads) depth 12

module _ ⦃E : Env⦄ (opts : Json) (goal : Goal) where
  await-OnlyReads :
      (ret : Ret) (what : String) (m : Exec Json)
      → Keeps OnlyReads m
      → Keeps OnlyReads (await ret what m)
  unfolding await failed_wait
  await-OnlyReads ret what m h =
      Keeps-catch _ (failed_wait ret what) (Keeps-bind m _ h (λ final. Keeps-pure _))
        (λ e. search keeps_rules)

  after_bringup-OnlyReads :
      (ret : Ret) (sddc_id : Json) (comment : String) (waited : Waited)
      → Keeps OnlyReads (after_bringup opts goal ret sddc_id comment waited)
  unfolding after_bringup
  after_bringup-OnlyReads ret sddc_id comment (gave_up failed) = search keeps_rules
  after_bringup-OnlyReads ret sddc_id comment (completed final) = search keeps_rules depth 8

  await_bringup-OnlyReads :
      (ret : Ret) (sddc_id : Json) (comment : String)
      → Keeps OnlyReads (await_bringup opts goal ret sddc_id comment)
  unfolding await_bringup
  await_bringup-OnlyReads ret sddc_id comment =
      Keeps-bind _ _
        (await-OnlyReads ret _ _ (wait_bringup-OnlyReads opts sddc_id goal.profile goal.timeout 60))
        (after_bringup-OnlyReads ret sddc_id comment)

  reuse-OnlyReads : (existing : Json) → Keeps OnlyReads (reuse opts goal existing)
  unfolding reuse join_running
  reuse-OnlyReads existing = search (keeps_rules, await_bringup-OnlyReads) depth 20

  -- Where the installer lists a bringup, `complete` sends only reads and logins: it does not submit
  -- a bringup, nor a validation, a second time.
  pub complete_once :
      (existing : Json) (w w' : World E.State)
      → find_active opts goal.profile w ≡ (ok (some existing), w')
      → OnlyReads w.sent
      → OnlyReads (complete opts goal w).1.sent
  unfolding complete reuse_or_start
  complete_once existing w w' e before =
      let kept = (find_active-OnlyReads opts goal.profile).at w before in
      let at_w' : OnlyReads w'.sent = rw e at kept in
      rw (bind-ok (find_active opts goal.profile) _ {w' = w'} e)
        ((reuse-OnlyReads existing).at w' at_w')

  module _ (test : Json) (asked : get opts "test" null ≡ ok test) (on : truthy test ≡ true) where
    start_new-OnlyReads : Keeps OnlyReads (start_new opts goal)
    unfolding start_new
    start_new-OnlyReads =
        Keeps-bind-lift (get opts "test" null) _
          λ t e. let on' : truthy t ≡ true = cc in rw on' (search keeps_rules)

    reuse_or_start-OnlyReads :
        (found : Option Json) → Keeps OnlyReads (reuse_or_start opts goal found)
    unfolding reuse_or_start
    reuse_or_start-OnlyReads none = start_new-OnlyReads
    reuse_or_start-OnlyReads (some existing) = reuse-OnlyReads existing

    complete-OnlyReads : Keeps OnlyReads (complete opts goal)
    unfolding complete
    complete-OnlyReads =
        Keeps-bind _ _ (find_active-OnlyReads opts goal.profile) reuse_or_start-OnlyReads

    -- With `test` set in the options, `complete` sends only reads and logins.
    pub complete_dry :
        (w : World E.State) → OnlyReads w.sent → OnlyReads (complete opts goal w).1.sent
    complete_dry = complete-OnlyReads.at
