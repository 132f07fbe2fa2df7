-- ===== src/VlcmState/DryRun.antt =====
-- The states of states/vcf_esxi_vlcm.py under `test=True`: nothing is changed on vCenter.
use saltext_vmware.Base.{String, ◌≡◌, sym, ◌∙◌, true, Option}
use saltext_vmware.Base.{◌⊎◌, inl, inr}
use saltext_vmware.Json.{Json, null, truthy}
use saltext_vmware.Http.{Exc, ok, get}
use saltext_vmware.Exec.{Env, World, Exec, lift, ◌>>=◌}
use saltext_vmware.Exec.Keeps.{
  Keeps, keeps_rules, Keeps-bind, Keeps-pure, Keeps-catch, Keeps-bind-lift,
}
use saltext_vmware.Vcenter.Reading.{OnlyReads, reads, api_get-Keeps}
use saltext_vmware.Vlcm.Depots.{online_depot_list, offline_depot_list}
use saltext_vmware.Vlcm.Images.{desired_image_get, drafts_list, draft_get}
use saltext_vmware.PatchState.Ret.{Ret}
use saltext_vmware.VlcmState.Attempt.{proceed, try_or_fail}
use saltext_vmware.VlcmState.Depot.{
  DepotArgs, existing_depots, match_depot, depot_unless_test, depot_unless_there, depot_at,
  depot_configured,
}
use saltext_vmware.VlcmState.Image.{
  set_image, after_draft, reuse_version, reuse_draft, delete_unless_test, delete_draft,
  settle_draft, image_unless_current, image_for, image_given, image_configured,
}
use saltext_vmware.VlcmState.Importing.{ImageArgs, ImageGoal}

module _ ⦃E : Env⦄ where
  pub try_or_fail-Reads :
      {A : Type 0} (ret : Ret) (m : Exec A) (rest : A → Exec Ret)
      → Keeps OnlyReads m
      → ((a : A) → Keeps OnlyReads (rest a))
      → Keeps OnlyReads (try_or_fail ret m rest)
  unfolding try_or_fail proceed
  try_or_fail-Reads {A} ret m rest k k' =
      Keeps-bind _ _ (Keeps-catch _ _ (Keeps-bind _ _ k (λ a. Keeps-pure _)) (λ e. Keeps-pure _))
        proceeded
    where
      proceeded : (tried : Exc ⊎ A) → Keeps OnlyReads (proceed ret rest tried)
      proceeded (inl e) = search keeps_rules
      proceeded (inr a) = k' a

module _ ⦃E : Env⦄ (opts : Json) (profile : Option String) (test : Json)
    (configured : get opts "test" null ≡ ok test) (dry : truthy test ≡ true) where
  tested :
      {A : Type 0} (f : Json → Exec A)
      → Keeps OnlyReads (f test)
      → Keeps OnlyReads (lift (get opts "test" null) >>= f)
  tested f k = Keeps-bind-lift (get opts "test" null) f λ a e. same a (sym e ∙ configured)
    where
      same : (a : Json) → ok a ≡ ok test → Keeps OnlyReads (f a)
      same a e = let e' : a ≡ test = cc in rw e' k

  depot_unless_test-Reads :
      (ret : Ret) (args : DepotArgs) (kind cfg location : Json)
      → Keeps OnlyReads (depot_unless_test opts profile ret args kind cfg location test)
  unfolding depot_unless_test
  depot_unless_test-Reads ret args kind cfg location = rw dry (search keeps_rules)

  depot_unless_there-Reads :
      (ret : Ret) (args : DepotArgs) (kind cfg location : Json) (found : Option Json)
      → Keeps OnlyReads (depot_unless_there opts profile ret args kind cfg location found)
  unfolding depot_unless_there
  depot_unless_there-Reads ret args kind cfg location found =
      search (keeps_rules, tested, depot_unless_test-Reads) depth 8

  match_depot-Reads :
      (kind location : Json) → Keeps OnlyReads (match_depot opts profile kind location)
  unfolding match_depot existing_depots online_depot_list offline_depot_list
  match_depot-Reads kind location = search (keeps_rules, reads, api_get-Keeps) depth 8

  depot_at-Reads :
      (ret : Ret) (args : DepotArgs) (kind cfg location : Json)
      → Keeps OnlyReads (depot_at opts profile ret args kind cfg location)
  unfolding depot_at
  depot_at-Reads ret args kind cfg location =
      search (keeps_rules, try_or_fail-Reads, match_depot-Reads, depot_unless_there-Reads) depth 8

  depot_configured-Reads :
      (name : String) (args : DepotArgs) → Keeps OnlyReads (depot_configured opts profile name args)
  unfolding depot_configured
  depot_configured-Reads name args = search (keeps_rules, depot_at-Reads) depth 8

  -- Under `test=True`, if only reads were sent before `depot_configured`, only reads have been
  -- sent after it, whether the depot is there or not.
  pub depot_configured_dry :
      (name : String) (args : DepotArgs) (w : World E.State)
      → OnlyReads w.sent
      → OnlyReads (depot_configured opts profile name args w).1.sent
  depot_configured_dry name args = (depot_configured-Reads name args).at

  set_image-Reads :
      (ret : Ret) (args : ImageArgs) (goal : ImageGoal) (draft_id : Json)
      → Keeps OnlyReads (set_image opts profile ret args goal draft_id test)
  unfolding set_image
  set_image-Reads ret args goal draft_id = rw dry (search keeps_rules)

  after_draft-Reads :
      (ret : Ret) (args : ImageArgs) (goal : ImageGoal) (draft_id : Json)
      → Keeps OnlyReads (after_draft opts profile ret args goal draft_id)
  unfolding after_draft
  after_draft-Reads ret args goal draft_id = tested _ (set_image-Reads ret args goal draft_id)

  reuse_draft-Reads :
      (ret : Ret) (args : ImageArgs) (goal : ImageGoal) (existing : Json)
      → Keeps OnlyReads (reuse_draft opts profile ret args goal existing)
  unfolding reuse_draft reuse_version draft_get
  reuse_draft-Reads ret args goal existing =
      search (keeps_rules, reads, try_or_fail-Reads, api_get-Keeps, after_draft-Reads) depth 12

  delete_unless_test-Reads :
      (ret : Ret) (args : ImageArgs) (goal : ImageGoal) (existing : Json)
      → Keeps OnlyReads (delete_unless_test opts profile ret args goal existing test)
  unfolding delete_unless_test
  delete_unless_test-Reads ret args goal existing = rw dry (search keeps_rules)

  settle_draft-Reads :
      (ret : Ret) (args : ImageArgs) (goal : ImageGoal) (existing : Json)
      → Keeps OnlyReads (settle_draft opts profile ret args goal existing)
  unfolding settle_draft delete_draft
  settle_draft-Reads ret args goal existing =
      search (keeps_rules, tested, after_draft-Reads, reuse_draft-Reads, delete_unless_test-Reads)
        depth 8

  image_for-Reads :
      (ret : Ret) (args : ImageArgs) (cluster spec : Json)
      → Keeps OnlyReads (image_for opts profile ret args cluster spec)
  unfolding image_for image_unless_current desired_image_get drafts_list
  image_for-Reads ret args cluster spec =
      search (keeps_rules, reads, try_or_fail-Reads, api_get-Keeps, settle_draft-Reads) depth 12

  image_configured-Reads :
      (name : String) (args : ImageArgs) → Keeps OnlyReads (image_configured opts profile name args)
  unfolding image_configured image_given
  image_configured-Reads name args = search (keeps_rules, image_for-Reads) depth 8

  -- Under `test=True`, if only reads were sent before `image_configured`, only reads have been
  -- sent after it, whatever is to be done with an existing draft: no draft is deleted, imported,
  -- validated or committed.
  pub image_configured_dry :
      (name : String) (args : ImageArgs) (w : World E.State)
      → OnlyReads w.sent
      → OnlyReads (image_configured opts profile name args w).1.sent
  image_configured_dry name args = (image_configured-Reads name args).at
