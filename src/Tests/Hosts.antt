-- ===== src/Tests/Hosts.antt =====
-- states/vcf_esxi_vlcm.py over the scripted machine.
use saltext_vmware.Json.{cons}
use saltext_vmware.Vlcm.Depots.{online_depot_list, offline_depot_list}
use saltext_vmware.VlcmState.Values.{entries}
use saltext_vmware.VlcmState.Depot.{existing_depots, match_depot}
use saltext_vmware.VlcmState.Present.{depot_configured_present}
use saltext_vmware.Base.{◌≡◌, ◌↔◌, ap, some}
use saltext_vmware.Json.{Fields, num}
use saltext_vmware.Base.{String, refl, true, false, none, [], ◌∷◌}
use saltext_vmware.Json.{Json, null, bool, str, arr, obj, nil, field, end, empty}
use saltext_vmware.Json.Equal.{equal}
use saltext_vmware.Http.{Result, ok}
use saltext_vmware.Exec.{World}
use saltext_vmware.Vcenter.Api.{api_post}
use saltext_vmware.Vcenter.Reading.{OnlyReads}
use saltext_vmware.Vlcm.Images.{
  cluster_path, desired_image_get, drafts_list, draft_path, draft_import_software_spec,
  draft_validate, draft_commit,
}
use saltext_vmware.Vlcm.Lifecycle.{task_id, seconds, wait_for_task}
use saltext_vmware.PatchState.Ret.{fail, guarded, option_or}
use saltext_vmware.VlcmState.Settings.{pillar_section, keyword_or, task_settings}
use saltext_vmware.VlcmState.Values.{find_depot, base_version, first_draft_id}
use saltext_vmware.VlcmState.Attempt.{proceed, try_or_fail}
use saltext_vmware.VlcmState.Depot.{DepotArgs, depot_configured}
use saltext_vmware.VlcmState.Image.{
  set_image, after_draft, settle_draft, image_unless_current, image_for, image_given,
  image_configured,
}
use saltext_vmware.VlcmState.Importing.{
  ImageArgs, differs, image_set, not_landed, verify_image, commit_draft, validate_draft,
  import_draft, with_draft,
}
use saltext_vmware.VlcmState.DryRun.{depot_configured_dry, image_configured_dry}
use saltext_vmware.VlcmState.Landing.{Landed}
use saltext_vmware.VlcmState.Landed.{image_configured-Landed}
use saltext_vmware.VlcmState.Finding.{IsListed, find_depot-some}
use saltext_vmware.Vlcm.Images.{apply_policy_get}
use saltext_vmware.VlcmState.Policy.{
  changed, policy_diff, insert_text, sorted_keys, update_unless_test, update_changed,
  compare_policy, policy_given, spec_or_pillar, policy_configured,
}
use saltext_vmware.VlcmState.Matching.{Matches, changed-end, policy_configured_matching}
use saltext_vmware.Tests.Machine.{Script, machine, success, connected, options, test_options}
use saltext_vmware.Tests.Connection.{opened}

-- Opens what a run of `image_configured` needs.
unfoldable hosts : Json → Result Json
unfolding entries existing_depots match_depot online_depot_list offline_depot_list apply_policy_get
    spec_or_pillar policy_given compare_policy policy_diff changed update_changed update_unless_test
    insert_text sorted_keys policy_configured opened api_post cluster_path desired_image_get
    drafts_list draft_path draft_import_software_spec draft_validate draft_commit task_id seconds
    wait_for_task fail guarded option_or pillar_section keyword_or task_settings find_depot
    base_version first_draft_id proceed try_or_fail differs image_set not_landed verify_image
    commit_draft validate_draft import_draft with_draft set_image after_draft settle_draft
    image_unless_current image_for image_given image_configured equal
hosts opts = pillar_section opts "image"

abbrev depot_args : DepotArgs
depot_args = record {
  depot_type = null;
  location = str "http://repo/depot.zip";
  source_type = null;
  enabled = bool true;
  description = null;
  ownerdata = null;
  kwargs = end;
}

depot_configured_dry_example :
    OnlyReads
      (depot_configured test_options none "depot" depot_args
        (connected 0 [] (success (arr nil) ∷ []))).1.sent
depot_configured_dry_example =
    depot_configured_dry test_options none (bool true) refl refl "depot" depot_args
      (connected 0 [] (success (arr nil) ∷ [])) tt

abbrev image : String → Json
image version = obj (field "base_image" (obj (field "version" (str version) end)) end)

abbrev image_args : ImageArgs
image_args = record {
  cluster_id = null;
  image_spec = image "9.2";
  display_name = null;
  existing_draft_action = str "delete";
  validate = bool false;
  commit = bool true;
  commit_message = null;
  kwargs = end;
}

-- The old image, a draft that is in the way
abbrev old_draft : World Script
old_draft = connected 0 [] (success (image "9.1") ∷ success (obj (field "7" (obj end) end)) ∷ [])

image_configured_dry_example :
    OnlyReads (image_configured test_options none "domain-c9" image_args old_draft).1.sent
image_configured_dry_example =
    image_configured_dry test_options none (bool true) refl refl "domain-c9" image_args old_draft tt

abbrev done_task : Json
done_task = obj (field "status" (str "SUCCEEDED") end)

-- No draft, an import, a commit with its task, and the new image
abbrev upgraded : World Script
upgraded = connected 0 [] (
    success (image "9.1")
    ∷ success (arr nil)
    ∷ success empty
    ∷ success (obj (field "8" (obj end) end))
    ∷ success (str "task-1")
    ∷ success done_task
    ∷ success (image "9.2")
    ∷ [])

image_configured-Landed_example :
    Landed options none
      (str "domain-c9")
      (str "9.2")
      (image_configured options none "domain-c9" image_args upgraded).1
unfolding hosts
image_configured-Landed_example =
    image_configured-Landed options none "domain-c9" image_args empty (image "9.2") (str "9.2")
      upgraded _ refl refl refl refl refl refl refl refl

abbrev depot : String → Json
depot location = obj (field "location" (str location) end)

find_depot-some_run : IsListed (str "b") (depot "a" ∷ depot "b" ∷ []) (depot "b")
unfolding hosts
find_depot-some_run = find_depot-some (str "b") (depot "b") (depot "a" ∷ depot "b" ∷ []) refl

abbrev policy : Fields
policy = field "enable_quick_boot" (bool true) (field "other" (num 3) end)

abbrev spec : Fields
spec = field "enable_quick_boot" (bool true) end

changed-end_run : (changed policy spec ≡ end) ↔ Matches policy spec
changed-end_run = changed-end policy spec

policy_configured_matching_example :
    (policy_configured options none "domain-c9" null
      (obj spec)
      (connected 0 [] (success (obj policy) ∷ []))).0
    ≡ ok (record {
      name = "domain-c9";
      changes = empty;
      result = some true;
      comment = "cluster domain-c9 apply policy already matches";
    })
unfolding hosts
policy_configured_matching_example =
    ap (λ p. p.0)
      (policy_configured_matching options none "domain-c9" null (obj spec) spec policy
        (connected 0 [] (success (obj policy) ∷ [])) _ refl refl refl (refl, tt))

-- What the dry run of a policy that differs says
policy_differs :
    (policy_configured test_options none "domain-c9" null
      (obj (field "b" null (field "a" (num 1) (field "c" (num 2) end))))
      (connected 0 [] (success (obj (field "c" (num 2) end)) ∷ []))).0
    ≡ ok (record {
      name = "domain-c9";
      changes = obj (field "a" (num 1) end);
      result = none;
      comment = "would update cluster domain-c9 apply policy: [...]";
    })
unfolding hosts
policy_differs = refl

abbrev listed : World Script
listed = connected 0 [] (success (arr (cons (depot "http://repo/depot.zip") nil)) ∷ [])

depot_configured_present_run :
    (depot_configured options none "depot" depot_args listed).0
    ≡ ok (record {
      name = "depot";
      changes = empty;
      result = some true;
      comment = "offline depot http://repo/depot.zip already configured";
    })
unfolding hosts
depot_configured_present_run =
    ap (λ p. p.0)
      (depot_configured_present options none "depot" depot_args empty (str "http://repo/depot.zip")
        (depot "http://repo/depot.zip") listed _ refl refl refl refl refl)
