-- ===== src/VlcmState/Depot.antt =====
-- `depot_configured` and `depot_synced` of states/vcf_esxi_vlcm.py.
use saltext_vmware.Base.{String, ◌<>◌, Bool, true, false, Option, none, some}
use saltext_vmware.Base.{if◌then◌else◌}
use saltext_vmware.Json.{Json, null, bool, str, arr, nil, obj, Fields, field, end, ◌or◌, truthy}
use saltext_vmware.Json.{is_text, is_dict}
use saltext_vmware.Http.{exc, value_error, ok, get}
use saltext_vmware.Exec.{Env, Exec, pure, lift, ◌>>=◌, ◌>>◌, show}
use saltext_vmware.Vlcm.Depots.{
  online_depot_list, offline_depot_list, online_depot_create, offline_depot_create, depot_sync,
}
use saltext_vmware.Vlcm.Lifecycle.{wait_for_task}
use saltext_vmware.PatchState.Ret.{Ret, fresh, fail, option_or, guarded}
use saltext_vmware.VlcmState.Settings.{TaskSettings, pillar_section, task_settings}
use saltext_vmware.VlcmState.Values.{entries, find_depot}
use saltext_vmware.VlcmState.Attempt.{try_or_fail}

pub record DepotArgs : Type 0 where
  pub depot_type : Json
  pub location : Json
  pub source_type : Json
  pub enabled : Json
  pub description : Json
  pub ownerdata : Json
  pub kwargs : Fields

-- `if match:`
unfoldable pub is_match : Option Json → Bool
is_match none = false
is_match (some d) = truthy d

module _ ⦃E : Env⦄ (opts : Json) (profile : Option String) where
  unfoldable pub existing_depots : Json → Exec Json
  existing_depots kind =
      if is_text kind "online"
      then online_depot_list opts profile
      else offline_depot_list opts profile

  -- The first `try`
  unfoldable pub match_depot : Json → Json → Exec (Option Json)
  match_depot kind location = do
    listed ← existing_depots kind
    existing ← lift (entries (listed or arr nil))
    lift (find_depot location existing)

  unfoldable pub create_offline : DepotArgs → Json → Json → Exec Json
  create_offline args cfg location = do
    settings ← lift (task_settings opts args.kwargs)
    source_type ← lift (
        if truthy args.source_type then ok args.source_type else get cfg "source_type" (str "PULL"))
    resp ← offline_depot_create opts profile (
        field "source_type" source_type (
          field "location" location
            (field "description" args.description (field "ownerdata" args.ownerdata end))))
    wait_for_task opts profile resp settings.timeout settings.poll_interval

  -- The second `try`
  unfoldable pub create_depot : DepotArgs → Json → Json → Json → Exec Json
  create_depot args kind cfg location =
      if is_text kind "online"
      then online_depot_create opts profile
          (field "location" location (field "enabled" args.enabled end))
      else create_offline args cfg location

  unfoldable pub depot_unless_test : Ret → DepotArgs → Json → Json → Json → Json → Exec Ret
  depot_unless_test ret args kind cfg location test =
      if truthy test
      then pure (record ret {
        result = none;
        comment = "would create " <> show kind <> " depot " <> E.repr location;
        changes = obj (field "depot" location end);
      })
      else guarded ret (do
        create_depot args kind cfg location
        pure (record ret {
          changes = obj (field "depot" location end);
          comment = show kind <> " depot " <> E.repr location <> " configured";
        }))

  unfoldable pub depot_unless_there : Ret → DepotArgs → Json → Json → Json → Option Json → Exec Ret
  depot_unless_there ret args kind cfg location found =
      if is_match found
      then pure (record ret {
        comment = show kind <> " depot " <> E.repr location <> " already configured";
      })
      else (do
        test ← lift (get opts "test" null)
        depot_unless_test ret args kind cfg location test)

  unfoldable pub depot_at : Ret → DepotArgs → Json → Json → Json → Exec Ret
  depot_at ret args kind cfg location =
      if truthy location
      then try_or_fail ret (match_depot kind location)
          (depot_unless_there ret args kind cfg location)
      else pure (
          fail ret (
            exc value_error (
              "depot_configured requires 'location' (or pillar esxi_vlcm:"
              <> show kind
              <> "_depot:location)")))

  unfoldable pub depot_configured : String → DepotArgs → Exec Ret
  depot_configured name args = do
    cfg ← lift (pillar_section opts (show (args.depot_type or str "offline") <> "_depot"))
    location ← lift (option_or args.location cfg "location")
    depot_at (fresh name) args (args.depot_type or str "offline") cfg location

  unfoldable pub finish_sync : Ret → TaskSettings → Json → Json → Exec Ret
  finish_sync ret settings resp skip =
      if truthy skip
      then pure (record ret { comment = "depot sync not supported by this vCenter; skipped" })
      else (do
        wait_for_task opts profile resp settings.timeout settings.poll_interval
        pure (record ret {
          changes = obj (field "synced" (bool true) end);
          comment = "depots synced";
        }))

  unfoldable pub sync_unless_test : Ret → Fields → Json → Exec Ret
  sync_unless_test ret kwargs test =
      if truthy test
      then pure (record ret { result = none; comment = "would sync depots" })
      else (do
        settings ← lift (task_settings opts kwargs)
        guarded ret (do
          resp ← depot_sync opts profile
          skip ← lift (if is_dict resp then get resp "skipped" null else ok null)
          finish_sync ret settings resp skip))

  unfoldable pub depot_synced : String → Fields → Exec Ret
  depot_synced name kwargs = do
    test ← lift (get opts "test" null)
    sync_unless_test (fresh name) kwargs test
