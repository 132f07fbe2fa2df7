-- ===== src/VlcmState/Present.antt =====
-- `depot_configured` where the depot is there already.
use saltext_vmware.Base.{String, ◌<>◌, ◌≡◌, ◌∙◌, true, Option, some}
use saltext_vmware.Json.{Json, str, ◌or◌, truthy}
use saltext_vmware.Http.{ok}
use saltext_vmware.Exec.{Env, World, pure, show}
use saltext_vmware.Exec.Runs.{bind-ok, lift-bind, catch-ok}
use saltext_vmware.PatchState.Ret.{fresh, option_or}
use saltext_vmware.VlcmState.Settings.{pillar_section}
use saltext_vmware.VlcmState.Attempt.{proceed, try_or_fail}
use saltext_vmware.VlcmState.Depot.{
  DepotArgs, is_match, match_depot, depot_unless_there, depot_at, depot_configured,
}

module _ ⦃E : Env⦄ (opts : Json) (profile : Option String) where
  -- With a location, and a depot that the search finds there, `depot_configured` succeeds with no
  -- changes, and all that it did was to list the depots; this holds with and without `test=True`.
  pub depot_configured_present :
      (name : String) (args : DepotArgs) (cfg location d : Json) (w w' : World E.State)
      → let kind = args.depot_type or str "offline" in
        pillar_section opts (show kind <> "_depot") ≡ ok cfg
        → option_or args.location cfg "location" ≡ ok location
        → truthy location ≡ true
        → match_depot opts profile kind location w ≡ (ok (some d), w')
        → truthy d ≡ true
        → depot_configured opts profile name args w ≡ (
          ok (record (fresh name) {
            comment = show kind <> " depot " <> E.repr location <> " already configured";
          }),
          w',
        )
  unfolding depot_configured depot_at try_or_fail proceed depot_unless_there is_match pure
  depot_configured_present name args cfg location d w w' c₁ c₂ given found there =
      lift-bind _ _ c₁
      ∙ lift-bind _ _ c₂
      ∙ rw given (bind-ok _ _ (catch-ok _ _ (bind-ok _ _ found)) ∙ rw there)
