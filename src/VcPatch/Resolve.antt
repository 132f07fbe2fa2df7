-- ===== src/VcPatch/Resolve.antt =====
-- `resolve_update_version` of clients/vc_patch.py.
use saltext_vmware.Base.{String, ◌<>◌, ◌==◌, Bool, not, ◌&&◌, ◌||◌, Option, none, some}
use saltext_vmware.Base.{List, [], ◌∷◌, lower, if◌then◌else◌}
use saltext_vmware.Json.{Json, null, str, arr, obj, Items, nil, cons, Fields, get_or, truthy}
use saltext_vmware.Json.{◌or◌, is_none}
use saltext_vmware.Http.{exc, runtime_error, attribute_error, Result, ok, err}
use saltext_vmware.Exec.{Env, Exec, pure, raise, lift, catch_http, ◌>>=◌, show}
use saltext_vmware.VcPatch.Updates.{get_pending_update, list_pending_updates}
use saltext_vmware.VcPatch.Matching.{extract_values, match_version}

pub record Resolved : Type 0 where
  pub version : Json
  pub pending_updates : Json
  pub pending_update : Json

-- `[v.get("version") or v.get("name") for v in values if isinstance(v, dict)]`
unfoldable pub available : List Json → Items
available [] = nil
available (obj fs ∷ vs) = cons (get_or fs "version" null or get_or fs "name" null) (available vs)
available (_ ∷ vs) = available vs

-- `matched.get("version") or matched.get("name") or matched.get("id")`
unfoldable pub version_of : Json → Result Json
version_of (obj fs) = ok (get_or fs "version" null or get_or fs "name" null or get_or fs "id" null)
version_of _ = err (exc attribute_error "object has no attribute 'get'")

-- `text.lower() not in ("", "none", "null")`
unfoldable pub is_named : String → Bool
unfolding lower
is_named text = let low = lower text in not (low == "" || low == "none" || low == "null")

module _ ⦃E : Env⦄ where
  -- `version is not None and str(version).lower() not in ("", "none", "null")`
  unfoldable pub is_requested : Json → Bool
  is_requested version = not (is_none version) && is_named (show version)

module _ ⦃E : Env⦄ (opts : Json) (profile : Option String) where
  -- The direct lookup of a version that was requested; `none` after an `HTTPError`.
  unfoldable pub look_up : Json → Exec (Option Json)
  look_up version =
      catch_http (do detail ← get_pending_update opts profile version; pure (some detail))
        λ e. pure none

  unfoldable pub no_updates : Json → Json → Exec Resolved
  no_updates repository_url version = raise (
      exc runtime_error (
        "No pending VCSA updates found. repository_url="
        <> E.repr repository_url
        <> ", requested_version="
        <> E.repr version))

  unfoldable pub not_listed : Json → List Json → Exec Json
  not_listed version items = raise (
      exc runtime_error (
        "Requested VCSA update version "
        <> E.repr version
        <> " not found. Available: "
        <> show (arr (available items))))

  -- The entry of the list to take
  unfoldable pub listed_or_raise : Json → List Json → Option Fields → Exec Json
  listed_or_raise version items none = not_listed version items
  listed_or_raise version items (some item) = pure (obj item)

  unfoldable pub choose : Json → Json → List Json → Exec Json
  choose version first items =
      if is_requested version
      then listed_or_raise version items (match_version items (show version))
      else pure first

  unfoldable pub keep_or : Json → Option Json → Exec Json
  keep_or matched none = pure matched
  keep_or matched (some detail) = pure detail

  unfoldable pub detail_of : Json → Json → Exec Json
  detail_of resolved matched = do found ← look_up resolved; keep_or matched found

  unfoldable pub settle : Json → Json → Json → Exec Resolved
  settle pending_updates matched resolved =
      if truthy resolved
      then (do
        detail ← detail_of resolved matched
        pure (record {
          version = resolved;
          pending_updates = pending_updates;
          pending_update = detail;
        }))
      else raise (exc runtime_error ("Unable to resolve VCSA update version from " <> show matched))

  unfoldable pub pick : Json → Json → Json → List Json → Exec Resolved
  pick repository_url version pending_updates [] = no_updates repository_url version
  pick repository_url version pending_updates (v ∷ vs) = do
    matched ← choose version v (v ∷ vs)
    resolved ← lift (version_of matched)
    settle pending_updates matched resolved

  unfoldable pub resolve_listed : Json → Json → Exec Resolved
  resolve_listed repository_url version = do
    pending_updates ← list_pending_updates opts profile repository_url (str "LOCAL_AND_ONLINE")
    pick repository_url version pending_updates (extract_values pending_updates)

  unfoldable pub after_lookup : Json → Json → Option Json → Exec Resolved
  after_lookup repository_url version none = resolve_listed repository_url version
  after_lookup repository_url version (some detail) =
      pure
        (record { version = str (show version); pending_updates = null; pending_update = detail })

  unfoldable pub resolve_update_version : Json → Json → Exec Resolved
  resolve_update_version repository_url version =
      if is_requested version
      then (do found ← look_up version; after_lookup repository_url version found)
      else resolve_listed repository_url version
