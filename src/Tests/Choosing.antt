-- ===== src/Tests/Choosing.antt =====
-- Retries, matching and the choice of a version in clients/vc_patch.py at concrete inputs.
use saltext_vmware.Base.{String, ◌≡◌, ◌≢◌, ◌⊎◌, ◌↔◌, refl, true, false}
use saltext_vmware.Base.{none, some, List, [], ◌∷◌, arith, any, eq_iff, quote}
use mathlib.Core.List.{Mem}
use saltext_vmware.Json.{
  Json, null, bool, num, str, arr, obj, nil, cons, field, end, Fields, truthy,
}
use saltext_vmware.Http.{Request, Exc, http_error, ok}
use saltext_vmware.Exec.{World}
use saltext_vmware.VcPatch.Matching.{
  staged_matches, is_exact, is_prefix, match_version, dict_values,
}
use saltext_vmware.VcPatch.Resolve.{resolve_update_version}
use saltext_vmware.VcPatch.Polling.{Progress}
use saltext_vmware.VcPatch.Retries.{Counted, poll_stage_ok}
use saltext_vmware.VcPatch.MatchingLaws.{
  match_version-exact, match_version-some, match_version-none, staged_matches_self,
}
use saltext_vmware.VcPatch.ResolveLaws.{resolve_update_version_ok, resolve_update_version_direct}
use saltext_vmware.Tests.Machine.{
  Script, machine, success, failure, failure_with, connected, options,
}
use saltext_vmware.Tests.Patching.{patching, update, status, staged}

abbrev unavailable : Exc
unavailable = record {
  kind = http_error;
  message = "1 Error for GET https://vc: ";
  response = some (failure_with 503);
}

abbrev refused : Exc
refused = record unavailable { response = some (failure_with 400) }

abbrev start : Progress
start = record { status = null; errors = 0 }

-- The read of the status that fails, and the world after it
abbrev read_request : Request
read_request = record {
  method = "GET";
  url = "https://vc/rest/appliance/update";
  params = null;
  body = null;
  auth = none;
  token = str "token";
  verify = bool true;
  timeout = num 30;
}

abbrev after_read : World Script
after_read = connected 1 (read_request ∷ []) []

poll_stage_ok_run : Counted options none 3 start (record { status = null; errors = 1 })
unfolding patching
poll_stage_ok_run = poll_stage_ok options none 3 start (connected 0 [] (failure 503 ∷ [])) _ refl

-- A prefix match stands first, the exact one after it.
abbrev listed : List Json
listed = obj (update "9.0.1.5") ∷ obj (update "9.0.1") ∷ []

match_version-exact_example :
    (item : Fields) × (match_version listed "9.0.1" ≡ some item) × (is_exact "9.0.1" item ≡ true)
unfolding patching
match_version-exact_example = match_version-exact listed "9.0.1" refl

match_version-some_run :
    Mem (update "9.0.1") (dict_values listed)
    × ((is_exact "9.0.1" (update "9.0.1") ≡ true)
        ⊎ ((is_prefix "9.0.1" (update "9.0.1") ≡ true)
            × (any (is_exact "9.0.1") (dict_values listed) ≡ false)))
unfolding patching
match_version-some_run = match_version-some listed "9.0.1" (update "9.0.1") refl

match_version-none_run : (match_version listed "8" ≡ none) ↔ (
    (any (is_exact "8") (dict_values listed) ≡ false)
    × (any (is_prefix "8") (dict_values listed) ≡ false))
match_version-none_run = match_version-none listed "8"

version_text : ◌≢◌ {A = String} "9.0.1" ""
version_text = ground (arith, eq_iff "9.0.1" "")

staged_matches_self_run : staged_matches staged (str "9.0.1") ≡ true
staged_matches_self_run =
    staged_matches_self (field "value" (obj (update "9.0.1")) end) (update "9.0.1") "9.0.1" refl
      refl version_text

abbrev pending : Json
pending = obj (field "value" (arr (cons (obj (update "9.0.2")) nil)) end)

resolve_update_version_ok_example : truthy (str "9.0.2") ≡ true
unfolding patching
resolve_update_version_ok_example =
    resolve_update_version_ok options none null null
      (connected 0 [] (success pending ∷ failure 404 ∷ []))
      (record {
        version = str "9.0.2";
        pending_updates = pending;
        pending_update = obj (update "9.0.2");
      })
      refl

abbrev detail_request : Request
detail_request = record read_request { url = "https://vc/rest/appliance/update/pending/9.0.1" }

resolve_update_version_direct_run :
    resolve_update_version options none null
      (str "9.0.1")
      (connected 0 [] (success (status "PENDING") ∷ []))
    ≡ (
      ok (record {
        version = str "9.0.1";
        pending_updates = null;
        pending_update = status "PENDING";
      }),
      connected 1 (detail_request ∷ []) [],
    )
unfolding patching quote
resolve_update_version_direct_run =
    resolve_update_version_direct options none null (str "9.0.1") (status "PENDING")
      (connected 0 [] (success (status "PENDING") ∷ [])) (connected 1 (detail_request ∷ []) []) refl
      refl

-- A version with a slash is escaped in the path.
quoted_version :
    (resolve_update_version options none null
      (str "9/0")
      (connected 0 [] (success (status "PENDING") ∷ []))).1.sent
    ≡ record read_request { url = "https://vc/rest/appliance/update/pending/9%2F0" } ∷ []
unfolding patching quote
quoted_version = refl
