-- ===== src/VcPatch/Reading.antt =====
-- The reads of clients/vc_patch.py send GETs and logins only.
use saltext_vmware.Base.{String, Option, none, some, List, [], ◌∷◌, All}
use saltext_vmware.Json.{Json}
use saltext_vmware.Http.{Request, Response, Exc}
use saltext_vmware.Exec.{Env}
use saltext_vmware.Exec.Keeps.{Keeps, keeps_rules}
use saltext_vmware.Vcenter.Reading.{Allows, api_get-Keeps}
use saltext_vmware.VcPatch.Updates.{tolerate, get_tolerant, get_staged_update, get_update_status}
use saltext_vmware.VcPatch.Updates.{get_pending_update, list_pending_updates}
use saltext_vmware.VcPatch.Resolve.{
  look_up, no_updates, not_listed, listed_or_raise, choose, keep_or, detail_of, settle, pick,
  resolve_listed, after_lookup, resolve_update_version,
}

module _ ⦃E : Env⦄ {P : Request → Type 0} (a : Allows P) (opts : Json)
    (profile : Option String) where
  tolerate-Keeps :
      (e : Exc) (response : Option Response) → Keeps (All P) (tolerate opts profile e response)
  unfolding tolerate
  tolerate-Keeps e none = search keeps_rules
  tolerate-Keeps e (some resp) = search keeps_rules

  pub get_staged_update-Keeps : Keeps (All P) (get_staged_update opts profile)
  unfolding get_staged_update get_tolerant
  get_staged_update-Keeps = search (keeps_rules, a, api_get-Keeps, tolerate-Keeps)

  pub get_update_status-Keeps : Keeps (All P) (get_update_status opts profile)
  unfolding get_update_status
  get_update_status-Keeps = search (a, api_get-Keeps)

  look_up-Keeps : (version : Json) → Keeps (All P) (look_up opts profile version)
  unfolding look_up get_pending_update
  look_up-Keeps version = search (keeps_rules, a, api_get-Keeps) depth 8

  listed_or_raise-Keeps :
      (version : Json) (items : List Json) (found : Option _)
      → Keeps (All P) (listed_or_raise opts profile version items found)
  unfolding listed_or_raise not_listed
  listed_or_raise-Keeps version items none = search keeps_rules
  listed_or_raise-Keeps version items (some item) = search keeps_rules

  choose-Keeps :
      (version first : Json) (items : List Json)
      → Keeps (All P) (choose opts profile version first items)
  unfolding choose
  choose-Keeps version first items = search (keeps_rules, listed_or_raise-Keeps)

  keep_or-Keeps :
      (matched : Json) (found : Option Json) → Keeps (All P) (keep_or opts profile matched found)
  unfolding keep_or
  keep_or-Keeps matched none = search keeps_rules
  keep_or-Keeps matched (some detail) = search keeps_rules

  settle-Keeps :
      (pending matched resolved : Json)
      → Keeps (All P) (settle opts profile pending matched resolved)
  unfolding settle detail_of
  settle-Keeps pending matched resolved = search (keeps_rules, look_up-Keeps, keep_or-Keeps) depth 8

  pick-Keeps :
      (url version pending : Json) (items : List Json)
      → Keeps (All P) (pick opts profile url version pending items)
  unfolding pick no_updates
  pick-Keeps url version pending [] = search keeps_rules
  pick-Keeps url version pending (v ∷ vs) = search (keeps_rules, choose-Keeps, settle-Keeps) depth 8

  resolve_listed-Keeps :
      (url version : Json) → Keeps (All P) (resolve_listed opts profile url version)
  unfolding resolve_listed list_pending_updates
  resolve_listed-Keeps url version = search (keeps_rules, a, api_get-Keeps, pick-Keeps) depth 8

  after_lookup-Keeps :
      (url version : Json) (found : Option Json)
      → Keeps (All P) (after_lookup opts profile url version found)
  unfolding after_lookup
  after_lookup-Keeps url version none = resolve_listed-Keeps url version
  after_lookup-Keeps url version (some detail) = search keeps_rules

  pub resolve_update_version-Keeps :
      (url version : Json) → Keeps (All P) (resolve_update_version opts profile url version)
  unfolding resolve_update_version
  resolve_update_version-Keeps url version =
      search (keeps_rules, look_up-Keeps, after_lookup-Keeps, resolve_listed-Keeps) depth 8
