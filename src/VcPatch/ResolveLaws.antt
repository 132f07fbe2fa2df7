-- ===== src/VcPatch/ResolveLaws.antt =====
-- Which version `resolve_update_version` settles on.
use saltext_vmware.Base.{String, ◌==◌, ◌≡◌, true, false}
use saltext_vmware.Base.{Option, none, some, List, [], ◌∷◌, arith, eq_iff, ap, Bool-cases, inl, inr}
use saltext_vmware.Json.{Json, null, str, truthy}
use saltext_vmware.Http.{ok}
use saltext_vmware.Exec.{Env, World, pure, show}
use saltext_vmware.Exec.Returns.{
  Returns, Returns-pure, Returns-if, Returns-after, Returns-raise, returns_rules,
}
use saltext_vmware.Exec.Runs.{bind-ok, catch_http-ok}
use saltext_vmware.VcPatch.Updates.{get_pending_update}
use saltext_vmware.VcPatch.Resolve.{
  Resolved, is_named, is_requested, look_up, no_updates, settle, pick, resolve_listed, after_lookup,
  resolve_update_version,
}

abbrev pub HasVersion : Resolved → Type 0
HasVersion r = truthy r.version ≡ true

is_named-ne : (s : String) → is_named s ≡ true → (s == "") ≡ false
unfolding is_named
is_named-ne s h = elim (Bool-cases (s == "")) [
  | inl e ↦ let q = ap is_named ((eq_iff s "").0 e) in cc
  | inr e ↦ e
]

module _ ⦃E : Env⦄ where
  -- A version that was asked for is no empty text.
  show-truthy : (version : Json) → is_requested version ≡ true → truthy (str (show version)) ≡ true
  unfolding is_requested
  show-truthy version h = rw (is_named-ne (show version) (ground arith))

module _ ⦃E : Env⦄ (opts : Json) (profile : Option String) where
  settle-HasVersion :
      (pending matched resolved : Json)
      → Returns HasVersion (settle opts profile pending matched resolved)
  unfolding settle
  settle-HasVersion pending matched resolved =
      Returns-if (truthy resolved) _ _ (λ h. Returns-after _ _ (λ detail. Returns-pure _ h))
        (λ _. Returns-raise _)

  pick-HasVersion :
      (url version pending : Json) (items : List Json)
      → Returns HasVersion (pick opts profile url version pending items)
  unfolding pick no_updates
  pick-HasVersion url version pending [] = search returns_rules
  pick-HasVersion url version pending (v ∷ vs) = search (returns_rules, settle-HasVersion)

  resolve_listed-HasVersion :
      (url version : Json) → Returns HasVersion (resolve_listed opts profile url version)
  unfolding resolve_listed
  resolve_listed-HasVersion url version = search (returns_rules, pick-HasVersion)

  after_lookup-HasVersion :
      (url version : Json) (found : Option Json)
      → is_requested version ≡ true
      → Returns HasVersion (after_lookup opts profile url version found)
  unfolding after_lookup
  after_lookup-HasVersion url version none h = resolve_listed-HasVersion url version
  after_lookup-HasVersion url version (some detail) h = Returns-pure _ (show-truthy version h)

  pub resolve_update_version-HasVersion :
      (url version : Json) → Returns HasVersion (resolve_update_version opts profile url version)
  unfolding resolve_update_version
  resolve_update_version-HasVersion url version =
      Returns-if (is_requested version) _ _
        (λ h. Returns-after _ _ (λ found. after_lookup-HasVersion url version found h))
        (λ _. resolve_listed-HasVersion url version)

  -- A version that `resolve_update_version` returns is never empty.
  pub resolve_update_version_ok :
      (url version : Json) (w : World E.State) (r : Resolved)
      → (resolve_update_version opts profile url version w).0 ≡ ok r
      → truthy r.version ≡ true
  resolve_update_version_ok url version = (resolve_update_version-HasVersion url version).at

  -- A version that the appliance knows under the requested name is taken as it is, with no listing.
  pub resolve_update_version_direct :
      (url version detail : Json) (w w' : World E.State)
      → is_requested version ≡ true
      → get_pending_update opts profile version w ≡ (ok detail, w')
      → resolve_update_version opts profile url version w ≡ (
        ok (record {
          version = str (show version);
          pending_updates = null;
          pending_update = detail;
        }),
        w',
      )
  unfolding resolve_update_version look_up after_lookup pure
  resolve_update_version_direct url version detail w w' asked found = rw asked (
      bind-ok _ _ (
        catch_http-ok _ (λ e. pure none)
          (bind-ok (get_pending_update opts profile version) (λ d. pure (some d)) found)))
