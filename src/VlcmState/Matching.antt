-- ===== src/VlcmState/Matching.antt =====
-- When `policy_configured` leaves the policy alone.
use saltext_vmware.Base.{String, ◌<>◌, ◌≡◌, refl, ◌∙◌, ◌↔◌, Bool, true, false}
use saltext_vmware.Base.{Option, if◌then◌else◌}
use saltext_vmware.Json.{Json, null, str, obj, Fields, field, end, empty, ◌or◌, truthy, get_or}
use saltext_vmware.Json.Equal.{equal}
use saltext_vmware.Http.{ok}
use saltext_vmware.Exec.{Env, World, pure, show}
use saltext_vmware.Exec.Runs.{bind-ok, lift-bind, catch-ok}
use saltext_vmware.Vlcm.Images.{apply_policy_get}
use saltext_vmware.PatchState.Ret.{fresh}
use saltext_vmware.VlcmState.Attempt.{proceed, try_or_fail}
use saltext_vmware.VlcmState.Policy.{
  changed, policy_diff, update_changed, compare_policy, policy_given, spec_or_pillar,
  policy_configured,
}

-- The current policy has every entry of the spec.
abbrev pub Matches : Fields → Fields → Type 0
Matches current end = Unit
Matches current (field k v fs) = (equal (get_or current k null) v ≡ true) × Matches current fs

one-changed :
    (current fs : Fields) (k : String) (v : Json) (b : Bool)
    → ((changed current fs ≡ end) ↔ Matches current fs)
    → equal (get_or current k null) v ≡ b
    → ((if b then changed current fs else field k v (changed current fs)) ≡ end)
      ↔ ((b ≡ true) × Matches current fs)
one-changed current fs k v true h e = (λ p. (refl, h.0 p), λ q. h.1 (q.1))
one-changed current fs k v false h e = (λ p. cc, λ q. cc)

-- The difference is empty exactly when the current policy has every entry of the spec.
pub changed-end : (current spec : Fields) → (changed current spec ≡ end) ↔ Matches current spec
unfolding changed
changed-end current end = (λ p. tt, λ q. refl)
changed-end current (field k v fs) =
    one-changed current fs k v (equal (get_or current k null) v) (changed-end current fs) refl

or_empty : (fs : Fields) → (obj fs or empty) ≡ obj fs
or_empty end = refl
or_empty (field k v fs) = refl

module _ ⦃E : Env⦄ (opts : Json) (profile : Option String) where
  -- If the current policy has every entry of the spec, whatever else it has, `policy_configured`
  -- succeeds with no changes, and all that it did was to read the policy; this holds with and
  -- without `test=True`.
  pub policy_configured_matching :
      (name : String) (cluster_id policy_spec : Json) (spec current : Fields) (w w' : World E.State)
      → spec_or_pillar opts profile policy_spec ≡ ok (obj spec)
      → truthy (obj spec) ≡ true
      → apply_policy_get opts profile (cluster_id or str name) w ≡ (ok (obj current), w')
      → Matches current spec
      → policy_configured opts profile name cluster_id policy_spec w ≡ (
        ok (record (fresh name) {
          comment = "cluster " <> show (cluster_id or str name) <> " apply policy already matches";
        }),
        w',
      )
  unfolding policy_configured policy_given try_or_fail proceed compare_policy update_changed
      policy_diff pure
  policy_configured_matching name cluster_id policy_spec spec current w w' c given read same =
      let nothing : changed current spec ≡ end = (changed-end current spec).1 same in
      lift-bind _ _ c
      ∙ rw given (
          bind-ok _ _ (catch-ok _ _ (bind-ok _ _ read))
          ∙ rw (or_empty current, nothing) (lift-bind (ok end) _ {w = w'} refl))
