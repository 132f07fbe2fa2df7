-- ===== src/VcPatch/MatchingLaws.antt =====
-- Which entry `_match_version` picks, and when `staged_matches` holds.
use text.Mathlib.TextPositions.{eq_refl}
use mathlib.Core.Logic.Or
use mathlib.Core.List.{Mem, mem-cons}
use saltext_vmware.Base.{◌↔◌, sym, String, ◌≡◌, ◌≢◌, refl, ◌∙◌, Bool, true, false}
use saltext_vmware.Base.{Option, none, some, List, [], ◌∷◌, any, find_first, arith, eq_iff}
use saltext_vmware.Base.{Bool-cases, inl, inr, ◌⊎◌}
use saltext_vmware.Json.{Json, null, str, obj, Fields, end, field, get_or}
use saltext_vmware.Exec.{Env}
use saltext_vmware.VcPatch.Matching.{
  is_blank, version_fields, candidates, staged_value, dict_values, agrees, value_matches,
  staged_matches, is_exact, is_prefix, or_else, match_version,
}

module _ {ℓ} {A : Type ℓ} (p : A → Bool) where
  find_first-any :
      (xs : List A) → any p xs ≡ true → (x : A) × (find_first p xs ≡ some x) × (p x ≡ true)
  find_first-any [] h = cc
  find_first-any (x ∷ xs) h = elim (Bool-cases (p x)) [
    | inl found ↦ (x, rw found, found)
    | inr not_yet ↦ rw not_yet (find_first-any xs (rw not_yet at h))
  ]

  find_first-none : (xs : List A) → any p xs ≡ false → find_first p xs ≡ none
  find_first-none [] h = refl
  find_first-none (x ∷ xs) h = ground (arith, find_first-none xs)

  any-of_none : (xs : List A) → find_first p xs ≡ none → any p xs ≡ false
  any-of_none [] h = refl
  any-of_none (x ∷ xs) h = ground (arith, any-of_none xs)

  find_first-some : (xs : List A) (x : A) → find_first p xs ≡ some x → Mem x xs × (p x ≡ true)
  find_first-some [] x h = cc
  find_first-some (y ∷ xs) x h = elim (Bool-cases (p y)) [
    | inl found ↦
        let h' : some y ≡ some x = rw found at h in
        let e : y ≡ x = cc in (mem-cons.1 (Or.inl (sym e)), rw e at found)
    | inr not_yet ↦
        let (m, q) = find_first-some xs x (rw not_yet at h) in (mem-cons.1 (Or.inr m), q)
  ]

module _ ⦃E : Env⦄ (items : List Json) (requested : String) where
  -- If an entry has the requested version exactly, `_match_version` picks such an entry, wherever it
  -- stands; so a prefix match earlier in the list never wins.
  pub match_version-exact :
      any (is_exact requested) (dict_values items) ≡ true
      → (item : Fields) × (match_version items requested ≡ some item)
        × (is_exact requested item ≡ true)
  unfolding match_version or_else
  match_version-exact h =
      let (item, e, q) = find_first-any (is_exact requested) (dict_values items) h in
      (item, rw e, q)

  -- What `_match_version` picks is a dict of the list, and it matches exactly, or by a prefix where
  -- nothing matches exactly.
  pub match_version-some :
      (item : Fields)
      → match_version items requested ≡ some item
      → Mem item (dict_values items)
        × ((is_exact requested item ≡ true)
            ⊎ ((is_prefix requested item ≡ true)
                × (any (is_exact requested) (dict_values items) ≡ false)))
  unfolding match_version or_else
  match_version-some item h = picked (find_first (is_exact requested) (dict_values items)) refl h
    where
      picked :
          (o : Option Fields)
          → find_first (is_exact requested) (dict_values items) ≡ o
          → or_else o (find_first (is_prefix requested) (dict_values items)) ≡ some item
          → Mem item (dict_values items)
            × ((is_exact requested item ≡ true)
                ⊎ ((is_prefix requested item ≡ true)
                    × (any (is_exact requested) (dict_values items) ≡ false)))
      picked none e p =
          let (m, q) = find_first-some (is_prefix requested) (dict_values items) item p in
          (m, inr (q, any-of_none (is_exact requested) (dict_values items) e))
      picked (some x) e p =
          let (m, q) = find_first-some (is_exact requested) (dict_values items) item (e ∙ p) in
          (m, inl q)

  -- `_match_version` finds nothing exactly when no dict of the list matches, exactly or by a prefix.
  pub match_version-none : (match_version items requested ≡ none) ↔ (
      (any (is_exact requested) (dict_values items) ≡ false)
      × (any (is_prefix requested) (dict_values items) ≡ false))
  unfolding match_version or_else
  match_version-none = (
    λ h. nothing (find_first (is_exact requested) (dict_values items)) refl h,
    λ h.
        rw (find_first-none (is_exact requested) (dict_values items) h.0)
          (find_first-none (is_prefix requested) (dict_values items) h.1),
  )
    where
      nothing :
          (o : Option Fields)
          → find_first (is_exact requested) (dict_values items) ≡ o
          → or_else o (find_first (is_prefix requested) (dict_values items)) ≡ none
          → (any (is_exact requested) (dict_values items) ≡ false)
            × (any (is_prefix requested) (dict_values items) ≡ false)
      nothing none e p = (
        any-of_none (is_exact requested) (dict_values items) e,
        any-of_none (is_prefix requested) (dict_values items) p,
      )
      nothing (some x) e p = cc

module _ ⦃E : Env⦄ where
  value_matches_self :
      (value : Fields) (v : String)
      → get_or value "version" null ≡ str v
      → v ≢ ""
      → value_matches (obj value) (str v) ≡ true
  unfolding value_matches is_blank candidates version_fields agrees
  value_matches_self end v h ne = cc
  value_matches_self (field k w fs) v h ne = ground (arith, h, eq_refl v, eq_iff v "")

  -- A staged update whose `version` is the requested text, not empty, counts as staged.
  pub staged_matches_self :
      (staged value : Fields) (v : String)
      → get_or staged "value" null ≡ obj value
      → get_or value "version" null ≡ str v
      → v ≢ ""
      → staged_matches (obj staged) (str v) ≡ true
  unfolding staged_matches staged_value
  staged_matches_self end value v h h' ne = cc
  staged_matches_self (field k w fs) value v h h' ne = rw h (value_matches_self value v h' ne)
