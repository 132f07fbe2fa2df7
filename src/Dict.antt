-- ===== src/Dict.antt =====
-- Python dicts from texts to values of one type: the caches that a module keeps for all its calls.
use text.Mathlib.TextPositions.{eq_refl}
use saltext_vmware.Base.{String, ◌==◌, ◌≡◌, refl, Option, none, some, List, [], ◌∷◌, arith, eq_iff}
use saltext_vmware.Base.{if◌then◌else◌}

abbrev pub Dict : Type 0 → Type 0
Dict V = List (String × V)

module _ {V : Type 0} where
  -- `d.get(k)`
  unfoldable pub find : Dict V → String → Option V
  find [] k = none
  find ((j, v) ∷ rest) k = if j == k then some v else find rest k

  -- `d[k] = v`
  unfoldable pub put : Dict V → String → V → Dict V
  put [] k v = (k, v) ∷ []
  put ((j, w) ∷ rest) k v =
      let others = put rest k v in if j == k then (j, v) ∷ rest else (j, w) ∷ others

  -- `d.pop(k, None)`
  unfoldable pub drop : Dict V → String → Dict V
  drop [] k = []
  drop ((j, w) ∷ rest) k = let others = drop rest k in if j == k then others else (j, w) ∷ others

  pub find-put :
      (d : Dict V) (k j : String) (v : V)
      → find (put d k v) j ≡ (if k == j then some v else find d j)
  unfolding find put
  find-put [] k j v = refl
  find-put ((i, w) ∷ d) k j v = ground (arith, eq_iff k j, eq_iff i k, eq_iff i j, find-put d k j v)

  pub find-drop :
      (d : Dict V) (k j : String) → find (drop d k) j ≡ (if k == j then none else find d j)
  unfolding find drop
  find-drop [] k j = ground arith
  find-drop ((i, w) ∷ d) k j = ground (arith, eq_iff k j, eq_iff i k, eq_iff i j, find-drop d k j)

  -- What is put under a key is found there.
  pub find-put_self : (d : Dict V) (k : String) (v : V) → find (put d k v) k ≡ some v
  find-put_self d k v = rw (find-put d k k v, eq_refl k) refl
