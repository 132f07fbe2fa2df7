-- ===== src/Rest/Answers.antt =====
-- What the shared reads answer.
use mathlib.Core.List.{Memᴰ}
use mathlib.Core.List.Memᴰ.{head, tail}
use saltext_vmware.Base.{String, ◌≡◌, refl, ◌⊎◌, inl, inr, true, List, [], ◌∷◌}
use saltext_vmware.Json.{Json, null, arr, nil, ◌or◌}
use saltext_vmware.Json.Equal.{equal}
use saltext_vmware.Http.{ok, get}
use saltext_vmware.Exec.{Env, World, lift}
use saltext_vmware.Exec.Returns.{Returns, Returns-bind, Returns-lift, Returns-pure, Returns-if}
use saltext_vmware.Sddc.Errors.{iterate}
use saltext_vmware.Rest.{first_with, element_with}

-- The element is one of the body's `elements`.
abbrev pub Lists : Json → Json → Type 0
Lists body el =
    (elements : Json) × (els : List Json) × (get body "elements" null ≡ ok elements)
    × (iterate (elements or arr nil) ≡ ok els)
    × Memᴰ el els

-- The value of the element under the key equals the name.
abbrev pub IsNamed : String → Json → Json → Type 0
IsNamed key name el = (found : Json) × (get el key null ≡ ok found) × (equal found name ≡ true)

module _ ⦃E : Env⦄ where
  first_with-IsNamed :
      (key : String) (name : Json) (all els : List Json)
      → ((el : Json) → Memᴰ el els → Memᴰ el all)
      → Returns (λ el. (el ≡ null) ⊎ (Memᴰ el all × IsNamed key name el)) (first_with key name els)
  unfolding first_with
  first_with-IsNamed key name all [] inside = Returns-pure null (inl refl)
  first_with-IsNamed key name all (el ∷ els) inside =
      Returns-bind (lift (get el key null)) _
        (Returns-lift {P = λ found. get el key null ≡ ok found} _ (λ found e. e))
        λ found e.
          Returns-if (equal found name) _ _
            (λ same. Returns-pure el (inr (inside el (head refl), (found, e, same))))
            (λ _. first_with-IsNamed key name all els (λ v m. inside v (tail m)))

  -- What the search of a body by a name returns is `None`, or an element of it that has that name.
  pub element_with-IsNamed :
      (key : String) (name body : Json) (w : World E.State) (el : Json)
      → (element_with key name body w).0 ≡ ok el
      → (el ≡ null) ⊎ (Lists body el × IsNamed key name el)
  unfolding element_with
  element_with-IsNamed key name body =
      (Returns-bind (lift (get body "elements" null)) _
        (Returns-lift {P = λ elements. get body "elements" null ≡ ok elements} _ (λ elements e. e))
        λ elements e.
          Returns-bind (lift (iterate (elements or arr nil))) _
            (Returns-lift {P = λ els. iterate (elements or arr nil) ≡ ok els} _ (λ els i. i))
            λ els i. record {
              at = λ w el p. elim ((first_with-IsNamed key name els els (λ v m. m)).at w el p) [
                | inl gone ↦ inl gone
                | inr (m, named) ↦ inr ((elements, els, e, i, m), named)
              ];
            }).at
