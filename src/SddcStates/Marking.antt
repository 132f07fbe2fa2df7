-- ===== src/SddcStates/Marking.antt =====
-- Which domain `absent` marks for deletion.
use saltext_vmware.Base.{String, ◌≡◌, refl, ◌⊎◌, inl, inr, ap, Option}
use saltext_vmware.Json.{Json, null, str, obj, field, end, empty, is_none, truthy, ◌or◌}
use saltext_vmware.Http.{ok, get, item}
use saltext_vmware.Exec.{Env, World, lift}
use saltext_vmware.Exec.Returns.{
  Returns, Returns-bind, Returns-after, Returns-lift, Returns-pure, Returns-if,
}
use saltext_vmware.Exec.Runs.{paired, bind-eq-ok}
use saltext_vmware.PatchState.Ret.{Ret}
use saltext_vmware.Rest.Answers.{Lists, IsNamed, element_with-IsNamed}
use saltext_vmware.SddcClients.Domain.{list, get_by_name, mark_for_deletion}
use saltext_vmware.SddcStates.Domain.{mark_domain, mark_unless_test, mark_if_there, absent}

-- There are no changes, or they name a domain of the list `body` that has the name of the state: its
-- id, or the name itself where it has none.
abbrev pub MarksListed : String → Json → Ret → Type 0
MarksListed name body r =
    (r.changes ≡ empty)
    ⊎ ((el : Json) × (id : Json) × Lists body el
        × IsNamed "name" (str name) el
        × (get el "id" null ≡ ok id)
        × (r.changes ≡ obj (field "marked_for_deletion" (id or str name) end)))

module _ ⦃E : Env⦄ (opts : Json) (name : String) (profile : Option String) where
  mark_unless_test-Marks :
      (body el id : Json)
      → Lists body el
      → IsNamed "name" (str name) el
      → get el "id" null ≡ ok id
      → Returns (MarksListed name body) (mark_unless_test opts name profile (id or str name))
  unfolding mark_unless_test mark_domain
  mark_unless_test-Marks body el id listed named i =
      Returns-after (lift (item opts "test")) _ λ test.
        Returns-if (truthy test) _ _ (λ _. Returns-pure _ (inl refl))
          λ _.
            Returns-after (mark_for_deletion opts (id or str name) profile) _
              (λ done. Returns-pure _ (inr (el, id, listed, named, i, refl)))

  mark_if_there-Marks :
      (body el : Json)
      → (el ≡ null) ⊎ (Lists body el × IsNamed "name" (str name) el)
      → Returns (MarksListed name body) (mark_if_there opts name profile el)
  unfolding mark_if_there
  mark_if_there-Marks body el (inl gone) = rw gone (Returns-pure _ (inl refl))
  mark_if_there-Marks body el (inr (listed, named)) =
      Returns-if (is_none el) _ _ (λ _. Returns-pure _ (inl refl))
        λ _.
          Returns-bind (lift (get el "id" null)) _
            (Returns-lift {P = λ id. get el "id" null ≡ ok id} _ (λ id i. i))
            (λ id i. mark_unless_test-Marks body el id listed named i)

  -- Where `absent` of a workload domain returns, SDDC Manager has answered with a list, and what is
  -- reported as marked for deletion is a domain of that list whose name is the name of the state,
  -- by its id, or by that name where it has none; else no changes are reported.
  pub absent-MarksListed :
      (w : World E.State) (r : Ret)
      → (absent opts name profile w).0 ≡ ok r
      → (body : Json) × ((list opts profile w).0 ≡ ok body) × MarksListed name body r
  unfolding absent get_by_name
  absent-MarksListed w r p =
      let (el, found, rest) =
        bind-eq-ok (get_by_name opts (str name) profile) _
          (paired (absent opts name profile) w p) in
      let (body, answered, chosen) = bind-eq-ok (list opts profile) _ found in
      (
        body,
        ap (λ a. a.0) answered,
        (mark_if_there-Marks body el
              (element_with-IsNamed "name" (str name) body _ el (ap (λ a. a.0) chosen))).at
            _ r (ap (λ a. a.0) rest),
      )
