-- ===== src/PasswordPolicy/Effects.antt =====
-- Which commands `within_max_age` runs on the appliance.
use saltext_vmware.Base.{ℕ, String, ◌≡◌, refl, ◌∙◌, true, false, Option, none, some}
use saltext_vmware.Base.{arith}
use saltext_vmware.Json.{Json, null, num, obj, Fields, lookup, insert, is_none, truthy}
use saltext_vmware.Http.{Result, ok, err, out_of_fuel, get}
use saltext_vmware.Exec.{Env, World, pure, lift, ◌>>=◌}
use saltext_vmware.Exec.Runs.{bind-ok, lift-bind}
use saltext_vmware.PatchState.Ret.{Ret, fresh}
use saltext_vmware.PasswordPolicy.Client.{
  api_age, schema_age, to_policy, to_api_payload, get_policy, set_policy,
}
use saltext_vmware.PasswordPolicy.State.{
  is_within, entries_of, update_age, update_unless_test, limit_age, within_max_age,
}
use saltext_vmware.PasswordPolicy.RoundTrip.{to_api_payload-insert, lookup-to_policy}

get_found :
    (fs : Fields) (key : String) (v : Json) → lookup fs key ≡ some v → get (obj fs) key null ≡ ok v
get_found fs key v h = ground arith

module _ ⦃E : Env⦄ (opts : Json) (max_days : ℕ) (profile : Option String) where
  module _ (test : Json) (asked : get opts "test" null ≡ ok test) (on : truthy test ≡ true) where
    update_unless_test_still :
        (ret : Ret) (policy current : Json) (w : World E.State)
        → (update_unless_test opts max_days profile ret policy current w).1 ≡ w
    unfolding update_unless_test ◌>>=◌ lift pure
    update_unless_test_still ret policy current w = rw (asked, on) refl

    limit_age_still :
        (ret : Ret) (policy current : Json) (w : World E.State)
        → (limit_age opts max_days profile ret policy current w).1 ≡ w
    unfolding limit_age ◌>>=◌ lift pure
    limit_age_still ret policy current w =
        ground (arith, update_unless_test_still ret policy current w)

    limited_still :
        (ret : Ret) (policy : Json) (r : Result Json) (w : World E.State)
        → ((lift r >>= λ current. limit_age opts max_days profile ret policy current) w).1 ≡ w
    unfolding ◌>>=◌ lift
    limited_still ret policy (ok current) w = limit_age_still ret policy current w
    limited_still ret policy (err e) w = refl
    limited_still ret policy out_of_fuel w = refl

    looked_up_still :
        (ret : Ret) (r : Result Json) (w : World E.State)
        → ((lift r >>= λ policy. lift (get policy schema_age null) >>= λ current.
              limit_age opts max_days profile ret policy current)
            w).1
          ≡ w
    unfolding ◌>>=◌ lift
    looked_up_still ret (ok policy) w = limited_still ret policy (get policy schema_age null) w
    looked_up_still ret (err e) w = refl
    looked_up_still ret out_of_fuel w = refl

    -- With `test` set in the options, `within_max_age` does to the world what reading the policy does,
    -- and nothing more: it runs the same commands.
    pub within_max_age_dry :
        (name : String) (w : World E.State)
        → (within_max_age opts max_days profile name w).1 ≡ (get_policy opts profile w).1
    unfolding within_max_age ◌>>=◌ lift
    within_max_age_dry name w =
        let (r, w') = get_policy opts profile w in looked_up_still (fresh name) r w'

  update_age_world :
      (ret : Ret) (body : Fields) (current : Json) (w : World E.State)
      → (update_age opts max_days profile ret (obj body) current w).1
        ≡ (set_policy opts (insert body schema_age (num max_days)) profile w).1
  unfolding update_age entries_of ◌>>=◌ lift pure
  update_age_world ret body current w = ground arith

  limit_age_over :
      (ret : Ret) (policy current test : Json) (w : World E.State)
      → is_none current ≡ false
      → is_within current max_days ≡ ok false
      → get opts "test" null ≡ ok test
      → truthy test ≡ false
      → limit_age opts max_days profile ret policy current w
        ≡ update_age opts max_days profile ret policy current w
  unfolding limit_age update_unless_test ◌>>=◌ lift
  limit_age_over ret policy current test w there over asked off = rw (there, over, asked, off) refl

  -- Without `test`, where the appliance has an age above the limit, and no field
  -- `passwordExpirationDays` of its own, `within_max_age` reads the policy and sets it to what it
  -- was with the limit as its age: the body that it sends back is the policy of the appliance with
  -- `maximumPasswordAge` replaced, and every other field as it was.
  pub within_max_age_update :
      (name : String) (api : Fields) (age test : Json) (w w' : World E.State)
      → get_policy opts profile w ≡ (ok (obj (to_policy api)), w')
      → lookup api schema_age ≡ none
      → lookup api api_age ≡ some age
      → is_none age ≡ false
      → is_within age max_days ≡ ok false
      → get opts "test" null ≡ ok test
      → truthy test ≡ false
      → let body = insert (to_policy api) schema_age (num max_days) in
        ((within_max_age opts max_days profile name w).1 ≡ (set_policy opts body profile w').1)
        × (to_api_payload body ≡ insert api api_age (num max_days))
  unfolding within_max_age
  within_max_age_update name api age test w w' read native has there over asked off =
      let current : get (obj (to_policy api)) schema_age null ≡ ok age =
        get_found (to_policy api) schema_age age (lookup-to_policy api age has) in
      let steps : within_max_age opts max_days profile name w
          ≡ update_age opts max_days profile (fresh name) (obj (to_policy api)) age w' =
        bind-ok (get_policy opts profile) _ read
        ∙ (lift-bind (get (obj (to_policy api)) schema_age null) _ current
            ∙ limit_age_over (fresh name) (obj (to_policy api)) age test w' there over asked off) in
      (
        rw steps (update_age_world (fresh name) (to_policy api) age w'),
        to_api_payload-insert api native age (num max_days) has,
      )
