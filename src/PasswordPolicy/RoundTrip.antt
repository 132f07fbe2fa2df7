-- ===== src/PasswordPolicy/RoundTrip.antt =====
-- The translation of a policy and back.
use text.Mathlib.TextPositions.{eq_refl}
use saltext_vmware.Base.{String, ◌≡◌, refl, ◌∙◌, ap, none, some, Option, arith}
use saltext_vmware.Json.{Json, Fields, end, field, lookup, insert, remove}
use saltext_vmware.Json.Laws.{lookup-insert, insert-insert}
use saltext_vmware.PasswordPolicy.Client.{api_age, schema_age, with_age, to_policy, to_api_payload}

remove_absent : (fs : Fields) (k : String) → lookup fs k ≡ none → remove fs k ≡ fs
remove_absent end k h = refl
remove_absent (field j v fs) k h = ground (arith, remove_absent fs k)

remove-insert :
    (fs : Fields) (k : String) (v : Json) → lookup fs k ≡ none → remove (insert fs k v) k ≡ fs
remove-insert end k v h = rw eq_refl refl
remove-insert (field j w fs) k v h = ground (arith, remove-insert fs k v)

insert_present : (fs : Fields) (k : String) (v : Json) → lookup fs k ≡ some v → insert fs k v ≡ fs
insert_present end k v h = cc
insert_present (field j w fs) k v h = ground (arith, insert_present fs k v)

module _ (api : Fields) (native : lookup api schema_age ≡ none) where
  payload_of : (v : Json) → to_api_payload (insert api schema_age v) ≡ insert api api_age v
  unfolding to_api_payload
  payload_of v =
      ap (with_age (remove (insert api schema_age v) schema_age))
        (lookup-insert api schema_age schema_age v)
      ∙ ap (λ p. insert p api_age v) (remove-insert api schema_age v native)

  sent_back : (age : Option Json) → lookup api api_age ≡ age → to_api_payload (to_policy api) ≡ api
  unfolding to_policy to_api_payload
  sent_back none h = rw (h, native) (remove_absent api schema_age native)
  sent_back (some age) h = rw h (payload_of age ∙ insert_present api api_age age h)

  -- A policy of the appliance, which does not have the field `passwordExpirationDays`, comes back
  -- unchanged: what `_to_api_payload` makes of what `_to_policy` makes of it is the same dict, with
  -- its entries in the same order.
  pub to_api_payload-to_policy : to_api_payload (to_policy api) ≡ api
  to_api_payload-to_policy = sent_back (lookup api api_age) refl

  -- To set `passwordExpirationDays` in the policy that `_to_policy` makes, and to send it back, sets
  -- `maximumPasswordAge`, where there was one, and changes nothing else.
  pub to_api_payload-insert :
      (age v : Json)
      → lookup api api_age ≡ some age
      → to_api_payload (insert (to_policy api) schema_age v) ≡ insert api api_age v
  unfolding to_policy
  to_api_payload-insert age v h = rw (h, insert-insert api schema_age age v) (payload_of v)

-- The policy that `_to_policy` makes has the age of the appliance under the name of the schema.
pub lookup-to_policy :
    (api : Fields) (age : Json)
    → lookup api api_age ≡ some age
    → lookup (to_policy api) schema_age ≡ some age
unfolding to_policy
lookup-to_policy api age h = rw h (lookup-insert api schema_age schema_age age)
