-- ===== src/PasswordPolicy/State.antt =====
-- `within_max_age` and `present` of states/vcf_sddc_manager_password_policy.py.
use saltext_vmware.Base.{ℕ, String, ◌<>◌, Bool, true, false, Option, none, some, List, []}
use saltext_vmware.Base.{◌∷◌, leb, if◌then◌else◌}
use saltext_vmware.Json.{Json, null, bool, num, str, arr, obj, Fields, field, end, Items, nil, cons}
use saltext_vmware.Json.{insert, is_none, truthy, get_or}
use saltext_vmware.Json.Equal.{equal}
use saltext_vmware.Http.{exc, type_error, Result, ok, err, get}
use saltext_vmware.Exec.{Env, Exec, pure, lift, ◌>>=◌, ◌>>◌, show}
use saltext_vmware.PatchState.Ret.{Ret, fresh}
use saltext_vmware.PasswordPolicy.Client.{schema_age, get_policy, set_policy}

-- `current_days <= max_days`
unfoldable pub is_within : Json → ℕ → Result Bool
is_within (num n) max_days = ok (leb n max_days)
is_within (bool true) max_days = ok (leb 1 max_days)
is_within (bool false) max_days = ok true
is_within _ max_days = err (exc type_error "'<=' not supported between these instances")

-- `dict(policy)`
unfoldable pub entries_of : Json → Result Fields
entries_of (obj fs) = ok fs
entries_of _ = err (exc type_error "the policy is not a dict")

unfoldable pub age_changes : Json → ℕ → Json
age_changes current max_days =
    obj (field schema_age (obj (field "old" current (field "new" (num max_days) end))) end)

module _ ⦃E : Env⦄ (opts : Json) (max_days : ℕ) (profile : Option String) where
  unfoldable pub unreadable : Ret → Ret
  unreadable ret = record ret {
    result = some false;
    comment = "Could not read passwordExpirationDays from SDDC Manager password policy.";
  }

  unfoldable pub within_already : Ret → Json → Ret
  within_already ret current = record ret {
    comment =
        "SDDC Manager passwordExpirationDays is "
        <> show current
        <> " (within the "
        <> show (num max_days)
        <> "-day limit).";
  }

  unfoldable pub would_update : Ret → Json → Ret
  would_update ret current = record ret {
    result = none;
    comment =
        "SDDC Manager passwordExpirationDays is "
        <> show current
        <> ", which exceeds the "
        <> show (num max_days)
        <> "-day limit. Would update to "
        <> show (num max_days)
        <> ".";
  }

  unfoldable pub update_age : Ret → Json → Json → Exec Ret
  update_age ret policy current = do
    fs ← lift (entries_of policy)
    set_policy opts (insert fs schema_age (num max_days)) profile
    pure (record ret {
      changes = age_changes current max_days;
      comment =
          "Updated SDDC Manager passwordExpirationDays from "
          <> show current
          <> " to "
          <> show (num max_days)
          <> ".";
    })

  unfoldable pub update_unless_test : Ret → Json → Json → Exec Ret
  update_unless_test ret policy current = do
    test ← lift (get opts "test" null)
    if truthy test then pure (would_update ret current) else update_age ret policy current

  unfoldable pub limit_age : Ret → Json → Json → Exec Ret
  limit_age ret policy current = if is_none current then pure (unreadable ret) else do
    fits ← lift (is_within current max_days)
    if fits then pure (within_already ret current) else update_unless_test ret policy current

  unfoldable pub within_max_age : String → Exec Ret
  within_max_age name = do
    policy ← get_policy opts profile
    current ← lift (get policy schema_age null)
    limit_age (fresh name) policy current

unfoldable pub field_names : Fields → Items
field_names end = nil
field_names (field k v fs) = cons (str k) (field_names fs)

-- A field, the value that it has and the one that it is to have
pub record Mismatch : Type 0 where
  pub name : String
  pub actual : Json
  pub desired : Json

unfoldable pub mismatches : Fields → Fields → List Mismatch
mismatches policy end = []
mismatches policy (field k v fs) =
    let rest = mismatches policy fs in
    let actual = get_or policy k null in
    if equal actual v then rest else record { name = k; actual = actual; desired = v } ∷ rest

module _ ⦃E : Env⦄ (opts : Json) (profile : Option String) where
  unfoldable pub mismatch_text : Mismatch → String
  mismatch_text m = m.name <> ": got " <> E.repr m.actual <> ", want " <> E.repr m.desired

  unfoldable pub mismatch_texts : List Mismatch → String
  mismatch_texts [] = ""
  mismatch_texts (m ∷ []) = mismatch_text m
  mismatch_texts (m ∷ n ∷ ms) = mismatch_text m <> "; " <> mismatch_texts (n ∷ ms)

  unfoldable pub compared : Ret → Fields → List Mismatch → Ret
  compared ret desired [] = record ret {
    comment =
        "SDDC Manager password policy matches all desired values: "
        <> E.repr (arr (field_names desired))
        <> ".";
  }
  compared ret desired (m ∷ ms) = record ret {
    result = some false;
    comment =
        "SDDC Manager password policy fields do not match desired values: "
        <> mismatch_texts (m ∷ ms);
  }

  unfoldable pub compare_unless_test : Ret → Json → Fields → Json → Exec Ret
  compare_unless_test ret policy desired test =
      if truthy test
      then pure (record ret {
        result = none;
        comment =
            "Would check SDDC Manager password policy fields: "
            <> E.repr (arr (field_names desired))
            <> ".";
      })
      else do fs ← lift (entries_of policy); pure (compared ret desired (mismatches fs desired))

  unfoldable pub present : String → Fields → Exec Ret
  present name desired = do
    policy ← get_policy opts profile
    test ← lift (get opts "test" null)
    compare_unless_test (fresh name) policy desired test
