-- ===== src/VlcmState/Policy.antt =====
-- `policy_configured` of states/vcf_esxi_vlcm.py.
use Prim.Native.String.{compare}
use text.Mathlib.Text.{is_le}
use saltext_vmware.Base.{String, ◌<>◌, Option, none, if◌then◌else◌}
use saltext_vmware.Json.{Json, null, str, arr, obj, Items, nil, cons, Fields, field, end, empty}
use saltext_vmware.Json.{◌or◌, truthy, get_or}
use saltext_vmware.Json.Equal.{equal}
use saltext_vmware.Http.{exc, value_error, attribute_error, Result, ok, err, get}
use saltext_vmware.Exec.{Env, Exec, pure, lift, ◌>>=◌, ◌>>◌, show}
use saltext_vmware.Vlcm.Images.{apply_policy_get, apply_policy_set}
use saltext_vmware.PatchState.Ret.{Ret, fresh, fail, guarded}
use saltext_vmware.VlcmState.Settings.{pillar_section}
use saltext_vmware.VlcmState.Attempt.{try_or_fail}

-- `{k: v for k, v in policy_spec.items() if current.get(k) != v}` of two dicts
unfoldable pub changed : Fields → Fields → Fields
changed current end = end
changed current (field k v fs) =
    let rest = changed current fs in
    if equal (get_or current k null) v then rest else field k v rest

-- The same, of values that are dicts or else raise
unfoldable pub policy_diff : Json → Json → Result Fields
policy_diff (obj spec) (obj current) = ok (changed current spec)
policy_diff (obj spec) _ = err (exc attribute_error "object has no attribute 'get'")
policy_diff _ _ = err (exc attribute_error "object has no attribute 'items'")

-- Where `sorted` puts a text
unfoldable pub insert_text : String → Items → Items
insert_text s nil = cons (str s) nil
insert_text s (cons (str t) vs) =
    let rest = insert_text s vs in
    if is_le (compare s t) then cons (str s) (cons (str t) vs) else cons (str t) rest
insert_text s (cons v vs) = cons (str s) (cons v vs)

-- `sorted(d)`: the keys in order
unfoldable pub sorted_keys : Fields → Items
sorted_keys end = nil
sorted_keys (field k v fs) = insert_text k (sorted_keys fs)

module _ ⦃E : Env⦄ (opts : Json) (profile : Option String) where
  unfoldable pub update_unless_test : Ret → Json → Json → Fields → Json → Exec Ret
  update_unless_test ret cluster spec diff test =
      if truthy test
      then pure (record ret {
        result = none;
        comment =
            "would update cluster "
            <> show cluster
            <> " apply policy: "
            <> show (arr (sorted_keys diff));
        changes = obj diff;
      })
      else guarded ret (do
        apply_policy_set opts profile cluster spec
        pure (record ret {
          changes = obj diff;
          comment = "cluster " <> show cluster <> " apply policy updated";
        }))

  unfoldable pub update_changed : Ret → Json → Json → Fields → Exec Ret
  update_changed ret cluster spec end =
      pure (record ret { comment = "cluster " <> show cluster <> " apply policy already matches" })
  update_changed ret cluster spec (field k v fs) = do
    test ← lift (get opts "test" null)
    update_unless_test ret cluster spec (field k v fs) test

  unfoldable pub compare_policy : Ret → Json → Json → Json → Exec Ret
  compare_policy ret cluster spec current = do
    diff ← lift (policy_diff spec (current or empty))
    update_changed ret cluster spec diff

  unfoldable pub policy_given : Ret → Json → Json → Exec Ret
  policy_given ret cluster spec =
      if truthy spec
      then try_or_fail ret (apply_policy_get opts profile cluster) (compare_policy ret cluster spec)
      else pure (
          fail ret (
            exc value_error
              "policy_configured requires 'policy_spec' (or pillar esxi_vlcm:policy)"))

  -- `policy_spec or _pillar_section("policy")`
  unfoldable pub spec_or_pillar : Json → Result Json
  spec_or_pillar policy_spec =
      if truthy policy_spec then ok policy_spec else pillar_section opts "policy"

  unfoldable pub policy_configured : String → Json → Json → Exec Ret
  policy_configured name cluster_id policy_spec = do
    spec ← lift (spec_or_pillar policy_spec)
    policy_given (fresh name) (cluster_id or str name) spec
