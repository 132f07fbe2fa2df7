-- ===== src/VlcmState/Landed.antt =====
-- `image_configured` succeeds only with the image that was asked for.
use saltext_vmware.Base.{String, ◌≡◌, ap, ◌∙◌, true, Bool-cases, inl, inr, Option, some}
use saltext_vmware.Base.{◌&&◌, arith}
use saltext_vmware.Json.{Json, null, str, arr, nil, ◌or◌, truthy}
use saltext_vmware.Json.Equal.{equal}
use saltext_vmware.Http.{ok}
use saltext_vmware.Exec.{Env, World, Exec, pure, lift, ◌>>=◌}
use saltext_vmware.Exec.Ensures.{Ensures}
use saltext_vmware.Exec.Runs.{lift-bind-eq-ok, lift-bind, paired}
use saltext_vmware.Vlcm.Images.{desired_image_get, drafts_list}
use saltext_vmware.PatchState.Ret.{Ret, fresh, option_or}
use saltext_vmware.VlcmState.Settings.{pillar_section}
use saltext_vmware.VlcmState.Values.{base_version, first_draft_id}
use saltext_vmware.VlcmState.Attempt.{try_or_fail}
use saltext_vmware.VlcmState.Image.{
  settle_draft, image_unless_current, image_for, image_given, image_configured,
}
use saltext_vmware.VlcmState.Importing.{ImageArgs, ImageGoal}
use saltext_vmware.VlcmState.Landing.{
  try_or_fail-Ensures, Landed, Lands, failed-Lands, try-Lands, settle_draft-Lands,
}

module _ ⦃E : Env⦄ (opts : Json) (profile : Option String) (args : ImageArgs) (ret : Ret)
    (committed : truthy args.commit ≡ true) (cluster spec desired : Json)
    (asked : truthy desired ≡ true) where
  abbrev goal_at : Json → ImageGoal
  goal_at current = record { cluster = cluster; spec = spec; current = current; desired = desired }

  staged-Lands :
      (current : Json)
      → Ensures (Lands opts profile cluster desired) (
          try_or_fail ret (drafts_list opts profile cluster) (λ drafts.
            settle_draft opts profile ret args
              (goal_at current)
              (first_draft_id (drafts or arr nil))))
  staged-Lands current =
      try-Lands opts profile args ret (goal_at current) asked committed _ _
        (λ drafts. settle_draft-Lands opts profile args ret (goal_at current) asked committed _)

  current-Lands :
      (w v v' : World E.State) (image current : Json) (r : Ret)
      → desired_image_get opts profile cluster w ≡ (ok image, v)
      → base_version image ≡ ok current
      → image_unless_current opts profile ret args (goal_at current) v ≡ (ok r, v')
      → Lands opts profile cluster desired r v'
  unfolding image_unless_current pure
  current-Lands w v v' image current r read found run success =
      elim (Bool-cases (truthy desired && equal current desired)) [
        | inl same ↦
            let run' = rw same at run in
            let here : v ≡ v' = ap (λ x. x.1) run' in
            let there : equal current desired ≡ true = ground arith in
            (w, image, current, read ∙ ap (λ u. (ok image, u)) here, found, there)
        | inr other ↦
            let run' = rw other at run in
            let lands = (staged-Lands current).at v r (ap (λ x. x.0) run') success in
            rw (ap (λ x. x.1) run') at lands
      ]

  -- What follows the first read of the desired image
  abbrev after_read : Json → Exec Ret
  after_read image = lift (base_version image) >>= λ current.
      image_unless_current opts profile ret args (goal_at current)

  read-Lands :
      (w : World E.State) (image : Json) (r : Ret)
      → let v = (desired_image_get opts profile cluster w).1 in
        (desired_image_get opts profile cluster w).0 ≡ ok image
        → (after_read image v).0 ≡ ok r
        → Lands opts profile cluster desired r (after_read image v).1
  read-Lands w image r q k =
      let v = (desired_image_get opts profile cluster w).1 in
      let (current, found, run) =
        lift-bind-eq-ok (base_version image)
          (λ current. image_unless_current opts profile ret args (goal_at current)) {w = v}
          (paired (after_read image) v k) in
      current-Lands w v _ image current r (paired (desired_image_get opts profile cluster) w q)
        found run

  image_for-Lands :
      base_version spec ≡ ok desired
      → Ensures (Lands opts profile cluster desired) (image_for opts profile ret args cluster spec)
  unfolding image_for
  image_for-Lands versioned = record {
    at = λ w r. rw (lift-bind (base_version spec) _ versioned) (
        (try_or_fail-Ensures (Lands opts profile cluster desired) ret _ _
            (failed-Lands opts profile args ret (goal_at null) asked committed) read-Lands).at
          w r);
  }

module _ ⦃E : Env⦄ (opts : Json) (profile : Option String) where
  image_configured-eq :
      (name : String) (args : ImageArgs) (cfg spec : Json) (w : World E.State)
      → pillar_section opts "image" ≡ ok cfg
      → option_or args.image_spec cfg "spec" ≡ ok spec
      → image_configured opts profile name args w
        ≡ image_given opts profile (fresh name) args (args.cluster_id or str name) spec w
  unfolding image_configured
  image_configured-eq name args cfg spec w c₁ c₂ = lift-bind _ _ c₁ ∙ lift-bind _ _ c₂

  -- With `commit` on and an image spec that has a base version, `image_configured` reports success
  -- only if the last that it did was to read the desired image of the cluster, and its version
  -- equals the one asked for.
  pub image_configured-Landed :
      (name : String) (args : ImageArgs) (cfg spec desired : Json) (w : World E.State) (r : Ret)
      → pillar_section opts "image" ≡ ok cfg
      → option_or args.image_spec cfg "spec" ≡ ok spec
      → truthy spec ≡ true
      → base_version spec ≡ ok desired
      → truthy desired ≡ true
      → truthy args.commit ≡ true
      → (image_configured opts profile name args w).0 ≡ ok r
      → r.result ≡ some true
      → Landed opts profile
          (args.cluster_id or str name)
          desired
          (image_configured opts profile name args w).1
  unfolding image_given
  image_configured-Landed name args cfg spec desired w r c₁ c₂ given versioned asked committed =
      rw (image_configured-eq name args cfg spec w c₁ c₂, given)
        ((image_for-Lands opts profile args (fresh name) committed (args.cluster_id or str name)
            spec desired asked versioned).at
          w r)
