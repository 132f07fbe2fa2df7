-- ===== src/VlcmState/Landing.antt =====
-- What `image_configured` does with a draft succeeds only with the image that was asked for.
use saltext_vmware.Base.{String, ◌≡◌, refl, sym, ap, ◌∙◌, Bool, true, false, Option, none, some}
use saltext_vmware.Base.{if◌then◌else◌, arith}
use saltext_vmware.Json.{Json, null, truthy}
use saltext_vmware.Json.Equal.{equal}
use saltext_vmware.Http.{Exc, Result, ok, err, out_of_fuel}
use saltext_vmware.Exec.{Env, World, Exec, pure, catch, ◌>>=◌}
use saltext_vmware.Exec.Ensures.{Ensures, ensures_rules, Ensures-pure, Ensures-after, Ensures-if}
use saltext_vmware.Exec.Runs.{bind-eq-ok, lift-bind-eq-ok}
use saltext_vmware.Vlcm.Images.{desired_image_get}
use saltext_vmware.PatchState.Ret.{Ret, fail, guarded}
use saltext_vmware.VlcmState.Settings.{TaskSettings}
use saltext_vmware.VlcmState.Values.{base_version}
use saltext_vmware.VlcmState.Attempt.{proceed, try_or_fail}
use saltext_vmware.VlcmState.Image.{
  set_image, after_draft, reuse_version, reuse_draft, delete_unless_test, delete_draft,
  settle_draft,
}
use saltext_vmware.VlcmState.Importing.{
  ImageArgs, ImageGoal, differs, not_landed, image_set, verify_image, commit_draft, with_draft,
}

module _ ⦃E : Env⦄ {A : Type 0} (P : Ret → World E.State → Type 0) where
  tried :
      (r : Result A) (v : World E.State) (ret : Ret) (rest : A → Exec Ret) (b : Ret)
      → ((e : Exc) (u : World E.State) → P (fail ret e) u)
      → ((a : A) → r ≡ ok a → (rest a v).0 ≡ ok b → P b (rest a v).1)
      → (try_or_fail ret (λ _. (r, v)) rest v).0 ≡ ok b
      → P b (try_or_fail ret (λ _. (r, v)) rest v).1
  unfolding try_or_fail proceed catch pure ◌>>=◌
  tried (ok a) v ret rest b h k p = k a refl p
  tried (err e) v ret rest b h k p = let q : fail ret e ≡ b = cc in rw (sym q) (h e v)
  tried out_of_fuel v ret rest b h k p = cc

  -- What follows a `try` may use the run of its body.
  pub try_or_fail-Ensures :
      (ret : Ret) (m : Exec A) (rest : A → Exec Ret)
      → ((e : Exc) (u : World E.State) → P (fail ret e) u)
      → ((w : World E.State) (a : A) (b : Ret)
          → (m w).0 ≡ ok a
          → (rest a (m w).1).0 ≡ ok b
          → P b (rest a (m w).1).1)
      → Ensures P (try_or_fail ret m rest)
  unfolding try_or_fail proceed catch pure ◌>>=◌
  try_or_fail-Ensures ret m rest h k = record {
    at = λ w b p. tried (m w).0 (m w).1 ret rest b h (λ a. k w a b) p;
  }

module _ ⦃E : Env⦄ (opts : Json) (profile : Option String) (cluster desired : Json) where
  -- The last that was done was to read the desired image of the cluster, and its version was the
  -- one asked for.
  abbrev pub Landed : World E.State → Type 0
  Landed v =
      (before : World E.State) × (image : Json) × (version : Json) × (desired_image_get opts profile
          cluster before
        ≡ (ok image, v))
      × (base_version image ≡ ok version)
      × (equal version desired ≡ true)

  abbrev pub Lands : Ret → World E.State → Type 0
  Lands ret v = ret.result ≡ some true → Landed v

module _ ⦃E : Env⦄ (opts : Json) (profile : Option String) (args : ImageArgs) (ret : Ret)
    (goal : ImageGoal) (asked : truthy goal.desired ≡ true)
    (committed : truthy args.commit ≡ true) where
  -- The world after a success has the image that was asked for.
  abbrev pub LandsGoal : Ret → World E.State → Type 0
  LandsGoal = Lands opts profile goal.cluster goal.desired

  same-differs :
      (version : Json) → differs goal.desired version ≡ false → equal version goal.desired ≡ true
  unfolding differs
  same-differs version h = ground arith

  judged :
      (b : Bool) (version : Json) (r : Ret)
      → r
        ≡ (if b then not_landed opts profile ret goal version else image_set opts profile ret goal)
      → r.result ≡ some true
      → b ≡ false
  unfolding not_landed fail
  judged true version r e h = cc
  judged false version r e h = refl

  verified :
      (w v : World E.State) (r : Ret)
      → verify_image opts profile ret goal w ≡ (ok r, v)
      → LandsGoal r v
  unfolding verify_image pure
  verified w v r h success =
      let (image, q, rest) = bind-eq-ok _ _ h in
      let (version, found, last) = lift-bind-eq-ok _ _ rest in
      let here : (desired_image_get opts profile goal.cluster w).1 ≡ v = ap (λ x. x.1) last in
      let told : ok _ ≡ ok r = ap (λ x. x.0) last in
      (
        w,
        image,
        version,
        q ∙ ap (λ u. (ok image, u)) here,
        found,
        same-differs version (judged (differs goal.desired version) version r (cc) success),
      )

  verify_image-Lands : Ensures LandsGoal (verify_image opts profile ret goal)
  verify_image-Lands = record {
    at = λ w r p. verified w _ r (ap (λ x. (x, (verify_image opts profile ret goal w).1)) p);
  }

  pub failed-Lands : (e : Exc) (v : World E.State) → LandsGoal (fail ret e) v
  unfolding fail
  failed-Lands e v success = cc

  fails-Lands : (e : Exc) → Ensures LandsGoal (pure (fail ret e))
  fails-Lands e = Ensures-pure _ (failed-Lands e)

  undecided-Lands : (r : Ret) → r.result ≡ none → Ensures LandsGoal (pure r)
  undecided-Lands r h = Ensures-pure r (λ v success. cc)

  commit_draft-Lands :
      (settings : TaskSettings) (draft_id : Json)
      → Ensures LandsGoal (commit_draft opts profile ret args goal settings draft_id)
  unfolding commit_draft
  commit_draft-Lands settings draft_id =
      rw committed (search (ensures_rules, verify_image-Lands) depth 8)

  with_draft-Lands :
      (settings : TaskSettings) (draft_id : Json)
      → Ensures LandsGoal (with_draft opts profile ret args goal settings draft_id)
  unfolding with_draft
  with_draft-Lands settings draft_id =
      search (ensures_rules, fails-Lands, commit_draft-Lands) depth 8

  set_image-Lands :
      (draft_id test : Json)
      → Ensures LandsGoal (set_image opts profile ret args goal draft_id test)
  unfolding set_image guarded
  set_image-Lands draft_id test =
      Ensures-if (truthy test) _ _ (undecided-Lands _ refl) (
        Ensures-after _ _ λ settings. search (ensures_rules, fails-Lands, with_draft-Lands) depth 8)

  after_draft-Lands :
      (draft_id : Json) → Ensures LandsGoal (after_draft opts profile ret args goal draft_id)
  unfolding after_draft
  after_draft-Lands draft_id = search (ensures_rules, set_image-Lands) depth 8

  pub try-Lands :
      {A : Type 0} (m : Exec A) (rest : A → Exec Ret)
      → ((a : A) → Ensures LandsGoal (rest a))
      → Ensures LandsGoal (try_or_fail ret m rest)
  try-Lands m rest k = try_or_fail-Ensures _ ret m rest failed-Lands (λ w a b p. (k a).at _ b)

  reuse_draft-Lands :
      (existing : Json) → Ensures LandsGoal (reuse_draft opts profile ret args goal existing)
  unfolding reuse_draft reuse_version
  reuse_draft-Lands existing =
      search (ensures_rules, try-Lands, fails-Lands, after_draft-Lands) depth 12

  delete_draft-Lands :
      (existing : Json) → Ensures LandsGoal (delete_draft opts profile ret args goal existing)
  unfolding delete_draft delete_unless_test
  delete_draft-Lands existing = Ensures-after _ _ λ test.
      Ensures-if _ _ _ (undecided-Lands _ refl) (try-Lands _ _ (λ answer. after_draft-Lands null))

  pub settle_draft-Lands :
      (existing : Json) → Ensures LandsGoal (settle_draft opts profile ret args goal existing)
  unfolding settle_draft
  settle_draft-Lands existing =
      search (ensures_rules, fails-Lands, after_draft-Lands, reuse_draft-Lands, delete_draft-Lands)
        depth 8
