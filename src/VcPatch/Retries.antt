-- ===== src/VcPatch/Retries.antt =====
-- How the monitors of clients/vc_patch.py take the errors of a status read.
use saltext_vmware.Base.{ℕ, ◌+◌, ◌<◌, String, ◌≡◌, refl, false, Option}
use saltext_vmware.Base.{◌⊎◌, inl, inr, arith, leb}
use saltext_vmware.Json.{Json}
use saltext_vmware.Http.{Exc, ok}
use saltext_vmware.Exec.{Env, World}
use saltext_vmware.Exec.Returns.{Returns, returns_rules}
use saltext_vmware.VcPatch.Polling.{Progress, inspect_stage, retry, poll_stage}

module _ ⦃E : Env⦄ (opts : Json) (profile : Option String) where
  -- A status that was read clears the count; an error that is survived raises it by one, and it
  -- stays below the limit.
  abbrev pub Counted : ℕ → Progress → Progress → Type 0
  Counted most p p' =
      (p'.errors ≡ 0)
      ⊎ ((p'.errors ≡ p.errors + 1) × (p.errors + 1 < most) × (p'.status ≡ p.status))

  inspect_stage-Counted :
      (most : ℕ) (p : Progress) (status : Json)
      → Returns (Counted most p) (inspect_stage opts profile status)
  unfolding inspect_stage
  inspect_stage-Counted most p status =
      let cleared : Counted most p (record { status = status; errors = 0 }) = inl refl in
      search (returns_rules, cleared)

  retry-Counted :
      (what : String) (most : ℕ) (p : Progress) (e : Exc)
      → Returns (Counted most p) (retry opts profile what most p e)
  unfolding retry
  retry-Counted what most p e =
      let survived : leb most (p.errors + 1) ≡ false
          → Counted most p (record { status = p.status; errors = p.errors + 1 }) =
        λ h. inr (refl, ground arith, refl) in
      search (returns_rules, survived) depth 8

  pub poll_stage-Counted :
      (most : ℕ) (p : Progress) → Returns (Counted most p) (poll_stage opts profile most p)
  unfolding poll_stage
  poll_stage-Counted most p = search (returns_rules, inspect_stage-Counted, retry-Counted) depth 8

  -- A round of `monitor_stage` that goes on has read a status and cleared the count of transient
  -- errors, or has counted one more, below the limit, and kept the last status.
  pub poll_stage_ok :
      (most : ℕ) (p : Progress) (w : World E.State) (p' : Progress)
      → (poll_stage opts profile most p w).0 ≡ ok p'
      → Counted most p p'
  poll_stage_ok most p = (poll_stage-Counted most p).at
