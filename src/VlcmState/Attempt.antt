-- ===== src/VlcmState/Attempt.antt =====
-- `try: a = m except Exception as exc: return _fail(ret, exc)` in states/vcf_esxi_vlcm.py, with the
-- code after it.
use saltext_vmware.Base.{◌⊎◌, inl, inr}
use saltext_vmware.Http.{Exc}
use saltext_vmware.Exec.{Env, Exec, pure, catch, ◌>>=◌}
use saltext_vmware.PatchState.Ret.{Ret, fail}

module _ ⦃E : Env⦄ {A : Type 0} where
  unfoldable pub proceed : Ret → (A → Exec Ret) → Exc ⊎ A → Exec Ret
  proceed ret rest (inl e) = pure (fail ret e)
  proceed ret rest (inr a) = rest a

  unfoldable pub try_or_fail : Ret → Exec A → (A → Exec Ret) → Exec Ret
  try_or_fail ret m rest = do
    tried ← catch (do a ← m; pure (inr a)) (λ e. pure (inl e))
    proceed ret rest tried
