-- ===== src/SddcModules/Confirming.antt =====
-- What the changes of workload domains return when they are told to wait: modules/
-- vcf_sddc_workload_domain.py.
use saltext_vmware.Base.{ℕ, String, ◌≡◌, true, Option}
use saltext_vmware.Json.{Json, truthy}
use saltext_vmware.Http.{ok, item}
use saltext_vmware.Exec.{Env, World, lift}
use saltext_vmware.Exec.Returns.{Returns, Returns-after, Returns-if}
use saltext_vmware.SddcClients.Domain as Domain
use saltext_vmware.Sddc.Outcomes.{IsSuccessful, wait_ok}
use saltext_vmware.SddcModules.WorkloadDomain.{wait_for, create_domain}

module _ ⦃E : Env⦄ (opts : Json) (profile : Option String) where
  pub wait_for-IsSuccessful :
      (task : Json) (timeout poll : ℕ)
      → Returns IsSuccessful (wait_for opts task timeout poll profile)
  unfolding wait_for
  wait_for-IsSuccessful task timeout poll =
      Returns-after (lift (item task "id")) _
        λ id. record { at = λ w a p. wait_ok opts id profile timeout poll w a p }

  -- With `wait`, a domain's creation returns a task that has the status Successful: a response
  -- without an id is not returned.
  pub create_domain_ok :
      (spec wait : Json) (timeout poll : ℕ) (w : World E.State) (task : Json)
      → truthy wait ≡ true
      → (create_domain opts spec wait timeout poll profile w).0 ≡ ok task
      → IsSuccessful task
  unfolding create_domain
  create_domain_ok spec wait timeout poll w task h =
      (Returns-after (Domain.create opts spec profile) _ λ t.
          Returns-if (truthy wait) _ _ (λ _. wait_for-IsSuccessful t timeout poll)
            (λ n. absurd (cc))).at
        w task
