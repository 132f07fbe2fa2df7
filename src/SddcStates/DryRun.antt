-- ===== src/SddcStates/DryRun.antt =====
-- Under `test=True` the states of SDDC Manager send only reads.
use saltext_vmware.Base.{String, ◌≡◌, true, not, Option, if◌then◌else◌}
use saltext_vmware.Json.{Json, null, str, is_none, truthy}
use saltext_vmware.Http.{ok, get, item}
use saltext_vmware.Exec.{Env, World, Exec, lift, ◌>>=◌}
use saltext_vmware.PatchState.Ret.{Ret}
use saltext_vmware.Exec.Keeps.{Keeps, Keeps-bind, Keeps-bind-lift, Keeps-if, Keeps-pure, Keeps-lift}
use saltext_vmware.Sddc.Reading.{
  OnlyReads, api_get-OnlyReads, or_none-OnlyReads, element_with-OnlyReads,
}
use saltext_vmware.SddcClients
use saltext_vmware.SddcClients.Domain.{get_by_name}
use saltext_vmware.SddcStates.Domain.{
  create_unless_test, present, mark_unless_test, mark_if_there, absent,
}
use saltext_vmware.SddcStates.Host.{
  commission_unless_test, commissioned, decommission_unless_test, decommissioned,
}

module _ ⦃E : Env⦄ (opts : Json) (name : String) (profile : Option String) where
  get_by_name-OnlyReads : (wanted : Json) → Keeps OnlyReads (get_by_name opts wanted profile)
  unfolding get_by_name SddcClients.Domain.list
  get_by_name-OnlyReads wanted =
      Keeps-bind _ _ (api_get-OnlyReads opts "/v1/domains" null profile)
        (element_with-OnlyReads "name" wanted)

  get_or_none-OnlyReads :
      (host : Json) → Keeps OnlyReads (SddcClients.Host.get_or_none opts host profile)
  unfolding SddcClients.Host.get_or_none SddcClients.Host.get
  get_or_none-OnlyReads host = or_none-OnlyReads _ (api_get-OnlyReads opts _ null profile)

  module _ (test : Json) (asked : item opts "test" ≡ ok test) (on : truthy test ≡ true) where
    -- What is guarded by the option `test` does not happen.
    guarded-OnlyReads :
        (dry real : Exec Ret)
        → Keeps OnlyReads dry
        → Keeps OnlyReads (lift (item opts "test") >>= λ t. if truthy t then dry else real)
    guarded-OnlyReads dry real h =
        Keeps-bind-lift (item opts "test") _ λ t e. let on' : truthy t ≡ true = cc in rw on' h

    present-OnlyReads : (spec : Json) → Keeps OnlyReads (present opts name profile spec)
    unfolding present create_unless_test
    present-OnlyReads spec = Keeps-bind _ _ (get_by_name-OnlyReads (str name)) λ current.
        Keeps-if (not (is_none current)) _ _ (λ _. Keeps-pure _)
          (λ _. guarded-OnlyReads _ _ (Keeps-pure _))

    absent-OnlyReads : Keeps OnlyReads (absent opts name profile)
    unfolding absent mark_if_there mark_unless_test
    absent-OnlyReads = Keeps-bind _ _ (get_by_name-OnlyReads (str name)) λ current.
        Keeps-if (is_none current) _ _ (λ _. Keeps-pure _)
          λ _.
            Keeps-bind _ _ (Keeps-lift (get current "id" null))
              (λ id. guarded-OnlyReads _ _ (Keeps-pure _))

    commissioned-OnlyReads :
        (host_spec : Json) → Keeps OnlyReads (commissioned opts name profile host_spec)
    unfolding commissioned commission_unless_test
    commissioned-OnlyReads host_spec = Keeps-bind _ _ (get_or_none-OnlyReads (str name)) λ current.
        Keeps-if (not (is_none current)) _ _ (λ _. Keeps-pure _)
          (λ _. guarded-OnlyReads _ _ (Keeps-pure _))

    decommissioned-OnlyReads : Keeps OnlyReads (decommissioned opts name profile)
    unfolding decommissioned decommission_unless_test
    decommissioned-OnlyReads = Keeps-bind _ _ (get_or_none-OnlyReads (str name)) λ current.
        Keeps-if (is_none current) _ _ (λ _. Keeps-pure _)
          (λ _. guarded-OnlyReads _ _ (Keeps-pure _))

    -- With `test` set in the options, the states of workload domains (`present`, `absent`) and of hosts
    -- (`commissioned`, `decommissioned`) send only reads and requests of a token.
    pub sddc_states_dry :
        (spec host_spec : Json) (w : World E.State)
        → OnlyReads w.sent
        → OnlyReads (present opts name profile spec w).1.sent
          × OnlyReads (absent opts name profile w).1.sent
          × OnlyReads (commissioned opts name profile host_spec w).1.sent
          × OnlyReads (decommissioned opts name profile w).1.sent
    sddc_states_dry spec host_spec w before = (
      (present-OnlyReads spec).at w before,
      absent-OnlyReads.at w before,
      (commissioned-OnlyReads host_spec).at w before,
      decommissioned-OnlyReads.at w before,
    )
