-- ===== src/SddcStates/Host.antt =====
-- `commissioned` and `decommissioned` of states/vcf_sddc_host.py.
use saltext_vmware.Base.{String, ◌<>◌, not, Option, none, if◌then◌else◌}
use saltext_vmware.Json.{Json, str, arr, nil, cons, obj, field, end, is_none, truthy, ◌or◌}
use saltext_vmware.Http.{item}
use saltext_vmware.Exec.{Env, Exec, pure, lift, ◌>>=◌, ◌>>◌}
use saltext_vmware.PatchState.Ret.{Ret, fresh}
use saltext_vmware.SddcClients.Host.{get_or_none, commission, decommission}

module _ ⦃E : Env⦄ (opts : Json) (name : String) (profile : Option String) where
  unfoldable pub host : String → String
  host what = "Host " <> name <> what

  unfoldable pub commission_host : Json → Exec Ret
  commission_host host_spec = do
    commission opts (host_spec or arr (cons (obj (field "hostfqdn" (str name) end)) nil)) profile
    pure (record (fresh name) {
      changes = obj (field "commissioned" (str name) end);
      comment = host " commissioned";
    })

  unfoldable pub commission_unless_test : Json → Exec Ret
  commission_unless_test host_spec = do
    test ← lift (item opts "test")
    if truthy test
        then pure (record (fresh name) { result = none; comment = host " would be commissioned" })
        else commission_host host_spec

  unfoldable pub commissioned : Json → Exec Ret
  commissioned host_spec = do
    current ← get_or_none opts (str name) profile
    if not (is_none current)
        then pure (record (fresh name) { comment = host " is already commissioned" })
        else commission_unless_test host_spec

  unfoldable pub decommission_host : Exec Ret
  decommission_host = do
    decommission opts (str name) profile
    pure (record (fresh name) {
      changes = obj (field "decommissioned" (str name) end);
      comment = host " decommissioned";
    })

  unfoldable pub decommission_unless_test : Exec Ret
  decommission_unless_test = do
    test ← lift (item opts "test")
    if truthy test
        then pure (record (fresh name) { result = none; comment = host " would be decommissioned" })
        else decommission_host

  unfoldable pub decommissioned : Exec Ret
  decommissioned = do
    current ← get_or_none opts (str name) profile
    if is_none current
        then pure (record (fresh name) { comment = host " is already decommissioned" })
        else decommission_unless_test
