-- ===== src/Tests/Secrets.antt =====
-- The redaction of states/vcf_vc_patch.py on concrete records.
use saltext_vmware.Base.{String, ◌≡◌}
use saltext_vmware.Base.{arith, eq_iff}
use saltext_vmware.Json.{str, arr, obj, nil, cons, field, end, Fields}
use saltext_vmware.PatchState.Redact.{redact}
use saltext_vmware.PatchState.RedactLaws.{redact_user_data_leak}
use saltext_vmware.Tests.Machine.{machine}

abbrev credentials : String → Fields
credentials password = field "user" (str "root") (field "Password" (str password) end)

redact_user_data_leak_example :
    let response =
      obj (field "user_data" (arr (cons (obj (field "password" (str "hunter2") end)) nil)) end) in
    redact response ≡ response
redact_user_data_leak_example =
    redact_user_data_leak "password" (str "hunter2") (ground (arith, eq_iff "password" "key"))
