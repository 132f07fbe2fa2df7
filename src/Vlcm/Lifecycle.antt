-- ===== src/Vlcm/Lifecycle.antt =====
-- Lifecycle actions, reports and task polling of clients/esxi_vlcm.py.
use saltext_vmware.Base.{ℕ, String, ◌<>◌, true, false, Option, none, some, if◌then◌else◌}
use saltext_vmware.Json.{Json, null, bool, num, str, arr, nil, obj, field, end, is_none, lookup}
use saltext_vmware.Http.{exc, type_error, Result, ok, err}
use saltext_vmware.Exec.{Env, Exec, pure, raise, lift, catch_http, ◌>>=◌}
use saltext_vmware.Vcenter.Api.{api_get, api_post}
use saltext_vmware.Vcenter.Task as Task
use saltext_vmware.Vcenter.Task.{is_not_found}
use saltext_vmware.Vlcm.Images.{cluster_path}

-- `hosts if hosts is not None else []`
unfoldable pub hosts_or_all : Json → Json
hosts_or_all hosts = if is_none hosts then arr nil else hosts

-- `resp["value"]` of a dict that has one, else `resp`
unfoldable pub task_id : Json → Json
task_id (obj fs) = elim (lookup fs "value") [ none ↦ obj fs | some v ↦ v ]
task_id resp = resp

-- A number that is added to the time
unfoldable pub seconds : Json → Result ℕ
seconds (num n) = ok n
seconds (bool true) = ok 1
seconds (bool false) = ok 0
seconds v = err (exc type_error "unsupported operand type(s) for +")

module _ ⦃E : Env⦄ (opts : Json) (profile : Option String) where
  -- A poll interval that is no number raises here, and in the source at the first `sleep`.
  unfoldable pub wait_for_task : Json → Json → Json → Exec Json
  wait_for_task resp timeout poll_interval = do
    t ← lift (seconds timeout)
    p ← lift (seconds poll_interval)
    Task.wait_for_task opts (task_id resp) profile t p

module _ ⦃E : Env⦄ (opts : Json) (profile : Option String) (cluster : Json) where
  unfoldable pub lifecycle_action : String → Json → Exec Json
  lifecycle_action action body =
      api_post opts (cluster_path cluster "/software") body
        (obj (field "action" (str action) (field "vmw-task" (str "true") end))) profile null

  unfoldable pub compliance_scan : Json → Json → Exec Json
  compliance_scan commit hosts =
      lifecycle_action "scan" (obj (field "commit" commit (field "hosts" (hosts_or_all hosts) end)))

  unfoldable pub precheck : Json → Exec Json
  precheck commit = lifecycle_action "check" (obj (field "commit" commit end))

  unfoldable pub stage : Json → Json → Exec Json
  stage commit hosts =
      lifecycle_action "stage"
        (obj (field "commit" commit (field "hosts" (hosts_or_all hosts) end)))

  unfoldable pub remediate : Json → Exec Json
  remediate accept_eula = lifecycle_action "apply" (obj (field "accept_eula" accept_eula end))

  unfoldable pub report_or_none : String → Exec Json
  report_or_none suffix =
      catch_http
        (api_get opts (cluster_path cluster ("/software/reports/" <> suffix)) null profile null)
        λ e. if is_not_found e then pure null else raise e

  unfoldable pub last_check_result : Exec Json
  last_check_result = report_or_none "last-check-result"

  unfoldable pub apply_impact_report : Exec Json
  apply_impact_report = report_or_none "apply-impact"

  unfoldable pub last_apply_result : Exec Json
  last_apply_result = report_or_none "last-apply-result"
