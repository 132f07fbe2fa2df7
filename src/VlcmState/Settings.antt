-- ===== src/VlcmState/Settings.antt =====
-- `_pillar_section` and `_task_settings` of states/vcf_esxi_vlcm.py.
use saltext_vmware.Base.{String, none, some}
use saltext_vmware.Json.{Json, num, Fields, empty, ◌or◌, lookup}
use saltext_vmware.Http.{Result, ok, get, ◌>>=◌}

unfoldable pub pillar_section : Json → String → Result Json
pillar_section opts section = do
  pillar ← get opts "pillar" empty
  root ← get pillar "saltext.vcf" empty
  vlcm ← get (root or empty) "esxi_vlcm" empty
  found ← get (vlcm or empty) section empty
  ok (found or empty)

pub record TaskSettings : Type 0 where
  pub timeout : Json
  pub poll_interval : Json

-- `kwargs.get(key, default)`
unfoldable pub keyword_or : Fields → String → Json → Json
keyword_or kwargs key default = elim (lookup kwargs key) [ none ↦ default | some v ↦ v ]

unfoldable pub task_settings : Json → Fields → Result TaskSettings
task_settings opts kwargs = do
  task ← pillar_section opts "task"
  timeout ← get task "timeout" (num 14400)
  poll_interval ← get task "poll_interval" (num 30)
  ok (record {
    timeout = keyword_or kwargs "task_timeout" timeout;
    poll_interval = keyword_or kwargs "task_poll_interval" poll_interval;
  })
