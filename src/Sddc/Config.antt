-- ===== src/Sddc/Config.antt =====
-- `get_config` and `get_ssh_config` of utils/sddc.py.
use saltext_vmware.Base.{String, Option}
use saltext_vmware.Json.{Json, null, num, empty, ◌or◌}
use saltext_vmware.Http.{Result, ok, get, ◌>>=◌}
use saltext_vmware.Http.Done.{IsDone, done_rules}
use saltext_vmware.Settings.{Connection, SshConfig, connection, section, either}
use saltext_vmware.Settings.{connection-IsDone, section-IsDone}

unfoldable pub get_config : Json → Option String → Result Connection
get_config opts profile = do cfg ← section "sddc_manager" opts profile; connection null cfg

unfoldable pub get_ssh_config : Json → Option String → Result SshConfig
get_ssh_config opts profile = do
  cfg ← section "sddc_manager" opts profile
  found ← get cfg "ssh" empty
  ssh_host ← get (found or empty) "host" null
  host ← either cfg "host" "hostname" null
  username ← either (found or empty) "username" "user" null
  password ← get (found or empty) "password" null
  port ← get (found or empty) "port" (num 22)
  ok (record { host = ssh_host or host; username = username; password = password; port = port })

pub get_config-IsDone : (opts : Json) (profile : Option String) → IsDone (get_config opts profile)
unfolding get_config
get_config-IsDone opts profile = search (done_rules, section-IsDone, connection-IsDone)
