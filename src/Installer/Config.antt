-- ===== src/Installer/Config.antt =====
-- `get_config` of utils/installer.py.
use saltext_vmware.Base.{String, Option}
use saltext_vmware.Json.{Json, str}
use saltext_vmware.Http.{Result, ◌>>=◌}
use saltext_vmware.Http.Done.{IsDone, done_rules}
use saltext_vmware.Settings.{Connection, connection, section, connection-IsDone, section-IsDone}

unfoldable pub get_config : Json → Option String → Result Connection
get_config opts profile = do
  cfg ← section "vcf_installer" opts profile
  connection (str "admin@local") cfg

pub get_config-IsDone : (opts : Json) (profile : Option String) → IsDone (get_config opts profile)
unfolding get_config
get_config-IsDone opts profile = search (done_rules, section-IsDone, connection-IsDone)
