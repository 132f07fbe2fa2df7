-- ===== src/Vcenter/Config.antt =====
-- `get_config` and `_resolve_timeout` of utils/vcenter.py.
use saltext_vmware.Base.{String, true, Option, none, some, if◌then◌else◌, ◌==◌}
use saltext_vmware.Json.{Json, null, bool, num, empty, truthy, ◌or◌, is_none}
use saltext_vmware.Http.{Result, ok, get, ◌>>=◌}

pub record Config : Type 0 where
  pub host : Json
  pub username : Json
  pub password : Json
  pub verify_ssl : Json
  pub timeout : Json

abbrev pub default_timeout : Json
default_timeout = num 30

-- The `vcenter` section of a profile that is named, else `cfg`.
unfoldable pub profile_section : Json → Option String → Json → Result Json
profile_section root none cfg = ok cfg
profile_section root (some name) cfg = if name == "" then ok cfg else do
  profiles ← get root "profiles" empty
  chosen ← get profiles name empty
  get chosen "vcenter" cfg

unfoldable pub read_config : Json → Result Config
read_config cfg = do
  host ← get cfg "host" null
  hostname ← (if truthy host then ok null else get cfg "hostname" null)
  username ← get cfg "username" null
  user ← (if truthy username then ok null else get cfg "user" null)
  password ← get cfg "password" null
  verify_ssl ← get cfg "verify_ssl" (bool true)
  timeout ← get cfg "timeout" default_timeout
  ok (record {
    host = host or hostname;
    username = username or user;
    password = password;
    verify_ssl = verify_ssl;
    timeout = timeout;
  })

unfoldable pub get_config : Json → Option String → Result Config
unfolding profile_section read_config
get_config opts profile = do
  pillar ← get opts "pillar" empty
  in_pillar ← get pillar "saltext.vcf" empty
  root ← (if truthy in_pillar then ok in_pillar else get opts "saltext.vcf" empty)
  cfg ← get root "vcenter" empty
  section ← profile_section root profile cfg
  read_config section

unfoldable pub resolve_timeout : Json → Option String → Json → Result Json
unfolding get_config
resolve_timeout opts profile override =
    if is_none override then (do cfg ← get_config opts profile; ok cfg.timeout) else ok override
