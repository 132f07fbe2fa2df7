-- ===== src/Settings.antt =====
-- What the `get_config` functions of the products have in common: the section of the pillar that
-- they read (here after utils/sddc.py), and the settings with two names.
use saltext_vmware.Base.{String, true, Option, none, some, ◌==◌, if◌then◌else◌}
use saltext_vmware.Json.{Json, null, bool, empty, truthy, ◌or◌}
use saltext_vmware.Http.{Result, ok, get, ◌>>=◌}
use saltext_vmware.Http.Done.{IsDone, done_rules}

-- The section of the product in the profile that is named, else `cfg`
unfoldable pub of_profile : String → Json → Option String → Json → Result Json
of_profile product root none cfg = ok cfg
of_profile product root (some name) cfg = if name == "" then ok cfg else do
  profiles ← get root "profiles" empty
  chosen ← get profiles name empty
  get chosen product cfg

unfoldable pub section : String → Json → Option String → Result Json
unfolding of_profile
section product opts profile = do
  pillar ← get opts "pillar" empty
  in_pillar ← get pillar "saltext.vcf" empty
  root ← (if truthy in_pillar then ok in_pillar else get opts "saltext.vcf" empty)
  cfg ← get root product empty
  of_profile product root profile cfg

-- `cfg.get(key) or cfg.get(other, default)`
unfoldable pub either : Json → String → String → Json → Result Json
either cfg key other default = do v ← get cfg key null; w ← get cfg other default; ok (v or w)

of_profile-IsDone :
    (product : String) (root : Json) (profile : Option String) (cfg : Json)
    → IsDone (of_profile product root profile cfg)
unfolding of_profile
of_profile-IsDone product root none cfg = search done_rules
of_profile-IsDone product root (some name) cfg = search done_rules

pub section-IsDone :
    (product : String) (opts : Json) (profile : Option String)
    → IsDone (section product opts profile)
unfolding section
section-IsDone product opts profile = search (done_rules, of_profile-IsDone) depth 16

pub either-IsDone :
    (cfg : Json) (key other : String) (default : Json) → IsDone (either cfg key other default)
unfolding either
either-IsDone cfg key other default = search done_rules

pub record Connection : Type 0 where
  pub host : Json
  pub username : Json
  pub password : Json
  pub verify_ssl : Json

-- The dict that `get_config` of utils/sddc.py returns; utils/installer.py has a default user.
unfoldable pub connection : Json → Json → Result Connection
unfolding either
connection default_user cfg = do
  host ← either cfg "host" "hostname" null
  username ← either cfg "username" "user" default_user
  password ← get cfg "password" null
  verify_ssl ← get cfg "verify_ssl" (bool true)
  ok (record { host = host; username = username; password = password; verify_ssl = verify_ssl })

pub connection-IsDone : (default_user cfg : Json) → IsDone (connection default_user cfg)
unfolding connection
connection-IsDone default_user cfg = search (done_rules, either-IsDone) depth 8

-- The dict that `get_ssh_config` of utils/sddc.py returns
pub record SshConfig : Type 0 where
  pub host : Json
  pub username : Json
  pub password : Json
  pub port : Json
