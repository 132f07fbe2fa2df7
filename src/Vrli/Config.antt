-- ===== src/Vrli/Config.antt =====
-- `get_config`, `get_ssh_config`, `_base_url` and `_cache_key` of utils/vrli.py.
use saltext_vmware.Base.{ℕ, String, ◌<>◌, true, Option, none, some}
use saltext_vmware.Json.{Json, null, bool, num, str, obj, empty, ◌or◌, lookup, insert}
use saltext_vmware.Http.{exc, type_error, Result, ok, err, get, ◌>>=◌}
use saltext_vmware.Settings.{section, either}
use saltext_vmware.Exec.{Env, show, to_int}

pub record Config : Type 0 where
  pub host : Json
  pub port : ℕ
  pub username : Json
  pub password : Json
  pub provider : Json
  pub verify_ssl : Json
  pub timeout : Json
  pub ssh : Json

abbrev pub default_port : Json
default_port = num 9543

abbrev pub default_timeout : Json
default_timeout = num 30

abbrev pub default_provider : Json
default_provider = str "Local"

module _ ⦃E : Env⦄ where
  unfoldable pub get_config : Json → Option String → Result Config
  get_config opts profile = do
    cfg ← section "vrli" opts profile
    host ← either cfg "host" "hostname" null
    given ← get cfg "port" default_port
    port ← to_int given
    username ← either cfg "username" "user" null
    password ← get cfg "password" null
    provider ← get cfg "provider" default_provider
    verify_ssl ← get cfg "verify_ssl" (bool true)
    timeout ← get cfg "timeout" default_timeout
    ssh ← get cfg "ssh" empty
    ok (record {
      host = host;
      port = port;
      username = username;
      password = password;
      provider = provider;
      verify_ssl = verify_ssl;
      timeout = timeout;
      ssh = ssh or empty;
    })

  -- `ssh.setdefault("host", host)` of a dict
  unfoldable pub with_host : Json → Json → Result Json
  with_host (obj fs) host =
      ok (elim (lookup fs "host") [ none ↦ obj (insert fs "host" host) | some v ↦ obj fs ])
  with_host _ host = err (exc type_error "ssh is not a dict")

  unfoldable pub get_ssh_config : Json → Option String → Result Json
  get_ssh_config opts profile = do
    cfg ← get_config opts profile
    with_host (cfg.ssh or empty) cfg.host

  unfoldable pub base_url : Config → String
  base_url cfg = "https://" <> show cfg.host <> ":" <> show (num cfg.port)

  unfoldable pub cache_key : Config → String
  cache_key cfg = show cfg.host <> ":" <> show (num cfg.port) <> ":" <> show cfg.username
