-- ===== src/PasswordPolicy/Client.antt =====
-- clients/sddc_manager_password_policy.py, and `run` of utils/ssh.py, where the connection is that
-- of a third-party library.
use saltext_vmware.Base.{
  ℕ, String, ◌<>◌, ◌==◌, Option, none, some, ◌∷◌, not, eqb, strip, shell_quote,
}
use saltext_vmware.Base.{if◌then◌else◌}
use saltext_vmware.Json.{Json, num, obj, Fields, lookup, insert, remove, empty, truthy}
use saltext_vmware.Http.{exc, runtime_error, value_error, type_error, Result, ok, err}
use saltext_vmware.Settings.{SshConfig}
use saltext_vmware.Exec.{Env, SshReply, exited, unreachable, interrupted}
use saltext_vmware.Exec.{Exec, pure, raise, lift, ◌>>=◌, show}
use saltext_vmware.Sddc.Config.{get_ssh_config}

abbrev pub policy_url : String
policy_url = "http://localhost/appliancemanager/security/password-policy"

abbrev pub api_age : String
api_age = "maximumPasswordAge"

abbrev pub schema_age : String
schema_age = "passwordExpirationDays"

-- `policy[_SCHEMA_AGE_FIELD] = ...`, if the dict has the age
abbrev pub with_alias : Fields → Option Json → Fields
with_alias api none = api
with_alias api (some age) = insert api schema_age age

unfoldable pub to_policy : Fields → Fields
to_policy api = with_alias api (lookup api api_age)

-- `payload[_API_AGE_FIELD] = ...`, if the body has the age
abbrev pub with_age : Fields → Option Json → Fields
with_age payload none = payload
with_age payload (some age) = insert payload api_age age

unfoldable pub to_api_payload : Fields → Fields
to_api_payload body = with_age (remove body schema_age) (lookup body schema_age)

-- What a command returns: its exit status, its output and its error output
pub record Output : Type 0 where
  pub rc : ℕ
  pub out : String
  pub error : String

module _ ⦃E : Env⦄ where
  unfoldable pub output_of : SshConfig → SshReply → Result Output
  output_of cfg (exited rc out error) = ok (record { rc = rc; out = out; error = error })
  output_of cfg (unreachable why) =
      err (exc runtime_error ("SSH connection to " <> show cfg.host <> " failed: " <> why))
  output_of cfg (interrupted e) = err e

  unfoldable pub execute : SshConfig → String → Exec Output
  execute cfg command w =
      let (reply, s) = E.run_command cfg command w.remote in
      (output_of cfg reply, record w { remote = s; ran = command ∷ w.ran })

  unfoldable pub run : SshConfig → String → Exec Output
  run cfg command =
      if not (truthy cfg.host)
      then raise (exc runtime_error "SSH config is missing a 'host'")
      else execute cfg command

  -- `_to_policy(json.loads(out))`; a JSON value that is no dict raises.
  unfoldable pub policy_of : Json → Result Json
  policy_of (obj api) = ok (obj (to_policy api))
  policy_of _ = err (exc type_error "the policy is not a dict")

  unfoldable pub loaded : String → Exec Json
  loaded out = elim (E.loads out) [
    | none ↦ raise (exc value_error "no JSON")
    | some v ↦ lift (policy_of v)
  ]

  unfoldable pub refused : String → SshConfig → Output → Exec Json
  refused method cfg output = raise (
      exc runtime_error (
        "Failed to "
        <> method
        <> " password policy on "
        <> show cfg.host
        <> ": rc="
        <> show (num output.rc)
        <> " "
        <> strip output.error))

  unfoldable pub get_command : String
  get_command = "curl -sf -H 'Content-Type: application/json' " <> policy_url

  unfoldable pub set_command : Fields → String
  set_command body =
      "curl -sf -X PUT -H 'Content-Type: application/json' -d "
      <> shell_quote (E.dumps (obj (to_api_payload body)))
      <> " "
      <> policy_url

  unfoldable pub get_policy : Json → Option String → Exec Json
  get_policy opts profile = do
    cfg ← lift (get_ssh_config opts profile)
    output ← run cfg get_command
    if not (eqb output.rc 0) then refused "GET" cfg output else loaded output.out

  unfoldable pub loaded_or_empty : String → Exec Json
  loaded_or_empty out = if strip out == "" then pure empty else loaded out

  unfoldable pub set_policy : Json → Fields → Option String → Exec Json
  set_policy opts body profile = do
    cfg ← lift (get_ssh_config opts profile)
    output ← run cfg (set_command body)
    if not (eqb output.rc 0) then refused "PUT" cfg output else loaded_or_empty output.out
