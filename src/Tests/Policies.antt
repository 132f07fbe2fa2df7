-- ===== src/Tests/Policies.antt =====
-- The password policy of SDDC Manager and the log server over the scripted machine.
use saltext_vmware.Base.{◌≡◌, ◌≤◌, refl, true, none, [], ◌∷◌}
use saltext_vmware.Json.{Json, Fields, null, bool, num, str, obj, field, end, insert}
use saltext_vmware.Dict.{find}
use saltext_vmware.Settings.{section, of_profile, either}
use saltext_vmware.Exec.Costs.{length}
use saltext_vmware.Exec.{World, Lease, pure, raise, lift, ◌>>=◌, now, get_caches}
use saltext_vmware.Exec.{to_int}
use saltext_vmware.Sddc.Config.{get_ssh_config}
use saltext_vmware.PasswordPolicy.Client.{
  schema_age, to_policy, to_api_payload, output_of, execute, run, policy_of, loaded, get_command,
  get_policy, set_policy,
}
use saltext_vmware.PasswordPolicy.State.{is_within, within_max_age}
use saltext_vmware.PasswordPolicy.RoundTrip.{to_api_payload-to_policy}
use saltext_vmware.PasswordPolicy.Effects.{within_max_age_dry, within_max_age_update}
use saltext_vmware.Vrli
use saltext_vmware.Vrli.Config.{Config, cache_key}
use saltext_vmware.Vrli.Session.{cached_or_renew, token_for, get_token}
use saltext_vmware.Vrli.Api.{request}
use saltext_vmware.Vrli.Freshness.{IsGood, get_token-IsGood}
use saltext_vmware.Vrli.Retry.{session_request_at_most}
use saltext_vmware.Tests.Machine.{Script, machine, failure, scripted, no_caches}

abbrev policy : Fields
policy = field "maximumPasswordAge" (num 365) end

to_api_payload-to_policy_example : to_api_payload (to_policy policy) ≡ policy
to_api_payload-to_policy_example = to_api_payload-to_policy policy refl

abbrev ssh : Json
ssh = obj (field "ssh" (obj (field "host" (str "h") end)) end)

abbrev log_server : Json
log_server = obj (field "host" (str "l") (field "username" (str "u") end))

abbrev root : Fields
root = field "sddc_manager" ssh (field "vrli" log_server end)

abbrev options : Json
options = obj (field "pillar" (obj (field "saltext.vcf" (obj root) end)) end)

abbrev test_options : Json
test_options =
    obj (field "pillar" (obj (field "saltext.vcf" (obj root) end)) (field "test" (bool true) end))

abbrev idle : World Script
idle = scripted []

within_max_age_dry_example :
    (within_max_age test_options 90 none "age" idle).1 ≡ (get_policy test_options none idle).1
within_max_age_dry_example =
    within_max_age_dry test_options 90 none (bool true) refl refl "age" idle

-- After the command that reads the policy
abbrev read : World Script
read = record idle {
  remote = record { time = 1; answers = [] };
  ran =
      "curl -sf -H 'Content-Type: application/json' http://localhost/appliancemanager/security/password-policy"
      ∷ [];
}

within_max_age_update_example :
    let body = insert (to_policy policy) schema_age (num 90) in
    ((within_max_age options 90 none "age" idle).1 ≡ (set_policy options body none read).1)
    × (to_api_payload body ≡ insert policy "maximumPasswordAge" (num 90))
unfolding get_policy get_ssh_config get_command run execute output_of loaded policy_of to_policy
    is_within section of_profile either pure lift raise ◌>>=◌
within_max_age_update_example =
    within_max_age_update options 90 none "age" policy (num 365) null idle read refl refl refl refl
      refl refl refl

abbrev config : Config
config = record {
  host = str "l";
  port = 9543;
  username = str "u";
  password = null;
  provider = str "Local";
  verify_ssl = bool true;
  timeout = num 30;
  ssh = obj end;
}

abbrev lease : Lease
lease = record { token = str "t"; expires_at = 100; provider = str "Local" }

-- `repr` of a number is `1` on this machine.
abbrev leased : World Script
leased = record (scripted (failure 403 ∷ [])) {
  caches = record no_caches { vrli = ("l:1:u", lease) ∷ [] };
}

get_token-IsGood_example : IsGood config (str "t") leased leased
unfolding get_token token_for cached_or_renew Vrli.Config.get_config cache_key section of_profile
    either to_int find pure lift raise ◌>>=◌ now get_caches
get_token-IsGood_example = get_token-IsGood options none config leased leased (str "t") refl refl

session_request_at_most_example :
    length (request "GET" options "/api/v2/version" null null none null leased).1.sent ≤ 4
session_request_at_most_example =
    session_request_at_most "GET" options "/api/v2/version" null null none null leased
