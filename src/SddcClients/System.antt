-- ===== src/SddcClients/System.antt =====
-- clients/sddc_system.py.
use saltext_vmware.Base.{String, ◌<>◌, Option}
use saltext_vmware.Json.{Json, null}
use saltext_vmware.Exec.{Env, Exec, show}
use saltext_vmware.Rest.{or_none}
use saltext_vmware.Sddc.Api.{api_get}

module _ ⦃E : Env⦄ (opts : Json) where
  unfoldable pub get_system : Option String → Exec Json
  get_system profile = api_get opts "/v1/system" null profile

  unfoldable pub list_personalities : Option String → Exec Json
  list_personalities profile = api_get opts "/v1/personalities" null profile

  unfoldable pub get_personality : Json → Option String → Exec Json
  get_personality personality_id profile =
      api_get opts ("/v1/personalities/" <> show personality_id) null profile

  unfoldable pub get_personality_or_none : Json → Option String → Exec Json
  get_personality_or_none personality_id profile = or_none (get_personality personality_id profile)
