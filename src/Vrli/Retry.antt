-- ===== src/Vrli/Retry.antt =====
-- `_request` of utils/vrli.py: what it sends, and what it does after a 401.
use saltext_vmware.Base.{String, refl, Option, none, some, ◌+◌, ◌≤◌}
use saltext_vmware.Json.{Json}
use saltext_vmware.Http.{Response}
use saltext_vmware.Exec.{Env, World, Lease, send}
use saltext_vmware.Exec.Costs.{Costs, length, costs_rules, Costs-bind, Costs-send, Costs-if}
use saltext_vmware.Installer.Retry.{require_success-Costs}
use saltext_vmware.Vrli.Config.{Config}
use saltext_vmware.Vrli.Session.{
  lease_of, acquire_token, renew, cached_or_renew, token_for, get_token, invalidate_token, session,
}
use saltext_vmware.Vrli.Api.{looks_like_session_expired, again_if_expired, request}

module _ ⦃E : Env⦄ where
  lease_of-Costs : (cfg : Config) (body session_id : Json) → Costs 0 (lease_of cfg body session_id)
  unfolding lease_of
  lease_of-Costs cfg body session_id = search costs_rules depth 10

  renew-Costs : (cfg : Config) → Costs 1 (renew cfg)
  unfolding renew acquire_token
  renew-Costs cfg = search (costs_rules, require_success-Costs, lease_of-Costs) depth 16

  cached_or_renew-Costs :
      (cfg : Config) (known : Option Lease) → Costs 1 (cached_or_renew cfg known)
  unfolding cached_or_renew
  cached_or_renew-Costs cfg none = renew-Costs cfg
  cached_or_renew-Costs cfg (some lease) = search (costs_rules, renew-Costs) depth 6

  session-Costs : (opts : Json) (profile : Option String) → Costs 1 (session opts profile)
  unfolding session get_token token_for
  session-Costs opts profile = search (costs_rules, cached_or_renew-Costs) depth 14

  invalidate_token-Costs :
      (opts : Json) (profile : Option String) → Costs 0 (invalidate_token opts profile)
  unfolding invalidate_token
  invalidate_token-Costs opts profile = search costs_rules depth 8

module _ ⦃E : Env⦄ (method : String) (opts : Json) (path : String) (params body : Json)
    (profile : Option String) (timeout : Json) where
  again-Costs :
      (cfg : Config) (resp : Response)
      → Costs 2 (again_if_expired method opts path params body profile timeout cfg resp)
  unfolding again_if_expired
  again-Costs cfg resp =
      Costs-if (looks_like_session_expired resp) _ _
        (Costs-bind 0 2 (invalidate_token opts profile) _ refl (invalidate_token-Costs opts profile)
          λ _.
            Costs-bind 1 1 (session opts profile) _ refl (session-Costs opts profile)
              (λ connected. Costs-send _))
        (search costs_rules)

  request-Costs : Costs 4 (request method opts path params body profile timeout)
  unfolding request
  request-Costs =
      Costs-bind 1 3 (session opts profile) _ refl (session-Costs opts profile) λ connected.
        Costs-bind 1 2 (send _) _ refl (Costs-send _)
          λ resp. search (costs_rules, again-Costs, require_success-Costs)

  -- A call sends at most four requests, whatever the server answers: one for a token and the call
  -- itself, and after an expired session each of them once more.
  pub session_request_at_most :
      (w : World E.State)
      → length (request method opts path params body profile timeout w).1.sent ≤ 4 + length w.sent
  session_request_at_most w = request-Costs.at w
