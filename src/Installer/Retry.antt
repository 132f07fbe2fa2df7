-- ===== src/Installer/Retry.antt =====
-- `_request` of utils/installer.py: what it sends, and what it does after a 401.
use saltext_vmware.Base.{String, refl, Option, none, some}
use saltext_vmware.Base.{◌+◌, ◌≤◌}
use saltext_vmware.Json.{Json}
use saltext_vmware.Http.{Response}
use saltext_vmware.Settings.{Connection}
use saltext_vmware.Exec.{Env, World, Bearer}
use saltext_vmware.Exec.Costs.{Costs, length, costs_rules, Costs-bind, Costs-send}
use saltext_vmware.Vcenter.Session.{require_success}
use saltext_vmware.Vcenter.Api.{content_or_empty}
use saltext_vmware.Installer.Session.{login, open_session}
use saltext_vmware.Installer.Session.{cached_or_open, session, invalidate_session}
use saltext_vmware.Installer.Api.{session_request, attempt, again_if_unauthorized, request}

module _ ⦃E : Env⦄ where
  pub require_success-Costs : (resp : Response) → Costs 0 (require_success resp)
  unfolding require_success
  require_success-Costs resp = search costs_rules

  content_or_empty-Costs : (resp : Response) → Costs 0 (content_or_empty resp)
  unfolding content_or_empty
  content_or_empty-Costs resp = search costs_rules

  cached_or_open-Costs :
      (cfg : Connection) (known : Option Bearer) → Costs 1 (cached_or_open cfg known)
  unfolding cached_or_open open_session login
  cached_or_open-Costs cfg (some known) = search costs_rules
  cached_or_open-Costs cfg none = search (costs_rules, require_success-Costs) depth 12

  session-Costs : (opts : Json) (profile : Option String) → Costs 1 (session opts profile)
  unfolding session
  session-Costs opts profile = search (costs_rules, cached_or_open-Costs) depth 8

  invalidate_session-Costs :
      (opts : Json) (profile : Option String) → Costs 0 (invalidate_session opts profile)
  unfolding invalidate_session
  invalidate_session-Costs opts profile = search costs_rules depth 8

module _ ⦃E : Env⦄ (method : String) (opts : Json) (path : String) (params body : Json)
    (profile : Option String) where
  attempt-Costs : Costs 2 (attempt method opts path params body profile)
  unfolding attempt
  attempt-Costs =
      Costs-bind 1 1 (session opts profile) _ refl (session-Costs opts profile)
        (λ connected. Costs-send (session_request method path params body connected))

  again-Costs :
      (resp : Response) → Costs 2 (again_if_unauthorized method opts path params body profile resp)
  unfolding again_if_unauthorized
  again-Costs resp = search (costs_rules, invalidate_session-Costs, attempt-Costs)

  pub request-Costs : Costs 4 (request method opts path params body profile)
  unfolding request
  request-Costs =
      Costs-bind 2 2 (attempt method opts path params body profile) _ refl attempt-Costs
        λ resp. search (costs_rules, again-Costs, require_success-Costs, content_or_empty-Costs)

  -- A call sends at most four requests, whatever the machine answers: one login and one attempt,
  -- and after a 401 each of them once more.
  pub request_at_most :
      (w : World E.State)
      → length (request method opts path params body profile w).1.sent ≤ 4 + length w.sent
  request_at_most w = request-Costs.at w
