-- ===== src/Sddc/Reading.antt =====
-- Requests that change nothing on SDDC Manager: reads, and the acquisition of a token.
use saltext_vmware.Base.{String, ◌≡◌, refl, ◌⊎◌, inl, inr, Option, none, some, All, List, [], ◌∷◌}
use saltext_vmware.Json.{Json, null}
use saltext_vmware.Http.{Request, Response, get}
use saltext_vmware.Settings.{Connection}
use saltext_vmware.Exec.{Env, Exec}
use saltext_vmware.Exec.Keeps.{
  History, Keeps, keeps_rules, Keeps-sent, Keeps-bind, Keeps-lift, Keeps-if, Keeps-pure,
}
use saltext_vmware.Vcenter.Session.{require_success}
use saltext_vmware.Vcenter.Api.{content_or_empty}
use saltext_vmware.Json.Equal.{equal}
use saltext_vmware.Sddc.Session.{token_request, request_token, acquire, cached_or_acquire}
use saltext_vmware.Sddc.Session.{get_token, session}
use saltext_vmware.Sddc.Api.{call, api_get}
use saltext_vmware.Rest.{or_none, first_with, element_with}

module _ ⦃E : Env⦄ where
  -- A GET, or the request of a token for some configuration
  abbrev pub IsRead : Request → Type 0
  IsRead r = (r.method ≡ "GET") ⊎ ((cfg : Connection) × (r ≡ token_request cfg))

  abbrev pub OnlyReads : History
  OnlyReads = All IsRead

  require_success-Keeps : (resp : Response) → Keeps OnlyReads (require_success resp)
  unfolding require_success
  require_success-Keeps resp = search keeps_rules

  content_or_empty-Keeps : (resp : Response) → Keeps OnlyReads (content_or_empty resp)
  unfolding content_or_empty
  content_or_empty-Keeps resp = search keeps_rules

  request_token-Keeps : (cfg : Connection) → Keeps OnlyReads (request_token cfg)
  unfolding request_token
  request_token-Keeps cfg =
      Keeps-bind _ _ (Keeps-sent {P = IsRead} (token_request cfg) (inr (cfg, refl)))
        λ resp. search (keeps_rules, require_success-Keeps) depth 10

  cached_or_acquire-Keeps :
      (cfg : Connection) (known : Option Json) → Keeps OnlyReads (cached_or_acquire cfg known)
  unfolding cached_or_acquire acquire
  cached_or_acquire-Keeps cfg (some token) = search keeps_rules
  cached_or_acquire-Keeps cfg none = search (keeps_rules, request_token-Keeps) depth 8

  session-Keeps : (opts : Json) (profile : Option String) → Keeps OnlyReads (session opts profile)
  unfolding session get_token
  session-Keeps opts profile = search (keeps_rules, cached_or_acquire-Keeps) depth 12

  pub api_get-OnlyReads :
      (opts : Json) (path : String) (params : Json) (profile : Option String)
      → Keeps OnlyReads (api_get opts path params profile)
  unfolding api_get call
  api_get-OnlyReads opts path params profile =
      Keeps-bind _ _
        (Keeps-bind _ _ (session-Keeps opts profile)
          λ connected. Keeps-bind _ _ (Keeps-sent {P = IsRead} _ (inl refl)) require_success-Keeps)
        content_or_empty-Keeps

  pub or_none-OnlyReads : (m : Exec Json) → Keeps OnlyReads m → Keeps OnlyReads (or_none m)
  unfolding or_none
  or_none-OnlyReads m h = search (keeps_rules, h) depth 6

  first_with-OnlyReads :
      (key : String) (name : Json) (els : List Json) → Keeps OnlyReads (first_with key name els)
  unfolding first_with
  first_with-OnlyReads key name [] = Keeps-pure null
  first_with-OnlyReads key name (el ∷ els) = Keeps-bind _ _ (Keeps-lift (get el key null)) λ found.
      Keeps-if (equal found name) _ _ (λ _. Keeps-pure el) (λ _. first_with-OnlyReads key name els)

  pub element_with-OnlyReads :
      (key : String) (name body : Json) → Keeps OnlyReads (element_with key name body)
  unfolding element_with
  element_with-OnlyReads key name body = search (keeps_rules, first_with-OnlyReads) depth 8
