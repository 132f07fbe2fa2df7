-- ===== src/Vcenter/Reading.antt =====
-- Requests that change nothing on vCenter: reads, and the login of a session.
use saltext_vmware.Base.{String, ◌≡◌, refl, ◌⊎◌, inl, inr, Option, none, some, All}
use saltext_vmware.Json.{Json}
use saltext_vmware.Http.{Request, Response}
use saltext_vmware.Exec.{Env}
use saltext_vmware.Exec.Keeps.{History, Keeps, keeps_rules, Keeps-sent, Keeps-bind, Keeps-lift}
use saltext_vmware.Vcenter.Config.{Config}
use saltext_vmware.Vcenter.Session.{
  login_request, login, cached_or_login, require_success, get_session,
}
use saltext_vmware.Vcenter.Session.{invalidate_session}
use saltext_vmware.Vcenter.Api.{call, raise_for_status, content_or_empty, api_get, api_post}

module _ ⦃E : Env⦄ where
  -- A GET, or the login of some configuration
  abbrev pub IsRead : Request → Type 0
  IsRead r = (r.method ≡ "GET") ⊎ ((cfg : Config) × (r ≡ login_request cfg))

  abbrev pub OnlyReads : History
  OnlyReads = All IsRead

-- A predicate on requests that logins and GETs have
pub record Allows ⦃E : Env⦄ (P : Request → Type 0) : Type 0 where
  pub logins : (cfg : Config) → P (login_request cfg)
  pub gets : (r : Request) → r.method ≡ "GET" → P r

module _ ⦃E : Env⦄ {P : Request → Type 0} (allows : Allows P) where
  require_success-Keeps : (resp : Response) → Keeps (All P) (require_success resp)
  unfolding require_success
  require_success-Keeps resp = search keeps_rules

  login-Keeps : (cfg : Config) → Keeps (All P) (login cfg)
  unfolding login
  login-Keeps cfg =
      Keeps-bind _ _ (Keeps-sent {P = P} (login_request cfg) (allows.logins cfg))
        λ resp. search (keeps_rules, require_success-Keeps) depth 10

  cached_or_login-Keeps :
      (cfg : Config) (known : Option Json) → Keeps (All P) (cached_or_login cfg known)
  unfolding cached_or_login
  cached_or_login-Keeps cfg none = login-Keeps cfg
  cached_or_login-Keeps cfg (some token) = search keeps_rules

  pub get_session-Keeps :
      (opts : Json) (profile : Option String) → Keeps (All P) (get_session opts profile)
  unfolding get_session
  get_session-Keeps opts profile = search (keeps_rules, cached_or_login-Keeps) depth 8

  pub invalidate_session-Keeps :
      (opts : Json) (profile : Option String) → Keeps (All P) (invalidate_session opts profile)
  unfolding invalidate_session
  invalidate_session-Keeps opts profile = search keeps_rules depth 8

  raise_for_status-Keeps : (resp : Response) → Keeps (All P) (raise_for_status resp)
  unfolding raise_for_status
  raise_for_status-Keeps resp = search keeps_rules

  pub call-Keeps :
      (method : String) (opts : Json) (path : String) (params body : Json) (profile : Option String)
      (override : Json)
      → ((r : Request) → r.method ≡ method → r.params ≡ params → P r)
      → Keeps (All P) (call method opts path params body profile override)
  unfolding call
  call-Keeps method opts path params body profile override k =
      Keeps-bind _ _ (get_session-Keeps opts profile) λ session.
        Keeps-bind _ _ (Keeps-lift _) λ timeout.
          Keeps-bind _ _ (Keeps-sent {P = P} _ (k _ refl refl))
            λ resp. search (keeps_rules, raise_for_status-Keeps)

  content_or_empty-Keeps : (resp : Response) → Keeps (All P) (content_or_empty resp)
  unfolding content_or_empty
  content_or_empty-Keeps resp = search keeps_rules

  pub api_get-Keeps :
      (opts : Json) (path : String) (params : Json) (profile : Option String) (timeout : Json)
      → Keeps (All P) (api_get opts path params profile timeout)
  unfolding api_get
  api_get-Keeps opts path params profile timeout =
      Keeps-bind _ _
        (call-Keeps "GET" opts path params _ profile timeout (λ r e _. allows.gets r e))
        content_or_empty-Keeps

  pub api_post-Keeps :
      (opts : Json) (path : String) (body params : Json) (profile : Option String) (timeout : Json)
      → ((r : Request) → r.method ≡ "POST" → r.params ≡ params → P r)
      → Keeps (All P) (api_post opts path body params profile timeout)
  unfolding api_post
  api_post-Keeps opts path body params profile timeout k =
      Keeps-bind _ _ (call-Keeps "POST" opts path params body profile timeout k)
        content_or_empty-Keeps

module _ ⦃E : Env⦄ where
  pub reads : Allows IsRead
  reads = record { logins = λ cfg. inr (cfg, refl); gets = λ r e. inl e }
