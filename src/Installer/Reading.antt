-- ===== src/Installer/Reading.antt =====
-- Requests that change nothing on the VCF Installer: reads, and the login of a session.
use saltext_vmware.Base.{ℕ, String, ◌≡◌, refl, ◌⊎◌, inl, inr, Option, none, some, All}
use saltext_vmware.Json.{Json, null}
use saltext_vmware.Http.{Request, Response}
use saltext_vmware.Settings.{Connection}
use saltext_vmware.Exec.{Env, Bearer, send, ◌>>=◌}
use saltext_vmware.Exec.Keeps.{History, Keeps, keeps_rules, Keeps-sent, Keeps-bind}
use saltext_vmware.Vcenter.Session.{Session, require_success}
use saltext_vmware.Vcenter.Api.{content_or_empty}
use saltext_vmware.Waiting.Keeping.{poll_until-Keeps}
use saltext_vmware.Installer.Session.{login_request, login, open_session, cached_or_open, session}
use saltext_vmware.Installer.Session.{invalidate_session}
use saltext_vmware.Installer.Api.{session_request, attempt, again_if_unauthorized, request, api_get}
use saltext_vmware.Installer.Bringup.{bringup_status, bringup_ended}
use saltext_vmware.Installer.Bringup.{look_at_bringup, wait_bringup, list_bringups}

module _ ⦃E : Env⦄ where
  -- A GET, or the login of some configuration
  abbrev pub IsRead : Request → Type 0
  IsRead r = (r.method ≡ "GET") ⊎ ((cfg : Connection) × (r ≡ login_request cfg))

  abbrev pub OnlyReads : History
  OnlyReads = All IsRead

module _ ⦃E : Env⦄ {P : History}
    (logins : (cfg : Connection) → Keeps P (send (login_request cfg))) where
  require_success-Keeps : (resp : Response) → Keeps P (require_success resp)
  unfolding require_success
  require_success-Keeps resp = search keeps_rules

  content_or_empty-Keeps : (resp : Response) → Keeps P (content_or_empty resp)
  unfolding content_or_empty
  content_or_empty-Keeps resp = search keeps_rules

  login-Keeps : (cfg : Connection) → Keeps P (login cfg)
  unfolding login
  login-Keeps cfg =
      Keeps-bind _ _ (logins cfg) λ resp. search (keeps_rules, require_success-Keeps) depth 10

  cached_or_open-Keeps :
      (cfg : Connection) (known : Option Bearer) → Keeps P (cached_or_open cfg known)
  unfolding cached_or_open open_session
  cached_or_open-Keeps cfg (some known) = search keeps_rules
  cached_or_open-Keeps cfg none = search (keeps_rules, login-Keeps) depth 8

  session-Keeps : (opts : Json) (profile : Option String) → Keeps P (session opts profile)
  unfolding session
  session-Keeps opts profile = search (keeps_rules, cached_or_open-Keeps) depth 8

  invalidate_session-Keeps :
      (opts : Json) (profile : Option String) → Keeps P (invalidate_session opts profile)
  unfolding invalidate_session
  invalidate_session-Keeps opts profile = search keeps_rules depth 8

  module _ (method : String) (opts : Json) (path : String) (params body : Json)
      (profile : Option String)
      (calls : (s : Session) → Keeps P (send (session_request method path params body s))) where
    attempt-Keeps : Keeps P (attempt method opts path params body profile)
    unfolding attempt
    attempt-Keeps = Keeps-bind _ _ (session-Keeps opts profile) calls

    -- What follows the first attempt
    pub finish-Keeps :
        (resp : Response)
        → Keeps P (
            again_if_unauthorized method opts path params body profile resp >>= λ final.
            require_success final >>= content_or_empty)
    unfolding again_if_unauthorized
    finish-Keeps resp =
        search
          (
            keeps_rules, attempt-Keeps, invalidate_session-Keeps, require_success-Keeps,
            content_or_empty-Keeps,
          )
          depth 12

    pub request-Keeps : Keeps P (request method opts path params body profile)
    unfolding request
    request-Keeps = Keeps-bind _ _ attempt-Keeps finish-Keeps

module _ ⦃E : Env⦄ where
  pub api_get-OnlyReads :
      (opts : Json) (path : String) (params : Json) (profile : Option String)
      → Keeps OnlyReads (api_get opts path params profile)
  unfolding api_get session_request
  api_get-OnlyReads opts path params profile =
      request-Keeps (λ cfg. Keeps-sent {P = IsRead} (login_request cfg) (inr (cfg, refl))) "GET"
        opts path params null profile
        (λ s. Keeps-sent {P = IsRead} (session_request "GET" path params null s) (inl refl))

  pub list_bringups-OnlyReads :
      (opts : Json) (profile : Option String) → Keeps OnlyReads (list_bringups opts profile)
  unfolding list_bringups
  list_bringups-OnlyReads opts profile = api_get-OnlyReads opts "/v1/sddcs" null profile

  look_at_bringup-OnlyReads :
      (opts sddc_id : Json) (profile : Option String) (timeout : ℕ)
      → Keeps OnlyReads (look_at_bringup opts sddc_id profile timeout)
  unfolding look_at_bringup bringup_status bringup_ended
  look_at_bringup-OnlyReads opts sddc_id profile timeout =
      search (keeps_rules, api_get-OnlyReads) depth 12

  pub wait_bringup-OnlyReads :
      (opts sddc_id : Json) (profile : Option String) (timeout poll : ℕ)
      → Keeps OnlyReads (wait_bringup opts sddc_id profile timeout poll)
  unfolding wait_bringup
  wait_bringup-OnlyReads opts sddc_id profile timeout poll =
      poll_until-Keeps _ (look_at_bringup-OnlyReads opts sddc_id profile timeout) timeout poll
