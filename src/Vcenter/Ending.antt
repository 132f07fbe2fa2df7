-- ===== src/Vcenter/Ending.antt =====
-- The calls of utils/vcenter.py return or raise, and the loop of `wait_for_task` ends.
use saltext_vmware.Base.{String}
use saltext_vmware.Base.{Option, none, some, arith}
use saltext_vmware.Json.{Json}
use saltext_vmware.Http.{Response}
use saltext_vmware.Http.Done.{IsDone, done_rules}
use saltext_vmware.Exec.{Env, IsClock, lift}
use saltext_vmware.Exec.Total.{IsTotal, total_rules, lift-IsTotal}
use saltext_vmware.Vcenter.Config.{
  Config, profile_section, read_config, get_config, resolve_timeout,
}
use saltext_vmware.Vcenter.Session.{
  get_session, invalidate_session, body_of, login, cached_or_login,
}
use saltext_vmware.Vcenter.Session.{require_success}
use saltext_vmware.Vcenter.Api.{
  call, content_or_empty, raise_for_status, api_get, api_post, api_put,
}

profile_section-IsDone :
    (root : Json) (profile : Option String) (cfg : Json) → IsDone (profile_section root profile cfg)
unfolding profile_section
profile_section-IsDone root none cfg = search done_rules
profile_section-IsDone root (some name) cfg = search done_rules

read_config-IsDone : (cfg : Json) → IsDone (read_config cfg)
unfolding read_config
read_config-IsDone cfg = search done_rules depth 20

get_config-IsDone : (opts : Json) (profile : Option String) → IsDone (get_config opts profile)
unfolding get_config
get_config-IsDone opts profile =
    search (done_rules, profile_section-IsDone, read_config-IsDone) depth 16

resolve_timeout-IsDone :
    (opts : Json) (profile : Option String) (override : Json)
    → IsDone (resolve_timeout opts profile override)
unfolding resolve_timeout
resolve_timeout-IsDone opts profile override = search (done_rules, get_config-IsDone)

body_of-IsDone : (resp : Response) → IsDone (body_of resp)
unfolding body_of
body_of-IsDone resp = record { done = λ p. ground arith }

module _ ⦃E : Env⦄ (c : IsClock E) where
  require_success-IsTotal : (resp : Response) → IsTotal (require_success resp)
  unfolding require_success
  require_success-IsTotal resp = search total_rules

  body-IsTotal : (resp : Response) → IsTotal (lift (body_of resp))
  body-IsTotal resp = lift-IsTotal (body_of resp) (body_of-IsDone resp).done

  config-IsTotal :
      (opts : Json) (profile : Option String) → IsTotal (lift (get_config opts profile))
  config-IsTotal opts profile = lift-IsTotal _ (get_config-IsDone opts profile).done

  timeout-IsTotal :
      (opts : Json) (profile : Option String) (override : Json)
      → IsTotal (lift (resolve_timeout opts profile override))
  timeout-IsTotal opts profile override =
      lift-IsTotal _ (resolve_timeout-IsDone opts profile override).done

  cached_or_login-IsTotal :
      (cfg : Config) (known : Option Json) → IsTotal (cached_or_login cfg known)
  unfolding cached_or_login login
  cached_or_login-IsTotal cfg none =
      search (total_rules, c, require_success-IsTotal, body-IsTotal) depth 12
  cached_or_login-IsTotal cfg (some token) = search total_rules

  pub get_session-IsTotal :
      (opts : Json) (profile : Option String) → IsTotal (get_session opts profile)
  unfolding get_session
  get_session-IsTotal opts profile =
      search (total_rules, config-IsTotal, cached_or_login-IsTotal) depth 12

  pub invalidate_session-IsTotal :
      (opts : Json) (profile : Option String) → IsTotal (invalidate_session opts profile)
  unfolding invalidate_session
  invalidate_session-IsTotal opts profile = search (total_rules, config-IsTotal) depth 8

  raise_for_status-IsTotal : (resp : Response) → IsTotal (raise_for_status resp)
  unfolding raise_for_status
  raise_for_status-IsTotal resp = search total_rules

  content_or_empty-IsTotal : (resp : Response) → IsTotal (content_or_empty resp)
  unfolding content_or_empty
  content_or_empty-IsTotal resp = search (total_rules, body-IsTotal)

  call-IsTotal :
      (method : String) (opts : Json) (path : String) (params body : Json) (profile : Option String)
      (override : Json)
      → IsTotal (call method opts path params body profile override)
  unfolding call
  call-IsTotal method opts path params body profile override =
      search (total_rules, c, get_session-IsTotal, timeout-IsTotal, raise_for_status-IsTotal) depth
        12

  pub api_get-IsTotal :
      (opts : Json) (path : String) (params : Json) (profile : Option String) (timeout : Json)
      → IsTotal (api_get opts path params profile timeout)
  unfolding api_get
  api_get-IsTotal opts path params profile timeout =
      search (total_rules, call-IsTotal, content_or_empty-IsTotal)

  pub api_post-IsTotal :
      (opts : Json) (path : String) (body params : Json) (profile : Option String) (timeout : Json)
      → IsTotal (api_post opts path body params profile timeout)
  unfolding api_post
  api_post-IsTotal opts path body params profile timeout =
      search (total_rules, call-IsTotal, content_or_empty-IsTotal)

  pub api_put-IsTotal :
      (opts : Json) (path : String) (body : Json) (profile : Option String) (timeout : Json)
      → IsTotal (api_put opts path body profile timeout)
  unfolding api_put
  api_put-IsTotal opts path body profile timeout =
      search (total_rules, call-IsTotal, content_or_empty-IsTotal)
