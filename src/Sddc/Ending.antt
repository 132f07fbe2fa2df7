-- ===== src/Sddc/Ending.antt =====
-- The calls of utils/sddc.py and clients/sddc_tasks.py return or raise.
use saltext_vmware.Base.{ℕ, String, ◌<◌, ◌≢◌, Option, none, some, List, [], ◌∷◌, arith}
use saltext_vmware.Json.{Json, obj}
use saltext_vmware.Http.{Response, out_of_fuel, get, item}
use saltext_vmware.Http.Done.{IsDone-get, IsDone-item}
use saltext_vmware.Settings.{Connection}
use saltext_vmware.Exec.{Env, IsClock, World, lift}
use saltext_vmware.Exec.Total.{IsTotal, total_rules, lift-IsTotal, bind-IsTotal, pure-IsTotal}
use saltext_vmware.Vcenter.Session.{body_of, require_success}
use saltext_vmware.Vcenter.Api.{content_or_empty}
use saltext_vmware.Waiting.Ending.{poll_until-Ends}
use saltext_vmware.Sddc.Config.{get_config, get_config-IsDone}
use saltext_vmware.Sddc.Session.{request_token, acquire, cached_or_acquire, get_token, session}
use saltext_vmware.Sddc.Api.{call, api_get}
use saltext_vmware.Sddc.Errors.{iterate, as_text, join, join_rest, message_of, messages, error_list}
use saltext_vmware.Sddc.Errors.{error_message}
use saltext_vmware.Sddc.Tasks.{is_terminal, get_task, task_ended, look_at_task, wait}

module _ ⦃E : Env⦄ where
  pub require_success-IsTotal : (resp : Response) → IsTotal (require_success resp)
  unfolding require_success
  require_success-IsTotal resp = search total_rules

  pub body-IsTotal : (resp : Response) → IsTotal (lift (body_of resp))
  unfolding body_of
  body-IsTotal resp = lift-IsTotal (body_of resp) (λ p. ground arith)

  pub item-IsTotal : (v : Json) (key : String) → IsTotal (lift (item v key))
  item-IsTotal v key = lift-IsTotal _ (IsDone-item v key).done

  pub get-IsTotal : (v : Json) (key : String) (default : Json) → IsTotal (lift (get v key default))
  get-IsTotal v key default = lift-IsTotal _ (IsDone-get v key default).done

  pub content_or_empty-IsTotal : (resp : Response) → IsTotal (content_or_empty resp)
  unfolding content_or_empty
  content_or_empty-IsTotal resp = search (total_rules, body-IsTotal)

  config-IsTotal :
      (opts : Json) (profile : Option String) → IsTotal (lift (get_config opts profile))
  config-IsTotal opts profile = lift-IsTotal _ (get_config-IsDone opts profile).done

module _ ⦃E : Env⦄ (c : IsClock E) where
  cached_or_acquire-IsTotal :
      (cfg : Connection) (known : Option Json) → IsTotal (cached_or_acquire cfg known)
  unfolding cached_or_acquire acquire request_token
  cached_or_acquire-IsTotal cfg (some token) = search total_rules
  cached_or_acquire-IsTotal cfg none =
      search (total_rules, c, require_success-IsTotal, body-IsTotal, item-IsTotal) depth 14

  session-IsTotal : (opts : Json) (profile : Option String) → IsTotal (session opts profile)
  unfolding session get_token
  session-IsTotal opts profile =
      search (total_rules, config-IsTotal, cached_or_acquire-IsTotal) depth 12

  call-IsTotal :
      (opts : Json) (method path : String) (params body : Json) (profile : Option String)
      → IsTotal (call opts method path params body profile)
  unfolding call
  call-IsTotal opts method path params body profile =
      search (total_rules, c, session-IsTotal, require_success-IsTotal) depth 8

  pub api_get-IsTotal :
      (opts : Json) (path : String) (params : Json) (profile : Option String)
      → IsTotal (api_get opts path params profile)
  unfolding api_get
  api_get-IsTotal opts path params profile =
      search (total_rules, call-IsTotal, content_or_empty-IsTotal)

module _ ⦃E : Env⦄ where
  pub iterate-IsTotal : (v : Json) → IsTotal (lift (iterate v))
  unfolding iterate
  iterate-IsTotal v = lift-IsTotal _ (λ p. ground arith)

  as_text-IsTotal : (v : Json) → IsTotal (lift (as_text v))
  unfolding as_text
  as_text-IsTotal v = lift-IsTotal _ (λ p. ground arith)

  join_rest-IsTotal : (vs : List Json) → IsTotal (join_rest vs)
  unfolding join_rest
  join_rest-IsTotal [] = search total_rules
  join_rest-IsTotal (v ∷ vs) =
      bind-IsTotal _ _ (as_text-IsTotal v)
        λ s. bind-IsTotal _ _ (join_rest-IsTotal vs) (λ rest. pure-IsTotal _)

  join-IsTotal : (vs : List Json) → IsTotal (join vs)
  unfolding join
  join-IsTotal [] = search total_rules
  join-IsTotal (v ∷ vs) = search (total_rules, as_text-IsTotal, join_rest-IsTotal) depth 8

  message_of-IsTotal : (e : Json) → IsTotal (message_of e)
  unfolding message_of
  message_of-IsTotal (obj fs) = search (total_rules, get-IsTotal) depth 8
  message_of-IsTotal _ = search total_rules

  messages-IsTotal : (es : List Json) → IsTotal (messages es)
  unfolding messages
  messages-IsTotal [] = search total_rules
  messages-IsTotal (e ∷ es) =
      bind-IsTotal _ _ (message_of-IsTotal e)
        λ m. bind-IsTotal _ _ (messages-IsTotal es) (λ ms. pure-IsTotal _)

  error_message-IsTotal : (task : Json) → IsTotal (error_message task)
  unfolding error_message error_list
  error_message-IsTotal task =
      search (total_rules, get-IsTotal, iterate-IsTotal, messages-IsTotal, join-IsTotal) depth 12

  is_terminal-IsTotal : (status : Json) → IsTotal (lift (is_terminal status))
  unfolding is_terminal
  is_terminal-IsTotal status = lift-IsTotal _ (λ p. ground arith)

module _ ⦃E : Env⦄ (c : IsClock E) (opts task_id : Json) (profile : Option String) where
  pub look_at_task-IsTotal : (timeout : ℕ) → IsTotal (look_at_task opts task_id profile timeout)
  unfolding look_at_task task_ended get_task
  look_at_task-IsTotal timeout =
      search
        (total_rules, api_get-IsTotal c, get-IsTotal, is_terminal-IsTotal, error_message-IsTotal)
        depth 14

  -- With a clock that does not go back and a positive poll interval, `wait` returns or raises,
  -- whatever SDDC Manager answers: its fuel is enough.
  pub wait_ends :
      (timeout poll : ℕ) (w : World E.State)
      → 0 < poll
      → (wait opts task_id profile timeout poll w).0 ≢ out_of_fuel
  unfolding wait
  wait_ends timeout poll w pos =
      (poll_until-Ends c _ (look_at_task-IsTotal timeout) timeout poll w pos).ends
