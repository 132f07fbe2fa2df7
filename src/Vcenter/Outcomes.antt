-- ===== src/Vcenter/Outcomes.antt =====
-- What the calls of utils/vcenter.py return.
use saltext_vmware.Base.{ℕ, zero, suc, String, ◌<>◌, ◌≡◌, ◌∙◌, refl, Bool, true, false, Option}
use saltext_vmware.Json.{Json, null, str}
use saltext_vmware.Http.{Exc, ok, err, get, is_http_error}
use saltext_vmware.Exec.{Env, World, Exec, lift, show, pure, raise}
use saltext_vmware.Exec.Returns.{Returns, Returns-bind, Returns-pure, Returns-lift, returns_rules}
use saltext_vmware.Exec.Runs.{catch_http-err, bind-err}
use saltext_vmware.Vcenter.Api.{api_get}
use saltext_vmware.Vcenter.Task.{Lookup, ran_synchronously, task, is_success, is_not_found}
use saltext_vmware.Vcenter.Task.{synchronous, read_task, task_failed, verdict, judge, timed_out}
use saltext_vmware.Vcenter.Task.{wait_round, wait_loop, wait_for_task}

-- `status` of the task is SUCCEEDED or SUCCESS.
abbrev pub HasSucceeded : Json → Type 0
HasSucceeded t = (status : Json) × (get t "status" null ≡ ok status) × (is_success status ≡ true)

module _ ⦃E : Env⦄ (opts : Json) (task_id : Json) (profile : Option String) where
  synchronous-HasSucceeded : HasSucceeded (synchronous opts task_id profile)
  unfolding synchronous is_success
  synchronous-HasSucceeded = (str "SUCCEEDED", refl, refl)

  verdict-HasSucceeded :
      (poll : ℕ) (again : Json → Exec Json) (found status : Json)
      → get found "status" null ≡ ok status
      → Returns HasSucceeded (again found)
      → Returns HasSucceeded (verdict opts task_id profile poll again found status)
  unfolding verdict task_failed
  verdict-HasSucceeded poll again found status e k =
      let won : is_success status ≡ true → HasSucceeded found = λ h. (status, e, h) in
      search (returns_rules, won) depth 8

  judge-HasSucceeded :
      (poll : ℕ) (again : Json → Exec Json) (answer : Lookup)
      → ((found : Json) → Returns HasSucceeded (again found))
      → Returns HasSucceeded (judge opts task_id profile poll again answer)
  unfolding judge
  judge-HasSucceeded poll again ran_synchronously k = Returns-pure _ synchronous-HasSucceeded
  judge-HasSucceeded poll again (task found) k =
      Returns-bind (lift (get found "status" null)) _
        (Returns-lift {P = λ status. get found "status" null ≡ ok status} _ (λ status e. e))
        (λ status e. verdict-HasSucceeded poll again found status e (k found))

  wait_loop-HasSucceeded :
      (fuel timeout poll deadline : ℕ) (found : Json) (seen : Bool)
      → Returns HasSucceeded (wait_loop opts task_id profile fuel timeout poll deadline found seen)
  unfolding wait_loop wait_round timed_out
  wait_loop-HasSucceeded zero timeout poll deadline found seen = search returns_rules
  wait_loop-HasSucceeded (suc fuel) timeout poll deadline found seen =
      let again =
        λ (last : Json). wait_loop opts task_id profile fuel timeout poll deadline last true in
      let rest : (answer : Lookup)
          → Returns HasSucceeded (judge opts task_id profile poll again answer) =
        λ answer.
          judge-HasSucceeded poll again answer
            (λ last. wait_loop-HasSucceeded fuel timeout poll deadline last true) in
      search (returns_rules, rest) depth 8

  pub wait_for_task-HasSucceeded :
      (timeout poll : ℕ) → Returns HasSucceeded (wait_for_task opts task_id profile timeout poll)
  unfolding wait_for_task
  wait_for_task-HasSucceeded timeout poll = search (returns_rules, wait_loop-HasSucceeded)

  -- A task that `wait_for_task` returns has the status SUCCEEDED or SUCCESS, also where it is the
  -- answer made up for a task that ran synchronously.
  pub wait_for_task_ok :
      (timeout poll : ℕ) (w : World E.State) (t : Json)
      → (wait_for_task opts task_id profile timeout poll w).0 ≡ ok t
      → HasSucceeded t
  wait_for_task_ok timeout poll = (wait_for_task-HasSucceeded timeout poll).at

  module _ (e : Exc) (w w' : World E.State)
      (missing : api_get opts ("/api/cis/tasks/" <> show task_id) null profile null w ≡ (err e, w'))
      (http : is_http_error e ≡ true) (not_found : is_not_found e ≡ true) where
    -- A 404 is the answer of a synchronous run before the task was seen, and the error after.
    pub read_task_missing :
        (read_task opts task_id profile false w ≡ (ok ran_synchronously, w'))
        × (read_task opts task_id profile true w ≡ (err e, w'))
    unfolding read_task raise pure
    read_task_missing = (
      catch_http-err _ _ (bind-err _ _ missing) http ∙ rw not_found,
      catch_http-err _ _ (bind-err _ _ missing) http,
    )
