-- ===== src/BringupState/Submitting.antt =====
-- The submission of a bringup stays in the history of requests.
use mathlib.Core.List.{Memᴰ}
use mathlib.Core.List.Memᴰ.{head, tail}
use saltext_vmware.Base.{ℕ, String, ◌≡◌, refl, false, Option}
use saltext_vmware.Json.{Json, null, truthy}
use saltext_vmware.Http.{Request, Exc, ok, err, get}
use saltext_vmware.Exec.{Env, World, Exec, lift, send, ◌>>=◌, pure}
use saltext_vmware.Exec.Keeps.{History, Keeps, keeps_rules, Keeps-bind, Keeps-catch, Keeps-pure}
use saltext_vmware.Exec.Runs.{catch-err}
use saltext_vmware.Vcenter.Session.{Session}
use saltext_vmware.Waiting.Keeping.{poll_until-Keeps}
use saltext_vmware.PatchState.Ret.{Ret}
use saltext_vmware.Installer.Session.{login_request, session}
use saltext_vmware.Installer.Api.{session_request, attempt, request, api_get, api_post}
use saltext_vmware.Installer.Reading.{request-Keeps, finish-Keeps}
use saltext_vmware.Installer.Bringup.{list_bringups, bringup_status, bringup_ended}
use saltext_vmware.Installer.Bringup.{look_at_bringup, wait_bringup, submit}
use saltext_vmware.BringupState.Steps.{Waited, completed, gave_up, failed_wait, await}
use saltext_vmware.BringupState.Steps.{find_active, list_or_none, pick_active}
use saltext_vmware.BringupState.Complete.{
  Goal, after_bringup, await_bringup, submit_new, validate_and_submit, start_new, reuse_or_start,
  complete,
}

-- The request is in the history.
abbrev HasSent : Request → History
HasSent r sent = Memᴰ r sent

module _ ⦃E : Env⦄ (r : Request) where
  send-HasSent : (other : Request) → Keeps (HasSent r) (send other)
  unfolding send
  send-HasSent other = record { at = λ w m. tail m }

  api_get-HasSent :
      (opts : Json) (path : String) (profile : Option String)
      → Keeps (HasSent r) (api_get opts path null profile)
  unfolding api_get
  api_get-HasSent opts path profile =
      request-Keeps (λ cfg. send-HasSent (login_request cfg)) "GET" opts path null null profile
        (λ s. send-HasSent (session_request "GET" path null null s))

  look_at_bringup-HasSent :
      (opts sddc_id : Json) (profile : Option String) (timeout : ℕ)
      → Keeps (HasSent r) (look_at_bringup opts sddc_id profile timeout)
  unfolding look_at_bringup bringup_status bringup_ended
  look_at_bringup-HasSent opts sddc_id profile timeout =
      search (keeps_rules, api_get-HasSent) depth 12

  wait_bringup-HasSent :
      (opts sddc_id : Json) (profile : Option String) (timeout poll : ℕ)
      → Keeps (HasSent r) (wait_bringup opts sddc_id profile timeout poll)
  unfolding wait_bringup
  wait_bringup-HasSent opts sddc_id profile timeout poll =
      poll_until-Keeps _ (look_at_bringup-HasSent opts sddc_id profile timeout) timeout poll

  await-HasSent :
      (ret : Ret) (what : String) (m : Exec Json)
      → Keeps (HasSent r) m
      → Keeps (HasSent r) (await ret what m)
  unfolding await failed_wait
  await-HasSent ret what m h =
      Keeps-catch _ (failed_wait ret what) (Keeps-bind m _ h (λ final. Keeps-pure _))
        (λ e. search keeps_rules)

  module _ (opts : Json) (goal : Goal) where
    after_bringup-HasSent :
        (ret : Ret) (sddc_id : Json) (comment : String) (waited : Waited)
        → Keeps (HasSent r) (after_bringup opts goal ret sddc_id comment waited)
    unfolding after_bringup
    after_bringup-HasSent ret sddc_id comment (gave_up failed) = search keeps_rules
    after_bringup-HasSent ret sddc_id comment (completed final) = search keeps_rules depth 8

    await_bringup-HasSent :
        (ret : Ret) (sddc_id : Json) (comment : String)
        → Keeps (HasSent r) (await_bringup opts goal ret sddc_id comment)
    unfolding await_bringup
    await_bringup-HasSent ret sddc_id comment =
        Keeps-bind _ _
          (await-HasSent ret _ _ (wait_bringup-HasSent opts sddc_id goal.profile goal.timeout 60))
          (after_bringup-HasSent ret sddc_id comment)

module _ ⦃E : Env⦄ {A B : Type 0} {P : History} where
  -- What holds after the first action, the rest keeps.
  continued-Keeps :
      (m : Exec A) (f : A → Exec B) (w : World E.State)
      → P (m w).1.sent
      → ((a : A) → Keeps P (f a))
      → P ((m >>= f) w).1.sent
  unfolding ◌>>=◌ lift
  continued-Keeps m f w before k =
      let (r, w') = m w in
      let rest : Keeps P (lift r >>= f) = Keeps-bind (lift r) f (search keeps_rules) k in
      rest.at w' before

module _ ⦃E : Env⦄ (opts : Json) (goal : Goal) where
  abbrev pub submission : Session → Request
  submission connected = session_request "POST" "/v1/sddcs" null goal.spec connected

  attempt_sent :
      (connected : Session) (w w' : World E.State)
      → session opts goal.profile w ≡ (ok connected, w')
      → Memᴰ
          (submission connected)
          (attempt "POST" opts "/v1/sddcs" null goal.spec goal.profile w).1.sent
  unfolding attempt ◌>>=◌ send
  attempt_sent connected w w' s = rw s (head refl)

  submit_sent :
      (connected : Session) (w w' : World E.State)
      → session opts goal.profile w ≡ (ok connected, w')
      → Memᴰ (submission connected) (submit opts goal.spec goal.profile w).1.sent
  unfolding submit api_post request
  submit_sent connected w w' s =
      let r = submission connected in
      continued-Keeps {P = HasSent r} (attempt "POST" opts "/v1/sddcs" null goal.spec goal.profile)
        _ w (attempt_sent connected w w' s)
        (finish-Keeps {P = HasSent r} (λ cfg. send-HasSent r (login_request cfg)) "POST" opts
          "/v1/sddcs" null goal.spec goal.profile
          (λ c. send-HasSent r (session_request "POST" "/v1/sddcs" null goal.spec c)))

  submit_new_sent :
      (connected : Session) (w w' : World E.State)
      → session opts goal.profile w ≡ (ok connected, w')
      → Memᴰ (submission connected) (submit_new opts goal w).1.sent
  unfolding submit_new
  submit_new_sent connected w w' s =
      let r = submission connected in
      continued-Keeps {P = HasSent r} (submit opts goal.spec goal.profile) _ w
        (submit_sent connected w w' s)
        (λ submitted. search (keeps_rules, await_bringup-HasSent r opts goal) depth 8)

  unlisted :
      (e : Exc) (test : Json) (w w' : World E.State)
      → list_bringups opts goal.profile w ≡ (err e, w')
      → get opts "test" null ≡ ok test
      → truthy test ≡ false
      → goal.validate_first ≡ false
      → complete opts goal w ≡ submit_new opts goal w'
  unfolding complete find_active list_or_none pick_active reuse_or_start start_new
      validate_and_submit ◌>>=◌ pure lift
  unlisted e test w w' failed asked off unchecked =
      rw
        (catch-err (list_bringups opts goal.profile) (λ e. pure null) failed, asked, off, unchecked)
        refl

  -- A list of bringups that cannot be read, for whatever reason, counts as an empty one: without
  -- `test`, and without a validation before it, `complete` posts a new bringup, where a session can
  -- be had.
  pub complete-list_err :
      (e : Exc) (test : Json) (connected : Session) (w w' w'' : World E.State)
      → list_bringups opts goal.profile w ≡ (err e, w')
      → get opts "test" null ≡ ok test
      → truthy test ≡ false
      → goal.validate_first ≡ false
      → session opts goal.profile w' ≡ (ok connected, w'')
      → Memᴰ (submission connected) (complete opts goal w).1.sent
  complete-list_err e test connected w w' w'' failed asked off unchecked s =
      rw (unlisted e test w w' failed asked off unchecked) (submit_new_sent connected w' w'' s)
