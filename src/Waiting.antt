-- ===== src/Waiting.antt =====
-- The loop of `wait` in clients/sddc_tasks.py, which clients/installer_bringup.py has twice more: read
-- the status, return or raise if the work ended, give up at the deadline, sleep, and again.
pub mod Counting
pub mod Ending
pub mod Keeping
pub mod Reaching
pub mod Returning
use saltext_vmware.Base.{ℕ, zero, suc, ◌+◌, leb, if◌then◌else◌}
use saltext_vmware.Json.{Json}
use saltext_vmware.Http.{Exc}
use saltext_vmware.Exec.{Env, Exec, pure, raise, spent, ◌>>=◌, ◌>>◌, now, sleep}

-- What a round finds: the work ended, or it goes on; then the exception that a wait which is late
-- raises.
pub data Progress : Type 0 where
  finished : Json → Progress
  running : Exc → Progress

module _ ⦃E : Env⦄ where
  unfoldable pub sleep_or_give_up : ℕ → ℕ → Exec Json → Exc → ℕ → Exec Json
  sleep_or_give_up poll_interval deadline again late t =
      if leb deadline t then raise late else (do sleep poll_interval; again)

  unfoldable pub go_on : ℕ → ℕ → Exec Json → Progress → Exec Json
  go_on poll_interval deadline again (finished v) = pure v
  go_on poll_interval deadline again (running late) = do
    t ← now
    sleep_or_give_up poll_interval deadline again late t

module _ ⦃E : Env⦄ (look : Exec Progress) where
  unfoldable pub poll_loop : ℕ → ℕ → ℕ → Exec Json
  poll_loop zero poll_interval deadline = spent
  poll_loop (suc fuel) poll_interval deadline = do
    progress ← look
    go_on poll_interval deadline (poll_loop fuel poll_interval deadline) progress

  -- The rounds are the model's: the source loops until the deadline. Each round but the last ends
  -- before the deadline and sleeps for a unit of time, so that `timeout + 1` rounds are enough.
  unfoldable pub poll_until : ℕ → ℕ → Exec Json
  poll_until timeout poll_interval = do
    start ← now
    poll_loop (timeout + 1) poll_interval (start + timeout)
