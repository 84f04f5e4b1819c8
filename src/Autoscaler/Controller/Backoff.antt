-- ===== src/Autoscaler/Controller/Backoff.antt =====
-- A resize that failed is not tried again until the retry interval is over.
use bosun.Prelude.{ℕ, ◌+◌, ◌≡◌, String, false, ◌&&◌, arith, eq_iff, str_eq, ltb, if◌then◌else◌}
use bosun.Prelude.Dict.{lookup-insert, lookup-delete}
use bosun.Autoscaler.Controller.{
  Controller, FailedResizeIntent, record_failed_attempt, clear_failed_attempt, retry_suppressed,
  interval_of, same_intent,
}

-- After a failure an attempt at the same session is held back exactly if it is the same resize and
-- the interval is not over; an attempt at another session is held back as before.
pub retry_suppressed-record_failed_attempt :
    (uid other : String) (failed attempt : FailedResizeIntent) (now : ℕ) (c : Controller)
    → retry_suppressed other attempt now (record_failed_attempt uid failed c) ≡ (
        if str_eq uid other
        then same_intent failed attempt && ltb now (failed.attempted_at + interval_of c)
        else retry_suppressed other attempt now c)
unfolding retry_suppressed record_failed_attempt
retry_suppressed-record_failed_attempt uid other failed attempt now c =
    ground (arith, lookup-insert uid other failed c.failed_attempts)

-- A cleared attempt holds nothing back.
pub retry_suppressed-clear :
    (uid : String) (intent : FailedResizeIntent) (now : ℕ) (c : Controller)
    → retry_suppressed uid intent now (clear_failed_attempt uid c) ≡ false
unfolding retry_suppressed clear_failed_attempt
retry_suppressed-clear uid intent now c =
    ground (arith, lookup-delete uid uid c.failed_attempts, eq_iff uid uid)
