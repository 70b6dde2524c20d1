-- ===== src/UseCase/Unsuccessful.antt =====
-- `_process_unsuccessful` of application/use_cases/process_payment.py.
use project_vpn.Common.{Option, none, some, ◌++◌, if◌then◌else◌, codes, Instant}
use project_vpn.Errors.{Result, ok, ◌>>=◌}
use project_vpn.Payment.Status.{PaymentStatus, TransitionResult}
use project_vpn.Payment.Order.{PaymentOrder, apply_external_status}
use project_vpn.Payment.Attempt.{PaymentAttempt, apply_provider_status}
use project_vpn.Payment.Event.{PaymentEvent, mark_processed}
use project_vpn.UseCase.Rows.{
  Store, payment_changed, save_event, save_attempt, save_order, append_audit,
}
use project_vpn.UseCase.Reply.{
  ignore_stale, order_number, reply, status_text, Reply, no_job, processed,
}

-- `_process_unsuccessful` once the attempt has been saved
unfoldable pub finish_unsuccessful :
    Store → PaymentEvent → PaymentOrder → PaymentStatus → Instant → Result Reply
unfolding apply_external_status save_order append_audit save_event mark_processed
finish_unsuccessful st event order status now = do
  (changed, moved) ← apply_external_status order status now
  saved ← (if moved then save_order st changed else ok st)
  order_id ← order_number changed
  done ←
      save_event (append_audit saved (payment_changed status (some order_id)))
        (mark_processed event now)
  reply (processed none) no_job done

-- The attempt's answer to the status.
unfoldable pub apply_unsuccessful :
    Store
    → PaymentEvent
    → PaymentOrder
    → PaymentStatus
    → Instant
    → PaymentAttempt × TransitionResult
    → Result Reply
unfolding ignore_stale save_attempt finish_unsuccessful
apply_unsuccessful st event order status now (attempt, TransitionResult.stale) =
    ignore_stale st event now (
      codes "stale provider status "
      ++ (status_text status ++ (codes " for attempt already " ++ status_text attempt.status)))
    >>= reply (processed none) no_job
apply_unsuccessful st event order status now (attempt, _) =
    save_attempt st attempt >>= λ saved. finish_unsuccessful saved event order status now

-- `_process_unsuccessful`
unfoldable pub process_unsuccessful :
    Store
    → PaymentEvent
    → PaymentOrder
    → Option PaymentAttempt
    → PaymentStatus
    → Instant
    → Result Reply
unfolding finish_unsuccessful apply_unsuccessful apply_provider_status
process_unsuccessful st event order none status now = finish_unsuccessful st event order status now
process_unsuccessful st event order (some attempt) status now =
    apply_unsuccessful st event order status now
      (apply_provider_status attempt status none none (some event.payload))
