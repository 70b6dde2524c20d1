-- ===== src/UseCase/CreatePayment/Invoice.antt =====
-- The invoice of application/use_cases/create_payment.py: `_finalize_owned_claim`,
-- `_fail_owned_claim` and `execute`.
use project_vpn.Common.{ℕ, not, Option, none, some, if◌then◌else◌, Text, codes, pos, Instant}
use project_vpn.Common.Json.{Payload}
use project_vpn.Errors.{Result, ok, err, runtime, conflict, ◌>>=◌}
use project_vpn.Payment.Status.{PaymentStatus}
use project_vpn.Payment.Order.{PaymentOrder}
use project_vpn.Payment.Attempt.{
  PaymentAttempt, owns_creation_claim, finalize_creation, fail_creation,
}
use project_vpn.UseCase.Rows.{
  Store, by_id, save_attempt, latest_attempt, create_provider_transaction,
}
use project_vpn.UseCase.CreatePayment.{Shop, Request, PreparedOrder, prepare_order}

-- `PaymentIntent`: what the provider answers
pub record Intent : Type 0 where
  pub status : PaymentStatus
  pub status_text : Text
  pub provider_payment_id : Text
  pub payment_url : Option Text
  pub payload : Payload

-- `_finalize_owned_claim`, for an attempt whose claim is not owned
unfoldable pub current_attempt : Store → ℕ → Result (Store × PaymentAttempt)
unfolding latest_attempt
current_attempt st order_id = elim (latest_attempt order_id st.attempts) [
  | none ↦ err (conflict "Payment creation ownership was lost")
  | some current ↦ ok (st, current)
]

-- `_finalize_owned_claim`, for an attempt whose claim is owned
unfoldable pub record_intent :
    Store → PaymentOrder → ℕ → PaymentAttempt → Intent → Instant → Result (Store × PaymentAttempt)
unfolding finalize_creation save_attempt create_provider_transaction
record_intent st order order_id attempt intent now = do
  final ←
      finalize_creation attempt intent.status intent.provider_payment_id intent.payment_url
        intent.payload now
  saved ← save_attempt st final
  ok (
    create_provider_transaction saved (record {
      payment_order_id = order_id;
      payment_attempt_id = final.id;
      provider = order.provider;
      transaction_type = codes "invoice_created";
      provider_transaction_key = intent.provider_payment_id;
      transaction_status = intent.status_text;
      amount_minor = pos order.amount.minor;
      currency = order.amount.currency;
      payload = intent.payload;
    }),
    final,
  )

-- `_finalize_owned_claim`
unfoldable pub finalize_owned_claim :
    Store → PaymentOrder → Option ℕ → ℕ → Intent → Instant → Result (Store × PaymentAttempt)
unfolding by_id owns_creation_claim current_attempt record_intent
finalize_owned_claim st order none token intent now =
    err (runtime "Payment creation claim must be persisted before finalization")
finalize_owned_claim st order (some attempt_id) token intent now = elim order.id [
  | none ↦ err (runtime "Payment creation claim must be persisted before finalization")
  | some order_id ↦ elim (by_id (λ (x : PaymentAttempt). x.id) attempt_id st.attempts) [
    | none ↦ err (runtime "Payment creation claim disappeared before finalization")
    | some attempt ↦
        if owns_creation_claim attempt token
        then record_intent st order order_id attempt intent now
        else current_attempt st order_id
  ]
]

-- `_fail_owned_claim`
unfoldable pub fail_owned_claim : Store → Option ℕ → ℕ → Instant → Result Store
unfolding by_id owns_creation_claim fail_creation save_attempt
fail_owned_claim st none token now = ok st
fail_owned_claim st (some attempt_id) token now =
    elim (by_id (λ (x : PaymentAttempt). x.id) attempt_id st.attempts) [
      | none ↦ ok st
      | some attempt ↦
          if owns_creation_claim attempt token
          then save_attempt st (fail_creation attempt now (codes "provider_create_failed"))
          else ok st
    ]

-- `_response`
pub record Response : Type 0 where
  pub payment_order_id : Option ℕ
  pub provider : Text
  pub status : PaymentStatus
  pub amount_minor : ℕ
  pub currency : Text
  pub payment_url : Option Text
  pub provider_payment_id : Option Text
  pub tariff_name : Text

abbrev pub response_of : PaymentOrder → Text → PaymentAttempt → Response
response_of order tariff_name attempt = record {
  payment_order_id = order.id;
  provider = order.provider;
  status = order.status;
  amount_minor = order.amount.minor;
  currency = order.amount.currency;
  payment_url = attempt.payment_url;
  provider_payment_id = attempt.provider_payment_id;
  tariff_name = tariff_name;
}

-- What a run meets: the readings of the clock, the token it draws, the registry, which gives the
-- gateway of a provider or raises, a gateway being its answer to `create_payment`, an intent or the
-- exception it raises, and what other transactions do while the run waits for it.
pub record Provider : Type 0 where
  pub prepared_at : Instant
  pub finalized_at : Instant
  pub token : ℕ
  pub gateway : Text → Result (PaymentOrder → Result Intent)
  pub meanwhile : Store → Store

abbrev kept_or : Store → Result Store → Store
kept_or st (ok st') = st'
kept_or st (err e) = st

abbrev responded :
    Shop → PreparedOrder → Store → Result (Store × PaymentAttempt) → Shop × Result Response
responded st p found (ok (done, attempt)) =
    (record st { store = done }, ok (response_of p.order p.tariff_name attempt))
responded st p found (err e) = (record st { store = found }, err e)

-- After the provider's answer
unfoldable pub after_answer :
    Provider → Shop → PreparedOrder → ℕ → Result Intent → Shop × Result Response
unfolding finalize_owned_claim fail_owned_claim
after_answer w st p token (ok intent) =
    let found = w.meanwhile st.store in
    responded st p found
      (finalize_owned_claim found p.order p.attempt.id token intent w.finalized_at)
after_answer w st p token (err e) =
    let found = w.meanwhile st.store in
    (
      record st {
        store = kept_or found (fail_owned_claim found p.attempt.id token w.finalized_at);
      },
      err e,
    )

-- `payment_registry.get` and the call of the gateway
unfoldable pub ask :
    Provider
    → Shop
    → PreparedOrder
    → ℕ
    → Result (PaymentOrder → Result Intent)
    → Shop × Result Response
unfolding after_answer
ask w st p token (err e) = (st, err e)
ask w st p token (ok gateway) = after_answer w st p token (gateway p.order)

-- `execute`, after `_prepare_order`
unfoldable pub invoice : Provider → Shop → Result (Shop × PreparedOrder) → Shop × Result Response
unfolding ask
invoice w st (err e) = (st, err e)
invoice w st (ok (st', p)) =
    if not p.owns_creation_claim
    then (st', ok (response_of p.order p.tariff_name p.attempt))
    else elim p.creation_lease_token [
      | none ↦ (st', err (runtime "Owned payment creation claim has no lease token"))
      | some token ↦ ask w st' p token (w.gateway p.order.provider)
    ]

-- `execute`
unfoldable pub create_payment : Provider → Shop → Request → ℕ → Shop × Result Response
unfolding prepare_order invoice
create_payment w st r lease_seconds =
    invoice w st (prepare_order st r lease_seconds w.prepared_at w.token)
