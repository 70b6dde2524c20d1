-- ===== src/UseCase/CreatePayment.antt =====
-- `CreatePayment` of application/use_cases/create_payment.py, with the inserts of
-- infrastructure/persistence/repositories/payments.py that it uses. The user is one that was found
-- or registered before, given by its id.
pub mod Invoice
pub mod Claimed
pub mod Retry
pub mod Handed
pub mod Outcome
use project_vpn.Common.{
  ℕ, ◌+◌, ◌==◌, ◌≡◌, Bool, true, false, not, ◌&&◌, Option, none, some, List, [], ◌∷◌, ◌++◌,
  if◌then◌else◌, is_none, is_some, Text, text_eq, codes, pos, Instant, seconds,
}
use project_vpn.Common.Json.{Payload, str}
use project_vpn.Errors.{
  Error, Result, ok, err, runtime, not_found, validation, conflict, raise_if, ◌>>=◌, ◌>>◌,
}
use project_vpn.Payment.Status.{PaymentStatus}
use project_vpn.Payment.Status
use project_vpn.Payment.Money.{Money}
use project_vpn.Payment.Order
use project_vpn.Payment.Order.{PaymentOrder, OrderArguments, has_same_creation_identity}
use project_vpn.Payment.Attempt.{
  PaymentAttempt, claim_creation, creation_claim_is_active, owns_creation_claim, finalize_creation,
  fail_creation, in_creation,
}
use project_vpn.UseCase.Rows.{
  Store, by_id, save_attempt, latest_attempt, create_provider_transaction,
}
use project_vpn.UseCase.Catalog.{Tariff}

-- The database with what new orders and attempts need
pub record Shop : Type 0 where
  pub store : Store
  pub tariffs : List Tariff
  pub next_order_id : ℕ
  pub next_attempt_id : ℕ

pub record Request : Type 0 where
  pub user_id : ℕ
  pub tariff_id : ℕ
  pub provider : Text
  pub idempotency_key : Text
  pub metadata : Payload

-- `get_order_by_idempotency`
unfoldable pub order_by_key : Text → List PaymentOrder → Option PaymentOrder
order_by_key key [] = none
order_by_key key (o ∷ os) =
    let rest = order_by_key key os in if text_eq o.idempotency_key key then some o else rest

-- `create_order`: ON CONFLICT (idempotency_key) DO NOTHING, and then the row that is there
unfoldable pub add_order : Shop → PaymentOrder → Instant → Shop × PaymentOrder
unfolding order_by_key
add_order st candidate now = elim (order_by_key candidate.idempotency_key st.store.orders) [
  | some existing ↦ (st, existing)
  | none ↦
      let order = record candidate { id = some st.next_order_id; created_at = some now } in
      (
        record st {
          store = record st.store { orders = st.store.orders ++ (order ∷ []) };
          next_order_id = st.next_order_id + 1;
        },
        order,
      )
]

-- The partial unique index: an order has at most one attempt with the status `created`.
unfoldable pub has_open_attempt : ℕ → List PaymentAttempt → Bool
has_open_attempt order_id [] = false
has_open_attempt order_id (a ∷ rest) =
    let others = has_open_attempt order_id rest in
    if a.payment_order_id == order_id && in_creation a then true else others

-- `create_attempt`
unfoldable pub add_attempt : Shop → PaymentAttempt → Instant → Result (Shop × PaymentAttempt)
unfolding has_open_attempt
add_attempt st attempt now =
    let added = record attempt { id = some st.next_attempt_id; created_at = some now } in
    raise_if (in_creation attempt && has_open_attempt attempt.payment_order_id st.store.attempts)
      (runtime "uq_payment_attempts_one_creation_claim_per_order")
    >> ok (
      record st {
        store = record st.store { attempts = st.store.attempts ++ (added ∷ []) };
        next_attempt_id = st.next_attempt_id + 1;
      },
      added,
    )

pub record PreparedOrder : Type 0 where
  pub order : PaymentOrder
  pub tariff_name : Text
  pub attempt : PaymentAttempt
  pub owns_creation_claim : Bool
  pub creation_lease_token : Option ℕ

-- The end of `_prepare_order`: a new attempt that owns the creation of the invoice
unfoldable pub claim_order :
    Shop → PaymentOrder → ℕ → Text → ℕ → Instant → ℕ → Result (Shop × PreparedOrder)
unfolding claim_creation add_attempt
claim_order st order order_id tariff_name lease_seconds now token = do
  claim ←
      claim_creation
        (record {
          id = none;
          payment_order_id = order_id;
          provider = order.provider;
          status = PaymentStatus.created;
          provider_payment_id = none;
          payment_url = none;
          payload = (codes "creation_state", str (codes "claimed")) ∷ [];
          created_at = none;
          updated_at = none;
          creation_claimed_at = none;
          creation_lease_expires_at = none;
          creation_lease_token = none;
        })
        now (now + seconds lease_seconds) token
  (added, attempt) ← add_attempt st claim now
  ok (
    added,
    record {
      order = order;
      tariff_name = tariff_name;
      attempt = attempt;
      owns_creation_claim = true;
      creation_lease_token = some token;
    },
  )

abbrev pub existing_attempt : PaymentOrder → Text → PaymentAttempt → PreparedOrder
existing_attempt order tariff_name attempt = record {
  order = order;
  tariff_name = tariff_name;
  attempt = attempt;
  owns_creation_claim = false;
  creation_lease_token = none;
}

-- The latest attempt failed before the provider knew of it.
abbrev pub never_invoiced : PaymentAttempt → Bool
never_invoiced a = Status.is a.status PaymentStatus.failed && is_none a.provider_payment_id

-- `_prepare_order` from the latest attempt on
unfoldable pub resume_order :
    Shop
    → PaymentOrder
    → ℕ
    → Text
    → ℕ
    → Instant
    → ℕ
    → Option PaymentAttempt
    → Result (Shop × PreparedOrder)
unfolding creation_claim_is_active fail_creation save_attempt claim_order
resume_order st order order_id tariff_name lease_seconds now token none =
    claim_order st order order_id tariff_name lease_seconds now token
resume_order st order order_id tariff_name lease_seconds now token (some attempt) =
    if in_creation attempt
    then (if creation_claim_is_active attempt now
        then ok (st, existing_attempt order tariff_name attempt)
        else (save_attempt st.store (fail_creation attempt now (codes "creation_claim_abandoned"))
            >>= λ saved.
                claim_order (record st { store = saved }) order order_id tariff_name lease_seconds
                  now token))
    else if never_invoiced attempt
    then claim_order st order order_id tariff_name lease_seconds now token
    else ok (st, existing_attempt order tariff_name attempt)

-- `_prepare_order` from the order that was added or found
unfoldable pub prepare_found :
    Shop → PaymentOrder → PaymentOrder → Text → ℕ → Instant → ℕ → Result (Shop × PreparedOrder)
unfolding by_id has_same_creation_identity latest_attempt resume_order
prepare_found st candidate resolved tariff_name lease_seconds now token = elim resolved.id [
  | none ↦ err (runtime "Payment order was not persisted")
  | some order_id ↦ elim (by_id (λ (x : PaymentOrder). x.id) order_id st.store.orders) [
    | none ↦ err (runtime "Payment order disappeared during creation")
    | some order ↦
        raise_if (not (has_same_creation_identity order candidate))
          (conflict "Idempotency key is already used by another payment request")
        >> resume_order st order order_id tariff_name lease_seconds now token
            (latest_attempt order_id st.store.attempts)
  ]
]

-- The candidate that `_prepare_order` builds
abbrev pub candidate_of : Request → Tariff → ℕ → OrderArguments
candidate_of r tariff tariff_id = record {
  id = none;
  user_id = pos r.user_id;
  tariff_id = pos tariff_id;
  provider = r.provider;
  status = PaymentStatus.pending;
  amount = tariff.price;
  requested_period_days = pos tariff.period_days;
  idempotency_key = r.idempotency_key;
  metadata = r.metadata;
  created_at = none;
  updated_at = none;
  paid_at = none;
}

-- `_prepare_order`
unfoldable pub prepare_order : Shop → Request → ℕ → Instant → ℕ → Result (Shop × PreparedOrder)
unfolding by_id Order.post_init add_order prepare_found
prepare_order st r lease_seconds now token =
    elim (by_id (λ (x : Tariff). x.id) r.tariff_id st.tariffs) [
      | none ↦ err (not_found "Tariff was not found")
      | some tariff ↦ (do
        raise_if (not tariff.is_enabled) (validation "Tariff is disabled")
        candidate ← Order.post_init (candidate_of r tariff r.tariff_id)
        let added = add_order st candidate now
        prepare_found added.0 candidate added.1 tariff.name lease_seconds now token)
    ]
