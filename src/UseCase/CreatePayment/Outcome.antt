-- ===== src/UseCase/CreatePayment/Outcome.antt =====
-- How the creation of a payment ends when the provider answers and when it raises.
use project_vpn.Common.{
  ℕ, ◌≡◌, refl, ◌∙◌, ap, true, false, none, some, List, [], ◌∷◌, All, arith, Text, codes, pos,
  Instant,
}
use project_vpn.Errors.{Error, Result, ok, err}
use project_vpn.Payment.Status
use project_vpn.Payment.Status.{PaymentStatus}
use project_vpn.Payment.Order.{PaymentOrder}
use project_vpn.Payment.Attempt.{
  PaymentAttempt, owns_creation_claim, finalize_creation, fail_creation, clear_creation_claim,
}
use project_vpn.UseCase.Rows.{
  Store, Transaction, by_id, replace, breaks_reference, is_reference_used, save_attempt,
  create_provider_transaction,
}
use project_vpn.UseCase.Rows.Laws.{by_id-id}
use project_vpn.UseCase.CreatePayment.{Shop, Request, PreparedOrder, prepare_order}
use project_vpn.UseCase.CreatePayment.Claimed.{IsEarlier}
use project_vpn.UseCase.CreatePayment.Invoice.{
  Intent, Provider, response_of, record_intent, finalize_owned_claim, fail_owned_claim,
  after_answer, ask, invoice, create_payment,
}
use project_vpn.UseCase.CreatePayment.Handed.{prepared-IsHanded, saved_row}

abbrev finalized : PaymentAttempt → Intent → Instant → PaymentAttempt
finalized a intent now = record a {
  status = intent.status;
  provider_payment_id = some intent.provider_payment_id;
  payment_url = intent.payment_url;
  payload = intent.payload;
  updated_at = some now;
  creation_claimed_at = none;
  creation_lease_expires_at = none;
  creation_lease_token = none;
}

-- The attempt with the reference of the intent
abbrev pub referenced : PaymentAttempt → Intent → PaymentAttempt
referenced a intent = record a { provider_payment_id = some intent.provider_payment_id }

same_reference :
    (a : PaymentAttempt) (intent : Intent) (now : Instant) (l : List PaymentAttempt)
    → is_reference_used (finalized a intent now) l ≡ is_reference_used (referenced a intent) l
unfolding is_reference_used
same_reference a intent now [] = refl
same_reference a intent now (x ∷ l) = ground (arith, same_reference a intent now l)

finalized_breaks :
    (a : PaymentAttempt) (intent : Intent) (now : Instant) (l : List PaymentAttempt)
    → breaks_reference (finalized a intent now) l ≡ is_reference_used (referenced a intent) l
unfolding breaks_reference
finalized_breaks a intent now l = same_reference a intent now l

unreferenced_free :
    (a : PaymentAttempt) (l : List PaymentAttempt)
    → a.provider_payment_id ≡ none
    → breaks_reference a l ≡ false
unfolding breaks_reference
unreferenced_free a l h = ground (arith, h)

owned_final :
    (a : PaymentAttempt) (intent : Intent) (now : Instant) (token : ℕ)
    → owns_creation_claim a token ≡ true
    → Status.is intent.status PaymentStatus.created ≡ false
    → finalize_creation a intent.status intent.provider_payment_id intent.payment_url intent.payload
        now
      ≡ ok (finalized a intent now)
unfolding finalize_creation owns_creation_claim clear_creation_claim
owned_final a intent now token h k = ground arith

attempts_kept :
    (st : Store) (t : Transaction) → (create_provider_transaction st t).attempts ≡ st.attempts
unfolding create_provider_transaction
attempts_kept st t = ground arith

recorded :
    (st : Store) (order : PaymentOrder) (k n : ℕ) (a : PaymentAttempt) (intent : Intent)
    (now token : ℕ)
    → by_id (λ (x : PaymentAttempt). x.id) n st.attempts ≡ some a
    → a.id ≡ some n
    → owns_creation_claim a token ≡ true
    → Status.is intent.status PaymentStatus.created ≡ false
    → is_reference_used (referenced a intent) st.attempts ≡ false
    → (done : Store) × (record_intent st order k a intent now ≡ ok (done, finalized a intent now))
      × (by_id (λ (x : PaymentAttempt). x.id) n done.attempts ≡ some (finalized a intent now))
unfolding record_intent clear_creation_claim
recorded st order k n a intent now token found e own closes free =
    let final = finalized a intent now in
    let saved =
      saved_row st a final n found e refl (finalized_breaks a intent now st.attempts ∙ free) in
    let made = owned_final a intent now token own closes in
    let stored = record st {
      attempts = replace (λ (x : PaymentAttempt). x.id) final st.attempts;
    } in
    let bill : Transaction = record {
      payment_order_id = k;
      payment_attempt_id = final.id;
      provider = order.provider;
      transaction_type = codes "invoice_created";
      provider_transaction_key = intent.provider_payment_id;
      transaction_status = intent.status_text;
      amount_minor = pos order.amount.minor;
      currency = order.amount.currency;
      payload = intent.payload;
    } in
    (
      create_provider_transaction stored bill,
      ground (arith, made, saved.0),
      ap (by_id (λ (x : PaymentAttempt). x.id) n) (attempts_kept stored bill) ∙ saved.1,
    )

owned_finalizes :
    (st : Store) (p : PreparedOrder) (k n : ℕ) (intent : Intent) (now token : ℕ)
    → by_id (λ (x : PaymentAttempt). x.id) n st.attempts ≡ some p.attempt
    → p.attempt.id ≡ some n
    → p.order.id ≡ some k
    → owns_creation_claim p.attempt token ≡ true
    → finalize_owned_claim st p.order p.attempt.id token intent now
      ≡ record_intent st p.order k p.attempt intent now
unfolding finalize_owned_claim
owned_finalizes st p k n intent now token found e f own = ground (arith, found, e, f, own)

-- If the provider answers a request that claimed the creation with an intent that is no longer
-- CREATED, the attempt's row is untouched meanwhile and no other attempt has the intent's reference,
-- the client gets the intent's link and reference, and the attempt stores both with the intent's
-- status, owned by no one.
pub invoice_made :
    (w : Provider) (st st' : Shop) (r : Request) (lease n : ℕ) (p : PreparedOrder)
    (make : PaymentOrder → Result Intent) (intent : Intent)
    → All (IsEarlier w.prepared_at st.next_attempt_id) st.store.attempts
    → prepare_order st r lease w.prepared_at w.token ≡ ok (st', p)
    → p.owns_creation_claim ≡ true
    → by_id (λ (x : PaymentAttempt). x.id) n (w.meanwhile st'.store).attempts ≡ some p.attempt
    → w.gateway p.order.provider ≡ ok make
    → make p.order ≡ ok intent
    → Status.is intent.status PaymentStatus.created ≡ false
    → is_reference_used (referenced p.attempt intent) (w.meanwhile st'.store).attempts ≡ false
    → let after = create_payment w st r lease in
      (a : PaymentAttempt) × (by_id (λ (x : PaymentAttempt). x.id) n after.0.store.attempts
        ≡ some a)
      × (after.1 ≡ ok (response_of p.order p.tariff_name a))
      × (a.status ≡ intent.status)
      × (a.provider_payment_id ≡ some intent.provider_payment_id)
      × (a.payment_url ≡ intent.payment_url)
      × (a.creation_lease_token ≡ none)
unfolding create_payment invoice ask after_answer
invoice_made w st st' r lease n p make intent all h own found known answer closes free =
    let v = prepared-IsHanded st st' r lease w.prepared_at w.token p all h own in
    let e =
      by_id-id (λ (x : PaymentAttempt). x.id) n (w.meanwhile st'.store).attempts p.attempt found in
    let now = w.finalized_at in
    let (done, records, row) =
      recorded (w.meanwhile st'.store) p.order v.key n p.attempt intent now w.token found e v.owned
        closes free in
    let final =
      owned_finalizes (w.meanwhile st'.store) p v.key n intent now w.token found e v.order_id
        v.owned
      ∙ records in
    (
      finalized p.attempt intent now,
      ground (arith, h, own, v.token_kept, known, answer, final, row),
      ground (arith, h, own, v.token_kept, known, answer, final),
      refl,
      refl,
      refl,
      refl,
    )

owned_fails :
    (st : Store) (p : PreparedOrder) (n : ℕ) (now token : ℕ)
    → by_id (λ (x : PaymentAttempt). x.id) n st.attempts ≡ some p.attempt
    → p.attempt.id ≡ some n
    → owns_creation_claim p.attempt token ≡ true
    → fail_owned_claim st p.attempt.id token now
      ≡ save_attempt st (fail_creation p.attempt now (codes "provider_create_failed"))
unfolding fail_owned_claim
owned_fails st p n now token found e own = ground (arith, found, e, own)

failed_fields :
    (a : PaymentAttempt) (now token : ℕ) (text : Text)
    → owns_creation_claim a token ≡ true
    → let b = fail_creation a now text in
      (b ≡ clear_creation_claim b)
      × (b.id ≡ a.id)
      × (b.status ≡ PaymentStatus.failed)
      × (b.creation_lease_token ≡ none)
      × (b.provider_payment_id ≡ a.provider_payment_id)
unfolding fail_creation clear_creation_claim owns_creation_claim
failed_fields a now token text h = ground arith

-- If the provider raises instead, so does the run, after the attempt is stored as FAILED, owned by no
-- one and without a new reference, provided that its row is untouched meanwhile.
pub invoice_refused :
    (w : Provider) (st st' : Shop) (r : Request) (lease n : ℕ) (p : PreparedOrder)
    (make : PaymentOrder → Result Intent) (e : Error)
    → All (IsEarlier w.prepared_at st.next_attempt_id) st.store.attempts
    → prepare_order st r lease w.prepared_at w.token ≡ ok (st', p)
    → p.owns_creation_claim ≡ true
    → by_id (λ (x : PaymentAttempt). x.id) n (w.meanwhile st'.store).attempts ≡ some p.attempt
    → w.gateway p.order.provider ≡ ok make
    → make p.order ≡ err e
    → let after = create_payment w st r lease in
      (after.1 ≡ err e)
      × ((a : PaymentAttempt) × (by_id (λ (x : PaymentAttempt). x.id) n after.0.store.attempts
            ≡ some a)
          × (a.status ≡ PaymentStatus.failed)
          × (a.creation_lease_token ≡ none)
          × (a.provider_payment_id ≡ p.attempt.provider_payment_id))
unfolding create_payment invoice ask after_answer
invoice_refused w st st' r lease n p make e all h own found known answer =
    let v = prepared-IsHanded st st' r lease w.prepared_at w.token p all h own in
    let id =
      by_id-id (λ (x : PaymentAttempt). x.id) n (w.meanwhile st'.store).attempts p.attempt found in
    let now = w.finalized_at in
    let failed = fail_creation p.attempt now (codes "provider_create_failed") in
    let fields = failed_fields p.attempt now w.token (codes "provider_create_failed") v.owned in
    let saved =
      saved_row (w.meanwhile st'.store) p.attempt failed n found (fields.1 ∙ id) fields.0
        (unreferenced_free failed (w.meanwhile st'.store).attempts (fields.4 ∙ v.unreferenced)) in
    let final = owned_fails (w.meanwhile st'.store) p n now w.token found id v.owned ∙ saved.0 in
    (
      ground (arith, h, own, v.token_kept, known, answer),
      (
        failed,
        ground (arith, h, own, v.token_kept, known, answer, final, saved.1),
        fields.2,
        fields.3,
        fields.4,
      ),
    )
