-- ===== src/UseCase/CreatePayment/Retry.antt =====
-- A client that asks for the same payment again while its invoice is being made.
use project_vpn.Common.{
  ℕ, ◌+◌, ◌<◌, ◌≡◌, refl, ◌∙◌, ap, inl, inr, true, Bool-cases, Option-cases, none, some, List, [],
  ◌∷◌, ◌++◌, All, arith, Text, text_eq, text_eq_refl, Instant, seconds,
}
use project_vpn.Errors.{ok, Result-cases}
use project_vpn.Payment.Order
use project_vpn.Payment.Order.{PaymentOrder, has_same_creation_identity}
use project_vpn.Payment.Attempt.{PaymentAttempt, creation_claim_is_active, in_creation}
use project_vpn.UseCase.Rows.{by_id, latest_attempt}
use project_vpn.UseCase.Catalog.{Tariff}
use project_vpn.UseCase.CreatePayment.{
  Shop, Request, PreparedOrder, existing_attempt, candidate_of, order_by_key, add_order,
  resume_order, prepare_found, prepare_order,
}
use project_vpn.UseCase.CreatePayment.Claimed.{IsEarlier, IsClaimed, resume_order-IsClaimed}

order_by_key-append :
    (key : Text) (o : PaymentOrder) (l : List PaymentOrder)
    → order_by_key key l ≡ none
    → text_eq o.idempotency_key key ≡ true
    → order_by_key key (l ++ (o ∷ [])) ≡ some o
unfolding order_by_key
order_by_key-append key o [] h e = ground arith
order_by_key-append key o (x ∷ l) h e = ground (arith, order_by_key-append key o l)

-- An order that was added is found under its key.
added_found :
    (st : Shop) (c : PaymentOrder) (now : Instant)
    → order_by_key c.idempotency_key (add_order st c now).0.store.orders
      ≡ some (add_order st c now).1
unfolding add_order
added_found st c now = elim (Option-cases (order_by_key c.idempotency_key st.store.orders)) [
  | inl e ↦
      let o = record c { id = some st.next_order_id; created_at = some now } in
      ground (
        arith,
        e,
        order_by_key-append c.idempotency_key o st.store.orders e (text_eq_refl c.idempotency_key),
      )
  | inr (o, e) ↦ ground (arith, e)
]

found_again :
    (st : Shop) (c o : PaymentOrder) (now : Instant)
    → order_by_key c.idempotency_key st.store.orders ≡ some o
    → add_order st c now ≡ (st, o)
unfolding add_order
found_again st c o now e = ground (arith, e)

pub same_rows :
    (st : Shop) (c : PaymentOrder) (now : Instant)
    → ((add_order st c now).0.tariffs ≡ st.tariffs)
      × ((add_order st c now).0.store.attempts ≡ st.store.attempts)
      × ((add_order st c now).0.next_attempt_id ≡ st.next_attempt_id)
unfolding add_order
same_rows st c now = ground arith

-- What `prepare_found` finds before it claims
pub record Found (st st' : Shop) (c resolved : PaymentOrder) (name : Text) (until : Instant)
    (token : ℕ) (p : PreparedOrder) : Type 0 where
  pub key : ℕ
  pub order : PaymentOrder
  pub resolved_id : resolved.id ≡ some key
  pub row : by_id (λ (x : PaymentOrder). x.id) key st.store.orders ≡ some order
  pub same : has_same_creation_identity order c ≡ true
  pub claim : IsClaimed st st' order key name until token p

pub prepare_found-Found :
    (st st' : Shop) (c resolved : PaymentOrder) (name : Text) (lease now token : ℕ)
    (p : PreparedOrder)
    → All (IsEarlier now st.next_attempt_id) st.store.attempts
    → prepare_found st c resolved name lease now token ≡ ok (st', p)
    → p.owns_creation_claim ≡ true
    → Found st st' c resolved name (now + seconds lease) token p
unfolding prepare_found
prepare_found-Found st st' c resolved name lease now token p all h own =
    elim (Option-cases resolved.id) [
      | inl e ↦ absurd (ground arith)
      | inr (k, e) ↦ elim (Option-cases (by_id (λ (x : PaymentOrder). x.id) k st.store.orders)) [
        | inl f ↦ absurd (ground arith)
        | inr (order, f) ↦ elim (Bool-cases (has_same_creation_identity order c)) [
          | inr g ↦ absurd (ground arith)
          | inl g ↦ record {
            key = k;
            order = order;
            resolved_id = e;
            row = f;
            same = g;
            claim =
                resume_order-IsClaimed st st' order k name lease now token
                  (latest_attempt k st.store.attempts) p all refl (ground arith) own;
          }
        ]
      ]
    ]

resumed_again :
    (st : Shop) (order : PaymentOrder) (k : ℕ) (name : Text) (lease now token : ℕ)
    (a : PaymentAttempt)
    → in_creation a ≡ true
    → creation_claim_is_active a now ≡ true
    → resume_order st order k name lease now token (some a) ≡ ok (st, existing_attempt order name a)
unfolding resume_order
resumed_again st order k name lease now token a e f = ground (arith, e, f)

prepared_again :
    (st st' : Shop) (c resolved : PaymentOrder) (name : Text) (until : Instant)
    (lease later token other : ℕ) (p : PreparedOrder)
    → Found st st' c resolved name until token p
    → later < until
    → prepare_found st' c resolved name lease later other
      ≡ ok (st', existing_attempt p.order p.tariff_name p.attempt)
unfolding prepare_found
prepared_again st st' c resolved name until lease later token other p v less =
    let again =
      resumed_again st' v.order v.key name lease later other p.attempt v.claim.open_still
        (v.claim.active later less) in
    let row = ap (by_id (λ (x : PaymentOrder). x.id) v.key) v.claim.orders ∙ v.row in
    ground
      (arith, v.resolved_id, row, v.same, v.claim.latest, again, v.claim.for_order, v.claim.named)

-- While the invoice of an order is being made, a request with the same key, user, tariff and provider
-- gets the same order and the attempt that is under way: it claims nothing and writes nothing. (The
-- attempts before it are older and have ids below the next one.)
pub payment_requested_again :
    (st st' : Shop) (r : Request) (lease now token later other : ℕ) (p : PreparedOrder)
    → All (IsEarlier now st.next_attempt_id) st.store.attempts
    → prepare_order st r lease now token ≡ ok (st', p)
    → p.owns_creation_claim ≡ true
    → later < now + seconds lease
    → prepare_order st' r lease later other
      ≡ ok (st', existing_attempt p.order p.tariff_name p.attempt)
unfolding prepare_order
payment_requested_again st st' r lease now token later other p all h own less =
    elim (Option-cases (by_id (λ (x : Tariff). x.id) r.tariff_id st.tariffs)) [
      | inl e ↦ absurd (ground arith)
      | inr (tariff, e) ↦
          elim (Result-cases (Order.post_init (candidate_of r tariff r.tariff_id))) [
            | inr (x, f) ↦ absurd (ground arith)
            | inl (c, f) ↦ elim (Bool-cases tariff.is_enabled) [
              | inr q ↦ absurd (ground arith)
              | inl q ↦
                  let added = add_order st c now in
                  let rows = same_rows st c now in
                  let v =
                    prepare_found-Found added.0 st' c added.1 tariff.name lease now token p
                      (rw (rows.1, rows.2) all) (ground (arith, e, f, q)) own in
                  let again =
                    prepared_again added.0 st' c added.1 tariff.name (now + seconds lease) lease
                      later token other p v less in
                  let shelf =
                    ap (by_id (λ (x : Tariff). x.id) r.tariff_id) (v.claim.tariffs ∙ rows.0) ∙ e in
                  let known =
                    found_again st' c added.1 later
                      (ap (order_by_key c.idempotency_key) v.claim.orders ∙ added_found st c now) in
                  ground (arith, shelf, f, q, known, again)
            ]
          ]
    ]
