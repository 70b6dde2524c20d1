-- ===== src/UseCase/CreatePayment/Handed.antt =====
-- What `_prepare_order` hands over with a claim, and the row of its attempt once saved.
use project_vpn.Common.{
  ℕ, ◌≡◌, refl, sym, ◌∙◌, ap, inl, inr, true, false, Bool-cases, Option-cases, none, some, All,
  arith, if_intro, is_none, if◌then◌else◌, ◌==◌,
}
use project_vpn.Errors.{ok, Result-cases}
use project_vpn.Payment.Order
use project_vpn.Payment.Order.{PaymentOrder}
use project_vpn.Payment.Attempt.{PaymentAttempt, owns_creation_claim, clear_creation_claim}
use project_vpn.UseCase.Rows.{Store, by_id, replace, breaks_reference, save_attempt}
use project_vpn.UseCase.Rows.Laws.{by_id-id, by_id-replace}
use project_vpn.UseCase.Catalog.{Tariff}
use project_vpn.UseCase.CreatePayment.{
  Shop, Request, PreparedOrder, candidate_of, add_order, prepare_order,
}
use project_vpn.UseCase.CreatePayment.Claimed.{IsEarlier}
use project_vpn.UseCase.CreatePayment.Retry.{prepare_found-Found, same_rows}

-- What `_prepare_order` hands over with a claim
pub record IsHanded (p : PreparedOrder) (token : ℕ) : Type 0 where
  pub key : ℕ
  pub order_id : p.order.id ≡ some key
  pub token_kept : p.creation_lease_token ≡ some token
  pub owned : owns_creation_claim p.attempt token ≡ true
  pub unreferenced : p.attempt.provider_payment_id ≡ none

pub prepared-IsHanded :
    (st st' : Shop) (r : Request) (lease now token : ℕ) (p : PreparedOrder)
    → All (IsEarlier now st.next_attempt_id) st.store.attempts
    → prepare_order st r lease now token ≡ ok (st', p)
    → p.owns_creation_claim ≡ true
    → IsHanded p token
unfolding prepare_order
prepared-IsHanded st st' r lease now token p all h own =
    elim (Option-cases (by_id (λ (x : Tariff). x.id) r.tariff_id st.tariffs)) [
      | inl e ↦ absurd (ground arith)
      | inr (tariff, e) ↦
          elim (Result-cases (Order.post_init (candidate_of r tariff r.tariff_id))) [
            | inr (x, f) ↦ absurd (ground arith)
            | inl (c, f) ↦ elim (Bool-cases tariff.is_enabled) [
              | inr q ↦ absurd (ground arith)
              | inl q ↦
                  let added = add_order st c now in
                  let rows = same_rows st c now in
                  let v =
                    prepare_found-Found added.0 st' c added.1 tariff.name lease now token p
                      (rw (rows.1, rows.2) all) (ground (arith, e, f, q)) own in
                  record {
                    key = v.key;
                    order_id =
                        ap (λ (x : PaymentOrder). x.id) v.claim.for_order
                        ∙ by_id-id (λ x. x.id) v.key added.0.store.orders v.order v.row;
                    token_kept = v.claim.token_kept;
                    owned = v.claim.owned;
                    unreferenced = v.claim.unreferenced;
                  }
            ]
          ]
    ]

pub same_true : (n : ℕ) → (n == n) ≡ true
same_true n = ground arith

pub saved_any :
    (st : Store) (b : PaymentAttempt) (n : ℕ)
    → b.id ≡ some n
    → breaks_reference b st.attempts ≡ false
    → save_attempt st b
      ≡ ok (record st {
        attempts =
            replace
              (λ (x : PaymentAttempt). x.id)
              (if is_none b.creation_lease_token then clear_creation_claim b else b)
              st.attempts;
      })
unfolding save_attempt
saved_any st b n e free = ground (arith, e, free)

-- An attempt that is saved without a claim is the one that is found afterwards.
pub saved_row :
    (st : Store) (a b : PaymentAttempt) (n : ℕ)
    → by_id (λ (x : PaymentAttempt). x.id) n st.attempts ≡ some a
    → b.id ≡ some n
    → b ≡ clear_creation_claim b
    → breaks_reference b st.attempts ≡ false
    → let stored = record st { attempts = replace (λ (x : PaymentAttempt). x.id) b st.attempts } in
      (save_attempt st b ≡ ok stored)
      × (by_id (λ (x : PaymentAttempt). x.id) n stored.attempts ≡ some b)
unfolding save_attempt
saved_row st a b n found e clear free = (
  saved_any st b n e free
      ∙ ap (λ x. ok (record st { attempts = replace (λ (y : PaymentAttempt). y.id) x st.attempts }))
          (if_intro (λ x. x ≡ b) (is_none b.creation_lease_token) (clear_creation_claim b) b
            (λ q. sym clear) (λ q. refl)),
  rw (by_id-replace (λ (x : PaymentAttempt). x.id) b n n st.attempts e, same_true n, found) refl,
)
