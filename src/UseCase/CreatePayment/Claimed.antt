-- ===== src/UseCase/CreatePayment/Claimed.antt =====
-- What `_prepare_order` leaves in the database when it claims the creation of an invoice.
use project_vpn.Common.{
  ℕ, ◌+◌, ◌≤◌, ◌<◌, ◌≡◌, refl, sym, ◌∙◌, ap, ◌⊎◌, inl, inr, true, ◌||◌, leb, Bool-cases,
  Option-cases, Option, none, some, List, [], ◌∷◌, ◌++◌, All, arith, if_intro, if◌then◌else◌, ◌==◌,
  Text, codes, Instant, seconds, is_none, same_number,
}
use mathlib.Core.Path.{subst}
use project_vpn.Errors.{ok, Result-cases}
use project_vpn.Payment.Status.{PaymentStatus}
use project_vpn.Common.Json.{str}
use project_vpn.Payment.Order.{PaymentOrder}
use project_vpn.Payment.Attempt.{
  PaymentAttempt, claim_creation, creation_claim_is_active, owns_creation_claim, fail_creation,
  clear_creation_claim, in_creation,
}
use project_vpn.UseCase.Rows.{Store, replace, latest_attempt, attempt_before, or_zero, save_attempt}
use project_vpn.UseCase.CreatePayment.{
  has_open_attempt, Shop, PreparedOrder, add_attempt, claim_order, resume_order, never_invoiced,
}

-- The attempt was made before, under an id that is not the next one.
pub record IsEarlier (now : Instant) (next : ℕ) (a : PaymentAttempt) : Type 0 where
  pub made : or_zero a.created_at ≤ now
  pub numbered : or_zero a.id < next

latest-new :
    (now next k : ℕ) (a : PaymentAttempt) (l : List PaymentAttempt)
    → All (IsEarlier now next) l
    → a.created_at ≡ some now
    → a.id ≡ some next
    → a.payment_order_id ≡ k
    → latest_attempt k (l ++ (a ∷ [])) ≡ some a
unfolding latest_attempt
latest-new now next k a [] all e f g = ground arith
latest-new now next k a (b ∷ l) all e f g =
    ground (arith, latest-new now next k a l all.1 e f g, all.0.made, all.0.numbered)

latest-cases :
    (k : ℕ) (a b : PaymentAttempt) (l : List PaymentAttempt)
    → latest_attempt k (b ∷ l) ≡ some a
    → (a ≡ b) ⊎ (latest_attempt k l ≡ some a)
unfolding latest_attempt
latest-cases k a b l e = elim (Bool-cases (b.payment_order_id == k)) [
  | inr q ↦ inr (ground arith)
  | inl q ↦ elim (Option-cases (latest_attempt k l)) [
    | inl f ↦ inl (ground arith)
    | inr (x, f) ↦ elim (Bool-cases (attempt_before b x)) [
      | inl g ↦ inr (ground arith)
      | inr g ↦ inl (ground arith)
    ]
  ]
]

latest-IsEarlier :
    (now next k : ℕ) (a : PaymentAttempt) (l : List PaymentAttempt)
    → All (IsEarlier now next) l
    → latest_attempt k l ≡ some a
    → IsEarlier now next a
unfolding latest_attempt
latest-IsEarlier now next k a [] all e = ground arith
latest-IsEarlier now next k a (b ∷ l) all e = elim (latest-cases k a b l e) [
  | inl q ↦ rw q all.0
  | inr q ↦ latest-IsEarlier now next k a l all.1 q
]

replace-IsEarlier :
    (now next : ℕ) (a : PaymentAttempt) (l : List PaymentAttempt)
    → IsEarlier now next a
    → All (IsEarlier now next) l
    → All (IsEarlier now next) (replace (λ (x : PaymentAttempt). x.id) a l)
unfolding replace
replace-IsEarlier now next a [] v all = tt
replace-IsEarlier now next a (b ∷ l) v all = (
  if_intro (IsEarlier now next) (same_number b.id a.id) a b (λ e. v) (λ e. all.0),
  replace-IsEarlier now next a l v all.1,
)

-- What the order's claim leaves behind, as a later request finds it
pub record IsClaimed (st st' : Shop) (order : PaymentOrder) (k : ℕ) (name : Text) (until : Instant)
    (token : ℕ) (p : PreparedOrder) : Type 0 where
  pub latest : latest_attempt k st'.store.attempts ≡ some p.attempt
  pub open_still : in_creation p.attempt ≡ true
  pub active : (later : Instant) → later < until → creation_claim_is_active p.attempt later ≡ true
  pub orders : st'.store.orders ≡ st.store.orders
  pub tariffs : st'.tariffs ≡ st.tariffs
  pub for_order : p.order ≡ order
  pub named : p.tariff_name ≡ name
  pub token_kept : p.creation_lease_token ≡ some token
  pub owned : owns_creation_claim p.attempt token ≡ true
  pub unreferenced : p.attempt.provider_payment_id ≡ none

-- The attempt that a claim inserts
abbrev new_attempt : Shop → PaymentOrder → ℕ → Instant → Instant → ℕ → PaymentAttempt
new_attempt st order k now until token = record {
  id = some st.next_attempt_id;
  payment_order_id = k;
  provider = order.provider;
  status = PaymentStatus.created;
  provider_payment_id = none;
  payment_url = none;
  payload = (codes "creation_state", str (codes "claimed")) ∷ [];
  created_at = some now;
  updated_at = some now;
  creation_claimed_at = some now;
  creation_lease_expires_at = some until;
  creation_lease_token = some token;
}

claimed_rows :
    (st st' : Shop) (order : PaymentOrder) (k : ℕ) (name : Text) (lease now token : ℕ)
    (p : PreparedOrder)
    → claim_order st order k name lease now token ≡ ok (st', p)
    → let a = new_attempt st order k now (now + seconds lease) token in
      (p ≡ record {
        order = order;
        tariff_name = name;
        attempt = a;
        owns_creation_claim = true;
        creation_lease_token = some token;
      })
      × (st' ≡ record st {
        store = record st.store { attempts = st.store.attempts ++ (a ∷ []) };
        next_attempt_id = st.next_attempt_id + 1;
      })
unfolding claim_order claim_creation add_attempt
claimed_rows st st' order k name lease now token p h =
    elim (Bool-cases (leb (now + seconds lease) now || has_open_attempt k st.store.attempts)) [
      | inl q ↦ absurd (ground arith)
      | inr q ↦ (ground arith, ground arith)
    ]

claim_order-IsClaimed :
    (st st' : Shop) (order : PaymentOrder) (k : ℕ) (name : Text) (lease now token : ℕ)
    (p : PreparedOrder)
    → All (IsEarlier now st.next_attempt_id) st.store.attempts
    → claim_order st order k name lease now token ≡ ok (st', p)
    → IsClaimed st st' order k name (now + seconds lease) token p
unfolding creation_claim_is_active owns_creation_claim
claim_order-IsClaimed st st' order k name lease now token p all h =
    let until = now + seconds lease in
    let a = new_attempt st order k now until token in
    let (prepared, stored) = claimed_rows st st' order k name lease now token p h in
    subst (λ x. IsClaimed st x order k name until token p) (sym stored)
      (subst
        (λ y.
          IsClaimed st
            (record st {
              store = record st.store { attempts = st.store.attempts ++ (a ∷ []) };
              next_attempt_id = st.next_attempt_id + 1;
            })
            order k name until token y)
        (sym prepared)
        (record {
          latest = latest-new now st.next_attempt_id k a st.store.attempts all refl refl refl;
          open_still = refl;
          active = λ later less. ground arith;
          orders = refl;
          tariffs = refl;
          for_order = refl;
          named = refl;
          token_kept = refl;
          owned = ground arith;
          unreferenced = refl;
        }))

failed-IsEarlier :
    (now next : ℕ) (a : PaymentAttempt) (text : Text)
    → IsEarlier now next a
    → IsEarlier now next (fail_creation a now text)
unfolding fail_creation clear_creation_claim
failed-IsEarlier now next a text v = ground (arith, v.made, v.numbered)

stored_attempt :
    (st saved : Store) (a : PaymentAttempt)
    → save_attempt st a ≡ ok saved
    → saved ≡ record st {
      attempts =
          replace
            (λ (x : PaymentAttempt). x.id)
            (if is_none a.creation_lease_token then clear_creation_claim a else a)
            st.attempts;
    }
unfolding save_attempt
stored_attempt st saved a h = ground arith

cleared-IsEarlier :
    (now next : ℕ) (a : PaymentAttempt)
    → IsEarlier now next a
    → IsEarlier now next (if is_none a.creation_lease_token then clear_creation_claim a else a)
unfolding clear_creation_claim
cleared-IsEarlier now next a v = ground (arith, v.made, v.numbered)

-- After the abandoned attempt is saved as failed
abandoned-IsClaimed :
    (st st' : Shop) (saved : Store) (order : PaymentOrder) (k : ℕ) (name : Text)
    (lease now token : ℕ) (a : PaymentAttempt) (p : PreparedOrder)
    → All (IsEarlier now st.next_attempt_id) st.store.attempts
    → IsEarlier now st.next_attempt_id a
    → save_attempt st.store (fail_creation a now (codes "creation_claim_abandoned")) ≡ ok saved
    → claim_order (record st { store = saved }) order k name lease now token ≡ ok (st', p)
    → IsClaimed st st' order k name (now + seconds lease) token p
abandoned-IsClaimed st st' saved order k name lease now token a p all v s h =
    let failed = fail_creation a now (codes "creation_claim_abandoned") in
    let row = if is_none failed.creation_lease_token then clear_creation_claim failed else failed in
    let e = stored_attempt st.store saved failed s in
    let earlier =
      replace-IsEarlier now st.next_attempt_id row st.store.attempts
        (cleared-IsEarlier now st.next_attempt_id failed
          (failed-IsEarlier now st.next_attempt_id a (codes "creation_claim_abandoned") v))
        all in
    let c =
      claim_order-IsClaimed (record st { store = saved }) st' order k name lease now token p
        (subst (λ (x : Store). All (IsEarlier now st.next_attempt_id) x.attempts) (sym e) earlier)
        h in
    record {
      latest = c.latest;
      open_still = c.open_still;
      active = c.active;
      orders = c.orders ∙ ap (λ (x : Store). x.orders) e;
      tariffs = c.tariffs;
      for_order = c.for_order;
      named = c.named;
      token_kept = c.token_kept;
      owned = c.owned;
      unreferenced = c.unreferenced;
    }

pub resume_order-IsClaimed :
    (st st' : Shop) (order : PaymentOrder) (k : ℕ) (name : Text) (lease now token : ℕ)
    (o : Option PaymentAttempt) (p : PreparedOrder)
    → All (IsEarlier now st.next_attempt_id) st.store.attempts
    → latest_attempt k st.store.attempts ≡ o
    → resume_order st order k name lease now token o ≡ ok (st', p)
    → p.owns_creation_claim ≡ true
    → IsClaimed st st' order k name (now + seconds lease) token p
unfolding resume_order
resume_order-IsClaimed st st' order k name lease now token none p all e h own =
    claim_order-IsClaimed st st' order k name lease now token p all h
resume_order-IsClaimed st st' order k name lease now token (some a) p all e h own =
    let v = latest-IsEarlier now st.next_attempt_id k a st.store.attempts all e in
    elim (Bool-cases (in_creation a)) [
      | inr q ↦ elim (Bool-cases (never_invoiced a)) [
        | inl r ↦ claim_order-IsClaimed st st' order k name lease now token p all (ground arith)
        | inr r ↦ absurd (ground arith)
      ]
      | inl q ↦ elim (Bool-cases (creation_claim_is_active a now)) [
        | inl r ↦ absurd (ground arith)
        | inr r ↦
            elim (Result-cases
              (save_attempt st.store (fail_creation a now (codes "creation_claim_abandoned")))) [
                | inr (x, s) ↦ absurd (ground arith)
                | inl (saved, s) ↦
                    abandoned-IsClaimed st st' saved order k name lease now token a p all v s
                      (ground arith)
              ]
      ]
    ]
