-- ===== src/UseCase/Entitlement/Preserves.antt =====
-- The steps on entitlements keep the invariant.
use project_vpn.Common.{
  ℕ, ◌+◌, ◌≤◌, ◌<◌, ◌≡◌, refl, sym, false, some, List, [], ◌∷◌, ◌++◌, arith, if◌then◌else◌,
  same_number, Bool-cases, inl, inr,
}
use mathlib.Core.Path.{subst}
use project_vpn.Subscription.{SubscriptionPeriod}
use project_vpn.UseCase.Rows.{Store, replace, period_of_order}
use project_vpn.UseCase.Entitlement.{
  periods_of, IsNumbered, IsEntitled, Step, kept, granted, withdrawn,
}

IsNumbered-append :
    (low next : ℕ) (ps : List SubscriptionPeriod) (p : SubscriptionPeriod)
    → IsNumbered low ps next
    → p.id ≡ some next
    → IsNumbered low (ps ++ (p ∷ [])) (next + 1)
IsNumbered-append low next [] p h e = (next, e, h, omega arith)
IsNumbered-append low next (q ∷ ps) p (k, f, g, h) e =
    (k, f, g, IsNumbered-append (k + 1) next ps p h e)

periods_of-append :
    (n : ℕ) (ps : List SubscriptionPeriod) (p : SubscriptionPeriod)
    → periods_of n (ps ++ (p ∷ []))
      ≡ periods_of n ps + (if same_number p.payment_order_id (some n) then 1 else 0)
periods_of-append n [] p = omega arith
periods_of-append n (q ∷ ps) p = omega (arith, periods_of-append n ps p)

-- An UPDATE of a row whose id is below all of these changes none of them.
replace_below :
    (low k next : ℕ) (ps : List SubscriptionPeriod) (p : SubscriptionPeriod)
    → IsNumbered low ps next
    → p.id ≡ some k
    → k < low
    → replace (λ x. x.id) p ps ≡ ps
unfolding replace
replace_below low k next [] p h e lt = refl
replace_below low k next (q ∷ ps) p (j, f, g, h) e lt =
    ground (arith, replace_below (j + 1) k next ps p h e (omega arith))

-- The id of the period of an order
found_id :
    (n low next : ℕ) (ps : List SubscriptionPeriod) (p : SubscriptionPeriod)
    → IsNumbered low ps next
    → period_of_order n ps ≡ some p
    → (k : ℕ) × (p.id ≡ some k) × (low ≤ k)
unfolding period_of_order
found_id n low next [] p h e = absurd (ground arith)
found_id n low next (q ∷ ps) p (j, f, g, h) e =
    elim (Bool-cases (same_number q.payment_order_id (some n))) [
      | inl here ↦ (j, ground arith, g)
      | inr other ↦
          let (k, a, b) = found_id n (j + 1) next ps p h (ground arith) in (k, a, omega arith)
    ]

-- Well numbered, and as many for each order as in the other list.
abbrev LikePeriods : ℕ → ℕ → List SubscriptionPeriod → List SubscriptionPeriod → Type 0
LikePeriods low next ps l = IsNumbered low l next × ((m : ℕ) → periods_of m l ≡ periods_of m ps)

module _ (n : ℕ) (p : SubscriptionPeriod) where
  -- The UPDATE of the period that was found keeps the numbering and the orders of all periods.
  withdraw_kept :
      (low next : ℕ) (ps : List SubscriptionPeriod)
      → IsNumbered low ps next
      → period_of_order n ps ≡ some p
      → LikePeriods low next ps (replace (λ x. x.id) (record p { is_paid = false }) ps)
  unfolding replace period_of_order
  withdraw_kept low next [] h e = absurd (ground arith)
  withdraw_kept low next (q ∷ ps) (j, f, g, h) e =
      elim (Bool-cases (same_number q.payment_order_id (some n))) [
        | inl here ↦
            let same : q ≡ p = ground arith in
            let whole : replace (λ x. x.id) (record p { is_paid = false }) (q ∷ ps)
                ≡ record p { is_paid = false } ∷ ps =
              ground (
                arith,
                replace_below (j + 1) j next ps (record p { is_paid = false }) h (ground arith)
                    (omega arith),
              ) in
            subst (LikePeriods low next (q ∷ ps)) (sym whole)
              ((j, ground arith, g, h), (λ m. ground arith))
        | inr other ↦
            let found : period_of_order n ps ≡ some p = ground arith in
            let (k, a, b) = found_id n (j + 1) next ps p h found in
            let rest = withdraw_kept (j + 1) next ps h found in
            let whole : replace (λ x. x.id) (record p { is_paid = false }) (q ∷ ps)
                ≡ q ∷ replace (λ x. x.id) (record p { is_paid = false }) ps =
              ground arith in
            subst (LikePeriods low next (q ∷ ps)) (sym whole)
              ((j, f, g, rest.0), (λ m. omega (arith, rest.1 m)))
      ]

-- Every step keeps the invariant.
pub Step-IsEntitled : {s t : Store} → Step s t → IsEntitled s → IsEntitled t
Step-IsEntitled {s} {t} (kept a b c) v = record {
  numbered = rw (a, b) v.numbered;
  entitled = λ n. ground (arith, v.entitled n, c n);
}
Step-IsEntitled {s} {t} (granted n p a b c d e f) v = record {
  numbered = rw (c, f) (IsNumbered-append 0 s.next_period_id s.periods p v.numbered d);
  entitled = λ m. ground (arith, v.entitled m, b m, periods_of-append m s.periods p);
}
Step-IsEntitled {s} {t} (withdrawn n p a b c d) v =
    let more = withdraw_kept n p 0 s.next_period_id s.periods v.numbered a in
    record { numbered = rw (b, c) more.0; entitled = λ m. ground (arith, v.entitled m, more.1 m) }
