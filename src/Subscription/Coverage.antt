-- ===== src/Subscription/Coverage.antt =====
-- Paid time is neither lost nor doubled when periods are bought one after another.
use project_vpn.Common.{
  ℕ, ◌+◌, ◌≤◌, ◌<◌, ◌≡◌, ◌↔◌, refl, sym, max, ◌⊎◌, inl, inr, true, false, Bool-cases, ltb→lt,
  Option, none, some, List, [], ◌∷◌, arith, ltb, pos, if◌then◌else◌, Instant, days, latest, fits,
}
use project_vpn.Errors.{Result, Result-cases, ok, err, overflow, ◌>>=◌}
use project_vpn.Subscription.{
  Subscription, SubscriptionPeriod, SubscriptionStatus, contains, next_start,
}
use project_vpn.Subscription.Policy.{apply_paid_period}

-- Purchases of one tariff by one user: the days bought, and when. Each builds on the period before.
pub purchases :
    Subscription → Option SubscriptionPeriod → List (ℕ × Instant) → Result (List SubscriptionPeriod)
purchases s last [] = ok []
purchases s last ((d, now) ∷ rest) =
    apply_paid_period (some s) last (pos s.user_id) (pos s.tariff_id) (pos d) now >>= λ a.
    purchases a.subscription (some a.period) rest >>= λ ps. ok (a.period ∷ ps)

abbrev pub AllPositive : List (ℕ × Instant) → Type 0
AllPositive [] = Unit
AllPositive ((d, now) ∷ rest) = (0 < d) × AllPositive rest

-- The time from which the last period leaves the user without access.
abbrev pub end_of : Option SubscriptionPeriod → Instant
end_of none = 0
end_of (some p) = p.expires_at

-- The periods that answer the purchases: none starts before its purchase or inside the period
-- before, none leaves a gap that the user did not cause, and each lasts the days that were bought.
abbrev pub Chained :
    Option SubscriptionPeriod → List SubscriptionPeriod → List (ℕ × Instant) → Type 0
Chained last [] [] = Unit
Chained last (p ∷ ps) ((d, now) ∷ rest) =
    (now ≤ p.starts_at)
    × (end_of last ≤ p.starts_at)
    × ((p.starts_at ≡ now) ⊎ (p.starts_at ≡ end_of last))
    × (p.expires_at ≡ p.starts_at + days d)
    × (p.is_paid ≡ true)
    × Chained (some p) ps rest
Chained _ _ _ = ⊥

-- The period of one purchase.
abbrev bought : Subscription → Option SubscriptionPeriod → ℕ → Instant → SubscriptionPeriod
bought s last d now = record {
  id = none;
  subscription_id = s.id;
  starts_at = next_start now last;
  expires_at = next_start now last + days d;
  is_paid = true;
  created_at = now;
  payment_order_id = none;
}

next_start_bounds :
    (now : Instant) (last : Option SubscriptionPeriod)
    → (now ≤ next_start now last)
      × (end_of last ≤ next_start now last)
      × ((next_start now last ≡ now) ⊎ (next_start now last ≡ end_of last))
next_start_bounds now none = (omega arith, omega arith, inl refl)
next_start_bounds now (some p) = (omega arith, omega arith, omega arith)

next_start-end :
    (now : Instant) (last : Option SubscriptionPeriod) → next_start now last ≡ max now (end_of last)
next_start-end now none = omega arith
next_start-end now (some p) = refl

-- Every period ends no later than the last moment that there is: each starts with its purchase or at
-- the end of the period before.
abbrev pub AllFit : Instant → List (ℕ × Instant) → Type 0
AllFit end [] = Unit
AllFit end ((d, now) ∷ rest) = (max now end + days d ≤ latest) × AllFit (max now end + days d) rest

one_purchase :
    (s : Subscription) (last : Option SubscriptionPeriod) (d : ℕ) (now : Instant)
    → s.status ≡ SubscriptionStatus.active
    → 0 < d
    → apply_paid_period (some s) last (pos s.user_id) (pos s.tariff_id) (pos d) now ≡ (
        if fits (next_start now last + days d)
        then ok (record {
          subscription = s;
          period = bought s last d now;
          created_new_subscription = false;
          replaced_subscription = none;
        })
        else err overflow)
unfolding apply_paid_period
one_purchase s last d now h p = ground arith

purchases-step :
    (s : Subscription) (last : Option SubscriptionPeriod) (d : ℕ) (now : Instant)
    (l : List (ℕ × Instant))
    → s.status ≡ SubscriptionStatus.active
    → 0 < d
    → purchases s last ((d, now) ∷ l) ≡ (
        if fits (next_start now last + days d)
        then (purchases s (some (bought s last d now)) l >>= λ ps. ok (bought s last d now ∷ ps))
        else err overflow)
unfolding purchases
purchases-step s last d now l h p = ground (arith, one_purchase s last d now h p)

purchases_fit :
    (s : Subscription) (last : Option SubscriptionPeriod) (l : List (ℕ × Instant))
    → s.status ≡ SubscriptionStatus.active
    → AllPositive l
    → AllFit (end_of last) l
    → (ps : List SubscriptionPeriod) × (purchases s last l ≡ ok ps)
unfolding purchases fits
purchases_fit s last [] h p f = ([], refl)
purchases_fit s last ((d, now) ∷ l) h p f =
    let step = purchases-step s last d now l h p.0 in
    let starts = next_start-end now last in
    let (ps, e) = purchases_fit s (some (bought s last d now)) l h p.1 (rw starts f.1) in
    (bought s last d now ∷ ps, ground (arith, step, starts, f.0, e))

purchases_made :
    (s : Subscription) (last : Option SubscriptionPeriod) (l : List (ℕ × Instant))
    (ps : List SubscriptionPeriod)
    → s.status ≡ SubscriptionStatus.active
    → AllPositive l
    → purchases s last l ≡ ok ps
    → AllFit (end_of last) l × Chained last ps l
unfolding purchases fits
purchases_made s last [] [] h p e = (tt, tt)
purchases_made s last [] (q ∷ qs) h p e = absurd (ground arith)
purchases_made s last ((d, now) ∷ l) ps h p e =
    let step = purchases-step s last d now l h p.0 in
    let starts = next_start_bounds now last in
    let start = next_start-end now last in
    elim (Result-cases (purchases s (some (bought s last d now)) l)) [
      | inl (qs, f) ↦
          let (fit, chain) = purchases_made s (some (bought s last d now)) l qs h p.1 f in
          let here : next_start now last + days d ≤ latest = ground (arith, step) in
          let all : ps ≡ bought s last d now ∷ qs = ground (arith, step) in
          rw all (
            (rw (sym start) here, rw (sym start) fit),
            (starts.0, starts.1, starts.2, refl, refl, chain),
          )
      | inr (x, f) ↦ absurd (ground (arith, step))
    ]

-- Purchases of positive lengths on an active subscription all succeed exactly when no period ends
-- later than the last moment that there is; and the periods of purchases that succeed follow one
-- another with no overlap and with no gap but the user's own, each as long as was paid for.
pub purchases-Chained :
    (s : Subscription) (last : Option SubscriptionPeriod) (l : List (ℕ × Instant))
    → s.status ≡ SubscriptionStatus.active
    → AllPositive l
    → (((ps : List SubscriptionPeriod) × (purchases s last l ≡ ok ps)) ↔ AllFit (end_of last) l)
      × ((ps : List SubscriptionPeriod) → purchases s last l ≡ ok ps → Chained last ps l)
purchases-Chained s last l h p = (
  (λ made. (purchases_made s last l made.0 h p made.1).0, λ f. purchases_fit s last l h p f),
  λ ps e. (purchases_made s last l ps h p e).1,
)

-- How many of the periods give access at a moment.
pub access_count : List SubscriptionPeriod → Instant → ℕ
access_count [] m = 0
access_count (p ∷ ps) m = (if contains p m then 1 else 0) + access_count ps m

none_before :
    (p : SubscriptionPeriod) (ps : List SubscriptionPeriod) (l : List (ℕ × Instant)) (m : Instant)
    → Chained (some p) ps l
    → m < p.expires_at
    → access_count ps m ≡ 0
unfolding access_count contains
none_before p [] l m c h = refl
none_before p (q ∷ ps) [] m c h = elim c [ ]
none_before p (q ∷ ps) ((d, now) ∷ l) m (c0, c1, c2, c3, c4, c5) h =
    ground (arith, none_before q ps l m c5 (omega arith))

Chained-once :
    (last : Option SubscriptionPeriod) (ps : List SubscriptionPeriod) (l : List (ℕ × Instant))
    (m : Instant)
    → Chained last ps l
    → access_count ps m ≤ 1
unfolding access_count contains
Chained-once last [] l m c = omega arith
Chained-once last (q ∷ ps) [] m c = elim c [ ]
Chained-once last (q ∷ ps) ((d, now) ∷ l) m (c0, c1, c2, c3, c4, c5) =
    elim (Bool-cases (ltb m q.expires_at)) [
      | inl inside ↦ rw (none_before q ps l m c5 (ltb→lt _ _ inside)) (ground arith)
      | inr later ↦ ground (arith, Chained-once (some q) ps l m c5)
    ]

-- No moment is paid for twice: of the periods bought, at most one gives access at any moment.
pub access_once :
    (s : Subscription) (last : Option SubscriptionPeriod) (l : List (ℕ × Instant))
    (ps : List SubscriptionPeriod) (m : Instant)
    → s.status ≡ SubscriptionStatus.active
    → AllPositive l
    → purchases s last l ≡ ok ps
    → access_count ps m ≤ 1
access_once s last l ps m h p e = Chained-once last ps l m ((purchases-Chained s last l h p).1 ps e)
