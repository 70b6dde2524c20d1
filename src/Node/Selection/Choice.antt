-- ===== src/Node/Selection/Choice.antt =====
-- What is chosen: an eligible candidate, online before degraded.
use project_vpn.Common.{
  ℕ, ◌≡◌, ◌≢◌, ◌↔◌, refl, ◌⊎◌, inl, inr, true, false, none, some, Option-cases, List, [], ◌∷◌,
  arith, Bool-cases, filter, In, In-filter, filter-empty, filter-In, Instant,
}
use project_vpn.Node.{NodeStatus}
use project_vpn.Node.Selection.{
  Candidate, eligible, has_status, key_le, insert, sorted, first_per_node, total_weight, draw, last,
  online_or, pool_of, nodes_of, draw_from, choose, select,
}
use project_vpn.Node.Selection.Members.{
  cons-ne-nil, some-ne-none, In-choose, In-nodes_of, In-online_or,
}

-- What the pool of a draw holds.
pub record InPool (stale : ℕ) (now : Instant) (cs : List Candidate) (c : Candidate) : Type 0 where
  pub offered : In c cs
  pub fit : eligible stale now c ≡ true
  pub tier :
      (has_status NodeStatus.online c ≡ true)
      ⊎ ((has_status NodeStatus.degraded c ≡ true)
          × ((d : Candidate)
              → In d cs
              → eligible stale now d ≡ true
              → has_status NodeStatus.online d ≡ false))

pub pool_of-InPool :
    (stale : ℕ) (now : Instant) (cs : List Candidate) (c : Candidate)
    → In c (pool_of stale now cs)
    → InPool stale now cs c
unfolding pool_of
pool_of-InPool stale now cs c h =
    let fits = filter (eligible stale now) cs in
    elim (In-online_or c (filter (has_status NodeStatus.online) fits)
      (filter (has_status NodeStatus.degraded) fits) h) [
        | inl k ↦
            let (a, on) = In-filter (has_status NodeStatus.online) c fits k in
            let (b, e) = In-filter (eligible stale now) c cs a in
            record { offered = b; fit = e; tier = inl on }
        | inr (none_on, k) ↦
            let (a, off) = In-filter (has_status NodeStatus.degraded) c fits k in
            let (b, e) = In-filter (eligible stale now) c cs a in
            record {
              offered = b;
              fit = e;
              tier = inr (
                off,
                (λ d m ok.
                    filter-empty (has_status NodeStatus.online) d fits none_on
                      (filter-In (eligible stale now) d cs m ok)),
              );
            }
      ]

pub select-In_nodes :
    (randbelow : ℕ → ℕ) (cs : List Candidate) (now : Instant) (stale : ℕ) (c : Candidate)
    → select randbelow cs now stale ≡ some c
    → In c (nodes_of (pool_of stale now cs))
select-In_nodes randbelow cs now stale c h =
    In-choose c randbelow (pool_of stale now cs) (unfold select in h)

-- The chosen candidate is one of those offered and is eligible. It is online; or it is degraded, and
-- then no eligible candidate is online.
pub select_sound :
    (randbelow : ℕ → ℕ) (cs : List Candidate) (now : Instant) (stale : ℕ) (c : Candidate)
    → select randbelow cs now stale ≡ some c
    → In c cs
      × (eligible stale now c ≡ true)
      × ((has_status NodeStatus.online c ≡ true)
          ⊎ ((has_status NodeStatus.degraded c ≡ true)
              × ((d : Candidate)
                  → In d cs
                  → eligible stale now d ≡ true
                  → has_status NodeStatus.online d ≡ false)))
select_sound randbelow cs now stale c h =
    let p =
      pool_of-InPool stale now cs c
        (In-nodes_of c (pool_of stale now cs) (select-In_nodes randbelow cs now stale c h)) in
    (p.offered, p.fit, p.tier)

insert-ne-nil : (c : Candidate) (cs : List Candidate) → insert c cs ≢ []
unfolding insert
insert-ne-nil c [] e = cc
insert-ne-nil c (d ∷ ds) e = elim (Bool-cases (key_le c d)) [
  | inl k ↦ absurd (cons-ne-nil (rw k at e))
  | inr k ↦ absurd (cons-ne-nil (rw k at e))
]

first_per_node-ne-nil : (cs : List Candidate) → cs ≢ [] → first_per_node [] cs ≢ []
unfolding first_per_node
first_per_node-ne-nil [] h e = h refl
first_per_node-ne-nil (c ∷ cs) h e = cc

last-ne-none : (cs : List Candidate) → cs ≢ [] → last cs ≢ none
last-ne-none [] h e = h refl
last-ne-none (c ∷ []) h e = cc
last-ne-none (c ∷ d ∷ ds) h e = last-ne-none (d ∷ ds) cons-ne-nil e

draw_from-ne-none :
    (randbelow : ℕ → ℕ) (nodes : List Candidate) → nodes ≢ [] → draw_from randbelow nodes ≢ none
unfolding draw_from
draw_from-ne-none randbelow nodes h e =
    elim (Option-cases (draw (randbelow (total_weight nodes)) 0 nodes)) [
      | inl missed ↦ last-ne-none nodes h (rw missed at e)
      | inr (c, hit) ↦ absurd (some-ne-none (rw hit at e))
    ]

choose-none : (randbelow : ℕ → ℕ) (pool : List Candidate) → choose randbelow pool ≡ none → pool ≡ []
unfolding nodes_of
choose-none randbelow [] e = refl
choose-none randbelow (c ∷ cs) e = absurd (
    draw_from-ne-none randbelow (nodes_of (c ∷ cs))
      (first_per_node-ne-nil (sorted (c ∷ cs)) (unfold sorted in insert-ne-nil c (sorted cs))) e)

online_or-nil : (on off : List Candidate) → online_or on off ≡ [] → (on ≡ []) × (off ≡ [])
online_or-nil [] off e = (refl, e)
online_or-nil (c ∷ cs) off e = cc

-- An eligible candidate has a serving status.
eligible_serves :
    (stale : ℕ) (now : Instant) (c : Candidate)
    → eligible stale now c ≡ true
    → has_status NodeStatus.online c ≡ false
    → has_status NodeStatus.degraded c ≡ true
unfolding eligible
eligible_serves stale now c h off = ground arith

empty_pool :
    (stale : ℕ) (now : Instant) (cs : List Candidate) (d : Candidate)
    → pool_of stale now cs ≡ []
    → In d cs
    → eligible stale now d ≡ false
unfolding pool_of
empty_pool stale now cs d e m = elim (Bool-cases (eligible stale now d)) [
  | inr unfit ↦ unfit
  | inl fit ↦
      let fits = filter (eligible stale now) cs in
      let (on, off) =
        online_or-nil (filter (has_status NodeStatus.online) fits)
          (filter (has_status NodeStatus.degraded) fits) e in
      let here = filter-In (eligible stale now) d cs m fit in
      cc (
        filter-empty (has_status NodeStatus.degraded) d fits off here,
        eligible_serves stale now d fit
            (filter-empty (has_status NodeStatus.online) d fits on here),
      )
]

-- The choice fails exactly when none of the candidates offered is eligible.
pub select_complete :
    (randbelow : ℕ → ℕ) (cs : List Candidate) (now : Instant) (stale : ℕ)
    → (select randbelow cs now stale ≡ none)
      ↔ ((d : Candidate) → In d cs → eligible stale now d ≡ false)
select_complete randbelow cs now stale = (
  (λ e d m.
      empty_pool stale now cs d (choose-none randbelow (pool_of stale now cs) (unfold select in e))
        m),
  (λ unfit. elim (Option-cases (select randbelow cs now stale)) [
    | inl e ↦ e
    | inr (c, e) ↦ let (m, fit, tier) = select_sound randbelow cs now stale c e in cc (unfit c m)
  ]),
)
