-- ===== src/Node/Selection/Members.antt =====
-- Where the chosen candidate comes from: each stage of the selection passes on candidates of the
-- stage before.
use project_vpn.Common.{
  ℕ, ◌+◌, ◌≡◌, ◌≢◌, refl, ◌∙◌, ◌⊎◌, inl, inr, none, some, Option-cases, List, [], ◌∷◌, arith, ltb,
  Bool-cases, In, In-if,
}
use project_vpn.Node.Selection.{
  Candidate, key_le, insert, sorted, member, first_per_node, weight, total_weight, draw, last,
  online_or, nodes_of, draw_from, choose,
}

pub cons-ne-nil : {c : Candidate} {cs : List Candidate} → c ∷ cs ≢ []
cons-ne-nil e = cc

pub some-ne-none : {c : Candidate} → some c ≢ none
some-ne-none e = cc

pub In-insert : (x c : Candidate) (cs : List Candidate) → In x (insert c cs) → (x ≡ c) ⊎ In x cs
unfolding insert
In-insert x c [] h = h
In-insert x c (d ∷ ds) h = elim (In-if (key_le c d) x (c ∷ d ∷ ds) (d ∷ insert c ds) h) [
  | inl k ↦ k
  | inr (inl e) ↦ inr (inl e)
  | inr (inr k) ↦ elim (In-insert x c ds k) [ inl e ↦ inl e | inr m ↦ inr (inr m) ]
]

pub In-sorted : (x : Candidate) (cs : List Candidate) → In x (sorted cs) → In x cs
unfolding sorted
In-sorted x [] h = h
In-sorted x (c ∷ cs) h = elim (In-insert x c (sorted cs) h) [
  | inl e ↦ inl e
  | inr k ↦ inr (In-sorted x cs k)
]

pub In-first_per_node :
    (x : Candidate) (seen : List ℕ) (cs : List Candidate) → In x (first_per_node seen cs) → In x cs
unfolding first_per_node
In-first_per_node x seen [] h = h
In-first_per_node x seen (c ∷ cs) h =
    elim (In-if (member c.node_id seen) x (first_per_node seen cs)
      (c ∷ first_per_node (c.node_id ∷ seen) cs) h) [
        | inl k ↦ inr (In-first_per_node x seen cs k)
        | inr (inl e) ↦ inl e
        | inr (inr k) ↦ inr (In-first_per_node x (c.node_id ∷ seen) cs k)
      ]

pub In-draw :
    (x : Candidate) (ticket cumulative : ℕ) (cs : List Candidate)
    → draw ticket cumulative cs ≡ some x
    → In x cs
unfolding draw
In-draw x ticket cumulative [] h = cc
In-draw x ticket cumulative (c ∷ cs) h = elim (Bool-cases (ltb ticket (cumulative + weight c))) [
  | inl hit ↦ inl (ground arith)
  | inr passed ↦ inr (In-draw x ticket (cumulative + weight c) cs (rw passed at h))
]

pub In-last : (x : Candidate) (cs : List Candidate) → last cs ≡ some x → In x cs
In-last x [] h = cc
In-last x (c ∷ []) h = inl cc
In-last x (c ∷ d ∷ ds) h = inr (In-last x (d ∷ ds) h)

pub In-draw_from :
    (x : Candidate) (randbelow : ℕ → ℕ) (nodes : List Candidate)
    → draw_from randbelow nodes ≡ some x
    → In x nodes
unfolding draw_from
In-draw_from x randbelow nodes h =
    elim (Option-cases (draw (randbelow (total_weight nodes)) 0 nodes)) [
      | inl missed ↦ In-last x nodes (rw missed at h)
      | inr (c, e) ↦ In-draw x (randbelow (total_weight nodes)) 0 nodes (e ∙ (rw e at h))
    ]

pub In-choose :
    (x : Candidate) (randbelow : ℕ → ℕ) (pool : List Candidate)
    → choose randbelow pool ≡ some x
    → In x (nodes_of pool)
In-choose x randbelow [] h = cc
In-choose x randbelow (c ∷ cs) h = In-draw_from x randbelow (nodes_of (c ∷ cs)) h

pub In-nodes_of : (x : Candidate) (pool : List Candidate) → In x (nodes_of pool) → In x pool
unfolding nodes_of
In-nodes_of x pool h = In-sorted x pool (In-first_per_node x [] (sorted pool) h)

pub In-online_or :
    (x : Candidate) (on off : List Candidate)
    → In x (online_or on off)
    → In x on ⊎ ((on ≡ []) × In x off)
In-online_or x [] off h = inr (refl, h)
In-online_or x (c ∷ cs) off h = inl h
