-- ===== src/Node/Selection/Draw.antt =====
-- The draw is fair: each node is hit by as many tickets as it weighs.
use project_vpn.Common.{
  ℕ, ◌+◌, ◌≤◌, ◌<◌, ◌≡◌, inl, inr, some, List, [], ◌∷◌, ◌++◌, arith, ap, ◌∙◌, Bool-cases, ltb,
}
use native.Mathlib.Nat.{add_assoc}
use project_vpn.Node.Selection.{Candidate, weight, total_weight, draw}

draw_passes :
    (ticket cumulative : ℕ) (xs ys : List Candidate)
    → cumulative + total_weight xs ≤ ticket
    → draw ticket cumulative (xs ++ ys) ≡ draw ticket (cumulative + total_weight xs) ys
unfolding draw total_weight
draw_passes ticket cumulative [] ys h = ap (λ n. draw ticket n ys) (omega arith)
draw_passes ticket cumulative (x ∷ xs) ys h = ground (
  arith,
  draw_passes ticket (cumulative + weight x) xs ys,
  ap (λ n. draw ticket n ys) (add_assoc cumulative (weight x) (total_weight xs)),
)

-- Every ticket below the total weight hits a node, so the fallback `nodes[-1]` is never used.
pub draw_total :
    (ticket : ℕ) (cumulative : ℕ) (cs : List Candidate)
    → cumulative ≤ ticket
    → ticket < cumulative + total_weight cs
    → (c : Candidate) × (draw ticket cumulative cs ≡ some c)
unfolding draw total_weight
draw_total ticket cumulative [] l h = absurd (omega arith)
draw_total ticket cumulative (c ∷ cs) l h = elim (Bool-cases (ltb ticket (cumulative + weight c))) [
  | inl hit ↦ (c, rw hit)
  | inr passed ↦
      rw passed (draw_total ticket (cumulative + weight c) cs (ground arith) (omega arith))
]

-- The tickets that hit a node are as many as it weighs: those from the weight of the nodes before it
-- up to that weight and its own.
pub draw_fair :
    (xs : List Candidate) (c : Candidate) (ys : List Candidate) (offset : ℕ)
    → offset < weight c
    → draw (total_weight xs + offset) 0 (xs ++ c ∷ ys) ≡ some c
unfolding draw
draw_fair xs c ys offset h =
    draw_passes (total_weight xs + offset) 0 xs (c ∷ ys) (omega arith) ∙ ground arith
