-- ===== src/Node/Selection/Endpoint.antt =====
-- Of a node's endpoints the one with the least number is chosen.
use project_vpn.Common.{
  ℕ, ◌≤◌, ◌≡◌, sym, ap, ◌∙◌, ◌⊎◌, inl, inr, true, false, some, List, [], ◌∷◌, arith, In, if_intro,
  Instant,
}
use project_vpn.Node.Selection.{
  Candidate, key_le, insert, sorted, member, first_per_node, pool_of, nodes_of, select,
}
use project_vpn.Node.Selection.Members.{In-insert}
use project_vpn.Node.Selection.Choice.{select-In_nodes}

abbrev IsSorted : List Candidate → Type 0
IsSorted [] = Unit
IsSorted (c ∷ cs) = ((d : Candidate) → In d cs → key_le c d ≡ true) × IsSorted cs

key_le_trans : (a b c : Candidate) → key_le a b ≡ true → key_le b c ≡ true → key_le a c ≡ true
key_le_trans a b c h k = ground arith

key_le_total : (a b : Candidate) → key_le a b ≡ false → key_le b a ≡ true
key_le_total a b h = ground arith

module _ (c d : Candidate) (ds : List Candidate)
    (above : (e : Candidate) → In e ds → key_le d e ≡ true) where
  first_le : key_le c d ≡ true → (e : Candidate) → (e ≡ d) ⊎ In e ds → key_le c e ≡ true
  first_le k e (inl p) = rw p k
  first_le k e (inr m) = key_le_trans c d e k (above e m)

  rest_le : key_le d c ≡ true → (e : Candidate) → (e ≡ c) ⊎ In e ds → key_le d e ≡ true
  rest_le k e (inl p) = rw p k
  rest_le k e (inr m) = above e m

insert-IsSorted : (c : Candidate) (cs : List Candidate) → IsSorted cs → IsSorted (insert c cs)
unfolding insert
insert-IsSorted c [] s = ((λ d m. elim m [ ]), tt)
insert-IsSorted c (d ∷ ds) s =
    let rest = insert-IsSorted c ds s.1 in
    if_intro IsSorted (key_le c d) (c ∷ d ∷ ds) (d ∷ insert c ds) (λ k. (first_le c d ds s.0 k, s))
      (λ k. ((λ e m. rest_le c d ds s.0 (key_le_total c d k) e (In-insert e c ds m)), rest))

sorted-IsSorted : (cs : List Candidate) → IsSorted (sorted cs)
unfolding sorted
sorted-IsSorted [] = tt
sorted-IsSorted (c ∷ cs) = insert-IsSorted c (sorted cs) (sorted-IsSorted cs)

deeper :
    (x c d : Candidate) (ds : List Candidate)
    → ((x ≡ c) ⊎ In x ds → In x (insert c ds))
    → (x ≡ c) ⊎ ((x ≡ d) ⊎ In x ds)
    → (x ≡ d) ⊎ In x (insert c ds)
deeper x c d ds rest (inl e) = inr (rest (inl e))
deeper x c d ds rest (inr (inl e)) = inl e
deeper x c d ds rest (inr (inr m)) = inr (rest (inr m))

In-insert_new : (x c : Candidate) (cs : List Candidate) → (x ≡ c) ⊎ In x cs → In x (insert c cs)
unfolding insert
In-insert_new x c [] m = m
In-insert_new x c (d ∷ ds) m =
    let rest = In-insert_new x c ds in
    if_intro (In x) (key_le c d) (c ∷ d ∷ ds) (d ∷ insert c ds) (λ k. m)
      (λ k. deeper x c d ds rest m)

sorted-In : (x : Candidate) (cs : List Candidate) → In x cs → In x (sorted cs)
unfolding sorted
sorted-In x (c ∷ cs) (inl e) = In-insert_new x c (sorted cs) (inl e)
sorted-In x (c ∷ cs) (inr m) = In-insert_new x c (sorted cs) (inr (sorted-In x cs m))
sorted-In x [] m = elim m [ ]

-- What `first_per_node` promises of each candidate that it keeps.
abbrev IsLowest : List ℕ → List Candidate → Candidate → Type 0
IsLowest seen cs x =
    (member x.node_id seen ≡ false)
    × ((d : Candidate) → In d cs → d.node_id ≡ x.node_id → x.endpoint_id ≤ d.endpoint_id)

module _ (seen : List ℕ) (c : Candidate) (cs : List Candidate) (x : Candidate) where
  skip-IsLowest : member c.node_id seen ≡ true → IsLowest seen cs x → IsLowest seen (c ∷ cs) x
  skip-IsLowest k (free, low) =
      (free, (λ d m e. elim m [ inl p ↦ absurd (clash d p e) | inr m' ↦ low d m' e ]))
    where
      clash : (d : Candidate) → d ≡ c → d.node_id ≡ x.node_id → ⊥
      clash d p e = cc (ap (λ (a : Candidate). member a.node_id seen) p, ap (λ n. member n seen) e)

  head-IsLowest :
      ((d : Candidate) → In d cs → key_le c d ≡ true)
      → member c.node_id seen ≡ false
      → x ≡ c
      → IsLowest seen (c ∷ cs) x
  head-IsLowest above k p = (
    ap (λ (a : Candidate). member a.node_id seen) p ∙ k,
    (λ d m e. elim m [
      | inl q ↦ omega (arith, ap (λ (a : Candidate). a.endpoint_id) (p ∙ sym q))
      | inr m' ↦ ground (arith, above d m', p)
    ]),
  )

  later-IsLowest : IsLowest (c.node_id ∷ seen) cs x → IsLowest seen (c ∷ cs) x
  later-IsLowest (free, low) =
      (ground arith, (λ d m e. elim m [ inl q ↦ absurd (clash d q e) | inr m' ↦ low d m' e ]))
    where
      clash : (d : Candidate) → d ≡ c → d.node_id ≡ x.node_id → ⊥
      clash d q e = ground (arith, ap (λ (a : Candidate). a.node_id) q)

first-IsLowest :
    (seen : List ℕ) (cs : List Candidate)
    → IsSorted cs
    → (x : Candidate) → In x (first_per_node seen cs)
    → IsLowest seen cs x
unfolding first_per_node
first-IsLowest seen [] s x m = elim m [ ]
first-IsLowest seen (c ∷ cs) s x m =
    let skipped = first-IsLowest seen cs s.1 x in
    let kept = first-IsLowest (c.node_id ∷ seen) cs s.1 x in
    if_intro (λ l. In x l → IsLowest seen (c ∷ cs) x) (member c.node_id seen)
      (first_per_node seen cs) (c ∷ first_per_node (c.node_id ∷ seen) cs)
      (λ k n. skip-IsLowest seen c cs x k (skipped n))
      (λ k n. elim n [
        | inl e ↦ head-IsLowest seen c cs x s.0 k e
        | inr n' ↦ later-IsLowest seen c cs x (kept n')
      ])
      m

-- Of all candidates of the pool that stand on the chosen one's node, none has a smaller endpoint
-- number.
pub select_first_endpoint :
    (randbelow : ℕ → ℕ) (cs : List Candidate) (now : Instant) (stale : ℕ) (c d : Candidate)
    → select randbelow cs now stale ≡ some c
    → In d (pool_of stale now cs)
    → d.node_id ≡ c.node_id
    → c.endpoint_id ≤ d.endpoint_id
select_first_endpoint randbelow cs now stale c d h m e =
    (first-IsLowest [] (sorted (pool_of stale now cs)) (sorted-IsSorted (pool_of stale now cs)) c
        (unfold nodes_of in select-In_nodes randbelow cs now stale c h)).1
      d (sorted-In d (pool_of stale now cs) m) e
