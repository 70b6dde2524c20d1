-- ===== src/UseCase/Rows/Laws.antt =====
-- Rows found by their ids after an UPDATE, and primary keys.
use project_vpn.Common.{
  ℕ, ◌≡◌, refl, sym, ◌∙◌, ap, ◌⊎◌, inl, inr, true, false, Bool-cases, In, Option, none, some, List,
  [], ◌∷◌, arith, if◌then◌else◌, ◌==◌, same_number,
}
use project_vpn.UseCase.Rows.{by_id, replace}

module _ {ℓ} {A : Type ℓ} (id_of : A → Option ℕ) where
  pub by_id-id : (n : ℕ) (l : List A) (x : A) → by_id id_of n l ≡ some x → id_of x ≡ some n
  unfolding by_id
  by_id-id n [] x h = cc
  by_id-id n (y ∷ l) x h = ground (arith, by_id-id n l x)

  -- The row that an UPDATE puts in place of those with its id.
  abbrev pub put_in : A → Option A → Option A
  put_in x none = none
  put_in x (some y) = some x

  pub by_id-replace :
      (x : A) (k n : ℕ) (l : List A)
      → id_of x ≡ some k
      → by_id id_of n (replace id_of x l)
        ≡ (if k == n then put_in x (by_id id_of n l) else by_id id_of n l)
  unfolding by_id replace
  by_id-replace x k n [] h = ground arith
  by_id-replace x k n (y ∷ l) h = ground (arith, by_id-replace x k n l)

-- The ids are a primary key: each row is the one that its id finds.
abbrev pub IsKeyed : {A : Type 0} → (A → Option ℕ) → List A → Type 0
IsKeyed {A} id_of l = (x : A) (n : ℕ) → In x l → id_of x ≡ some n → by_id id_of n l ≡ some x

module _ {A : Type 0} (id_of : A → Option ℕ) where
  In-replace :
      (r x : A) (k : ℕ) (l : List A)
      → id_of r ≡ some k
      → In x (replace id_of r l)
      → ((x ≡ r) × ((y : A) × In y l × (id_of y ≡ some k)))
        ⊎ (In x l × (same_number (id_of x) (some k) ≡ false))
  unfolding replace
  In-replace r x k [] h i = elim i [ ]
  In-replace r x k (y ∷ l) h (inl e) = elim (Bool-cases (same_number (id_of y) (some k))) [
    | inl q ↦ inl (e ∙ ground arith, (y, inl refl, ground arith))
    | inr q ↦
        inr
          (inl (e ∙ ground arith), ap (λ z. same_number (id_of z) (some k)) (e ∙ ground arith) ∙ q)
  ]
  In-replace r x k (y ∷ l) h (inr i) = elim (In-replace r x k l h i) [
    | inl (e, (z, j, q)) ↦ inl (e, (z, inr j, q))
    | inr (j, q) ↦ inr (inr j, q)
  ]

  equal_keys : (k n : ℕ) → some k ≡ some n → (k == n) ≡ true
  equal_keys k n e = ground arith

  other_keys :
      (k n : ℕ) (o : Option ℕ) → o ≡ some n → same_number o (some k) ≡ false → (k == n) ≡ false
  other_keys k n o e q = ground arith

  pub replace-IsKeyed :
      (r : A) (k : ℕ) (l : List A)
      → id_of r ≡ some k
      → IsKeyed id_of l
      → IsKeyed id_of (replace id_of r l)
  replace-IsKeyed r k l h v x n i e =
      let row = by_id-replace id_of r k n l h in
      elim (In-replace r x k l h i) [
        | inl (q, (y, j, f)) ↦
            let kn = sym h ∙ ap id_of (sym q) ∙ e in
            rw (row, equal_keys k n kn, v y n j (f ∙ kn)) (ap some (sym q))
        | inr (j, q) ↦ rw (row, other_keys k n (id_of x) e q) (v x n j e)
      ]
