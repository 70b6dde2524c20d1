-- ===== src/Dispatch/Trace/Follow.antt =====
-- Rows that follow calls: one row, and a table after an UPDATE.
use project_vpn.Common.{
  ℕ, ◌≡◌, refl, sym, ◌∙◌, ap, inl, inr, Bool, true, Bool-cases, Option, none, some, List, [], arith,
  ◌==◌,
}
use mathlib.Core.Option
use project_vpn.UseCase.Rows.{by_id, replace}
use project_vpn.UseCase.Rows.Laws.{by_id-replace}

abbrev pub anything {ℓ} : {C : Type ℓ} → List C → Bool
anything ms = true

-- The second row is the first after calls that are allowed.
pub record Follows {A C : Type 0} (allowed : List C → Bool) (run : A → List C → A) (x y : Option A)
    : Type 0 where
  pub calls : List C
  pub fine : allowed calls ≡ true
  pub followed : y ≡ Option.map (λ a. run a calls) x

module _ {A C : Type 0} (allowed : List C → Bool) (run : A → List C → A)
    (allowed_nil : allowed [] ≡ true) (run_nil : (a : A) → run a [] ≡ a) where
  map_nil : (x : Option A) → x ≡ Option.map (λ a. run a []) x
  map_nil none = refl
  map_nil (some a) = ap some (sym (run_nil a))

  pub Follows-refl : (x : Option A) → Follows allowed run x x
  Follows-refl x = record { calls = []; fine = allowed_nil; followed = map_nil x }

  pub Follows-same : (x y : Option A) → y ≡ x → Follows allowed run x y
  Follows-same x y e = record { calls = []; fine = allowed_nil; followed = e ∙ map_nil x }

  same-eq : (n k : ℕ) → (n == k) ≡ true → n ≡ k
  same-eq n k q = ground arith

  -- The rows that are found after an UPDATE of the row that was found under `n`
  pub Follows-replace :
      (id_of : A → Option ℕ) (ms : List C) (n : ℕ) (a b : A) (l base : List A)
      → by_id id_of n base ≡ some a
      → id_of b ≡ some n
      → b ≡ run a ms
      → allowed ms ≡ true
      → ((k : ℕ) → Follows allowed run (by_id id_of k base) (by_id id_of k l))
      → (k : ℕ) → Follows allowed run (by_id id_of k base) (by_id id_of k (replace id_of b l))
  Follows-replace id_of ms n a b l base found h e f kept k =
      let row = by_id-replace id_of b n k l h in
      elim (Bool-cases (n == k)) [
        | inl q ↦
            let here = ap (λ j. by_id id_of j base) (sym (same-eq n k q)) ∙ found in
            record {
              calls = ms;
              fine = f;
              followed = rw (row, q, (kept k).followed, here) (ap some e);
            }
        | inr q ↦ rw (row, q) (kept k)
      ]

mapped_none :
    {A C : Type 0} (run : A → List C → A) (ms : List C) (b : A)
    → Option.map (λ a. run a ms) none ≡ some b
    → ⊥
mapped_none run ms b e = ground arith

some_inj : {A : Type 0} {a b : A} → some a ≡ some b → a ≡ b
some_inj e = ground arith

-- A row that is there came from one that was.
pub came_from :
    {A C : Type 0} (allowed : List C → Bool) (run : A → List C → A) (x y : Option A) (b : A)
    → Follows allowed run x y
    → y ≡ some b
    → (a : A) × (ms : List C) × (x ≡ some a) × (b ≡ run a ms)
came_from allowed run none y b v e = absurd (mapped_none run v.calls b (sym v.followed ∙ e))
came_from allowed run (some a) y b v e = (a, v.calls, refl, some_inj (sym e ∙ v.followed))

-- And a row that was there is there after calls.
pub goes_to :
    {A C : Type 0} (allowed : List C → Bool) (run : A → List C → A) (x y : Option A) (a : A)
    → (v : Follows allowed run x y) → x ≡ some a
    → y ≡ some (run a v.calls)
goes_to allowed run x y a v e = v.followed ∙ ap (Option.map (λ b. run b v.calls)) e
