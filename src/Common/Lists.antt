-- ===== src/Common/Lists.antt =====
-- Lists measured by native numbers, and membership and "for all" by recursion.
use Prim.Native.Nat.{ℕ, suc, ◌+◌}
use mathlib.Core.Path.{◌≡◌, sym, subst, ap, ◌∙◌}
use mathlib.Core.Logic.{◌⊎◌, inl, inr}
use mathlib.Core.Bool.{Bool, true, false}
use mathlib.Core.List.{List, [], ◌∷◌, ◌++◌}
use native.Mathlib.Omega.{arith}
use project_vpn.Common.Tests.{Bool-cases, if◌then◌else◌}

module _ {ℓ} {A : Type ℓ} where
  abbrev pub length : List A → ℕ
  length [] = 0
  length (x ∷ xs) = suc (length xs)

  pub length-append : (xs ys : List A) → length (xs ++ ys) ≡ length xs + length ys
  length-append [] ys = omega arith
  length-append (x ∷ xs) ys = omega (arith, length-append xs ys)

  -- `[x for x in xs if keep(x)]`
  abbrev pub filter : (A → Bool) → List A → List A
  filter keep [] = []
  filter keep (x ∷ xs) = if keep x then x ∷ filter keep xs else filter keep xs

module _ {ℓ κ} {A : Type ℓ} where
  abbrev pub All : (A → Type κ) → List A → Type κ
  All P [] = Unit
  All P (x ∷ xs) = P x × All P xs

module _ {A : Type 0} where
  -- `x in xs`, with the place where it stands.
  abbrev pub In : A → List A → Type 0
  In x [] = ⊥
  In x (y ∷ ys) = (x ≡ y) ⊎ In x ys

  In-filter_step :
      (keep : A → Bool) (x y : A) (ys : List A)
      → keep y ≡ true
      → (In x (filter keep ys) → In x ys × (keep x ≡ true))
      → (x ≡ y) ⊎ In x (filter keep ys)
      → ((x ≡ y) ⊎ In x ys) × (keep x ≡ true)
  In-filter_step keep x y ys kept rest (inl e) = (inl e, rw e kept)
  In-filter_step keep x y ys kept rest (inr h) = let (a, b) = rest h in (inr a, b)

  pub In-filter :
      (keep : A → Bool) (x : A) (xs : List A) → In x (filter keep xs) → In x xs × (keep x ≡ true)
  In-filter keep x [] h = elim h [ ]
  In-filter keep x (y ∷ ys) h = elim (Bool-cases (keep y)) [
    | inl kept ↦ In-filter_step keep x y ys kept (In-filter keep x ys) (rw kept at h)
    | inr gone ↦ let (a, b) = In-filter keep x ys (rw gone at h) in (inr a, b)
  ]

  pub filter-empty :
      (keep : A → Bool) (x : A) (xs : List A) → filter keep xs ≡ [] → In x xs → keep x ≡ false
  filter-empty keep x [] e h = elim h [ ]
  filter-empty keep x (y ∷ ys) e (inl p) = rw p (ground arith)
  filter-empty keep x (y ∷ ys) e (inr h) = filter-empty keep x ys (ground arith) h

  pub All-In : (P : A → Type 0) (x : A) (xs : List A) → All P xs → In x xs → P x
  All-In P x [] a h = elim h [ ]
  All-In P x (y ∷ ys) (a, b) (inl e) = subst P (sym e) a
  All-In P x (y ∷ ys) (a, b) (inr h) = All-In P x ys b h

  -- A list that a test chooses.
  pub In-if : (b : Bool) (x : A) (xs ys : List A) → In x (if b then xs else ys) → In x xs ⊎ In x ys
  In-if true x xs ys h = inl h
  In-if false x xs ys h = inr h

  In-if_right : (b : Bool) (x y : A) (xs : List A) → In x xs → In x (if b then y ∷ xs else xs)
  In-if_right true x y xs h = inr h
  In-if_right false x y xs h = h

  pub filter-In :
      (keep : A → Bool) (x : A) (xs : List A) → In x xs → keep x ≡ true → In x (filter keep xs)
  filter-In keep x [] h k = h
  filter-In keep x (y ∷ ys) (inl e) k = rw (sym (ap keep e) ∙ k) (inl e)
  filter-In keep x (y ∷ ys) (inr h) k =
      In-if_right (keep y) x y (filter keep ys) (filter-In keep x ys h k)
