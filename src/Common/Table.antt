-- ===== src/Common/Table.antt =====
-- A table whose rows are found by a text: a database table with that primary key, or a dict. The
-- order of the rows is not used.
use project_vpn.Common.Tests.{if◌then◌else◌}
use project_vpn.Common.Strings.{Text, text_eq, text_eq_iff}
use mathlib.Core.Path.{◌≡◌, refl}
use mathlib.Core.Option.{Option, none, some}
use mathlib.Core.List.{List, [], ◌∷◌}
use native.Mathlib.Omega.{arith}

abbrev pub Table {ℓ} : Type ℓ → Type ℓ
Table V = List (Text × V)

module _ {ℓ} {V : Type ℓ} where
  unfoldable pub find : Text → Table V → Option V
  find k [] = none
  find k ((j, v) ∷ t) = if text_eq j k then some v else find k t

  -- INSERT of a new key or UPDATE of an old one, and `d[k] = v`
  unfoldable pub store : Text → V → Table V → Table V
  store k v [] = (k, v) ∷ []
  store k v ((j, w) ∷ t) = if text_eq j k then (k, v) ∷ t else (j, w) ∷ store k v t

  -- DELETE, and `d.pop(k, None)`
  unfoldable pub remove : Text → Table V → Table V
  remove k [] = []
  remove k ((j, w) ∷ t) = let rest = remove k t in if text_eq j k then rest else (j, w) ∷ rest

  pub find-store :
      (k j : Text) (v : V) (t : Table V)
      → find j (store k v t) ≡ (if text_eq k j then some v else find j t)
  unfolding find store
  find-store k j v [] = refl
  find-store k j v ((i, w) ∷ t) =
      ground (arith, text_eq_iff k j, text_eq_iff i k, text_eq_iff i j, find-store k j v t)

  pub find-remove :
      (k j : Text) (t : Table V) → find j (remove k t) ≡ (if text_eq k j then none else find j t)
  unfolding find remove
  find-remove k j [] = ground arith
  find-remove k j ((i, w) ∷ t) =
      ground (arith, text_eq_iff k j, text_eq_iff i k, text_eq_iff i j, find-remove k j t)
