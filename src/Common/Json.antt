-- ===== src/Common/Json.antt =====
-- JSON values as the payloads hold them, and a payload: Python's `dict[str, Any]`.
use mathlib.Core.Bool.{Bool, true, false, not}
use mathlib.Core.Option.{Option, none, some}
use mathlib.Core.List.{List, [], ◌∷◌}
use Prim.Native.Nat.{ℕ}
use project_vpn.Common.Tests.{if◌then◌else◌}
use project_vpn.Common.Int.{ℤ, pos, eq_ℤ}
use project_vpn.Common.Strings.{Text, text_eq, is_blank}

-- `real m e` is the decimal m * 10 ^ -e.
mutual
  pub data Json : Type 0 where
    null : Json
    boolean : Bool → Json
    int : ℤ → Json
    real : ℤ → ℕ → Json
    str : Text → Json
    array : Items → Json
    object : Fields → Json

  pub data Items : Type 0 where
    nil : Items
    cons : Json → Items → Items

  pub data Fields : Type 0 where
    end : Fields
    field : Text → Json → Fields → Fields

abbrev pub Payload : Type 0
Payload = List (Text × Json)

-- `payload.get(key)`
abbrev pub get : Text → Payload → Option Json
get key [] = none
get key ((k, v) ∷ rest) = if text_eq k key then some v else get key rest

-- `{**payload, key: value}`
abbrev pub put : Text → Json → Payload → Payload
put key value [] = (key, value) ∷ []
put key value ((k, v) ∷ rest) =
    if text_eq k key then (k, value) ∷ rest else (k, v) ∷ put key value rest

-- `bool(value)`
abbrev pub truthy : Json → Bool
truthy null = false
truthy (boolean b) = b
truthy (int n) = not (eq_ℤ n (pos 0))
truthy (real m e) = not (eq_ℤ m (pos 0))
truthy (str s) = not (is_blank s)
truthy (array nil) = false
truthy (array (cons x xs)) = true
truthy (object end) = false
truthy (object (field k v fs)) = true

-- `bool(payload.get(key))`
abbrev pub present : Option Json → Bool
present none = false
present (some v) = truthy v

-- `a or b` for two results of `payload.get`
abbrev pub or_get : Option Json → Option Json → Option Json
or_get a b = if present a then a else b
