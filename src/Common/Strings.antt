-- ===== src/Common/Strings.antt =====
-- Python's `str` as its code points: `strip`, `lower`, `upper`, `in` and equality.
-- `lower` and `upper` change the ASCII letters alone.
use Prim.Native.Nat.{ℕ, ◌+◌, ◌-◌}
use Prim.Native.Char.{code}
use Prim.Native.String.{String}
use mathlib.Core.Path.{◌≡◌, refl}
use mathlib.Core.Logic.{◌↔◌}
use mathlib.Core.Bool.{Bool, true, false, ◌&&◌, ◌||◌}
use mathlib.Core.Option.{Option, none, some}
use mathlib.Core.List.{List, [], ◌∷◌, ◌++◌, map, reverse, map-append}
use native.Mathlib.Omega.{arith}
use project_vpn.Common.Tests.{leb, ◌==◌, if◌then◌else◌}

abbrev pub Text : Type 0
Text = List ℕ

-- The code points of a literal.
abbrev pub codes : String → Text
codes String.[] = []
codes (String.◌∷◌ c s) = code c ∷ codes s

abbrev pub text_eq : Text → Text → Bool
text_eq [] [] = true
text_eq (a ∷ s) (b ∷ t) = a == b && text_eq s t
text_eq _ _ = false

pub text_eq_refl : (s : Text) → text_eq s s ≡ true
text_eq_refl [] = refl
text_eq_refl (a ∷ s) = ground (arith, text_eq_refl s)

pub text_eq_sound : (s t : Text) → text_eq s t ≡ true → s ≡ t
text_eq_sound [] [] h = refl
text_eq_sound [] (b ∷ t) h = ground arith
text_eq_sound (a ∷ s) [] h = ground arith
text_eq_sound (a ∷ s) (b ∷ t) h = ground (arith, text_eq_sound s t)

pub text_eq_complete : (s t : Text) → s ≡ t → text_eq s t ≡ true
text_eq_complete s t h = rw h (text_eq_refl t)

pub text_eq_iff : (s t : Text) → (text_eq s t ≡ true) ↔ (s ≡ t)
text_eq_iff s t = (text_eq_sound s t, text_eq_complete s t)

-- Python's `==` on optional texts.
abbrev pub same_text : Option Text → Option Text → Bool
same_text none none = true
same_text (some s) (some t) = text_eq s t
same_text _ _ = false

-- `not s`
abbrev pub is_blank : Text → Bool
is_blank [] = true
is_blank (c ∷ s) = false

-- `not o`, for `o` a text or `None`
abbrev pub is_missing : Option Text → Bool
is_missing none = true
is_missing (some s) = is_blank s

-- `str.isspace` of one character
pub is_space : ℕ → Bool
is_space c =
    (leb 9 c && leb c 13)
    || (leb 28 c && leb c 32)
    || c == 133
    || c == 160
    || c == 5760
    || (leb 8192 c && leb c 8202)
    || c == 8232
    || c == 8233
    || c == 8239
    || c == 8287
    || c == 12288

pub strip_left : Text → Text
strip_left [] = []
strip_left (c ∷ s) = if is_space c then strip_left s else c ∷ s

unfoldable pub strip : Text → Text
unfolding strip_left is_space
strip s = reverse (strip_left (reverse (strip_left s)))

abbrev lower_code : ℕ → ℕ
lower_code c = if leb 65 c && leb c 90 then c + 32 else c

abbrev upper_code : ℕ → ℕ
upper_code c = if leb 97 c && leb c 122 then c - 32 else c

unfoldable pub lower : Text → Text
lower = map lower_code

unfoldable pub upper : Text → Text
upper = map upper_code

abbrev pub starts_with : Text → Text → Bool
starts_with [] t = true
starts_with (a ∷ s) [] = false
starts_with (a ∷ s) (b ∷ t) = a == b && starts_with s t

-- `s in t`
unfoldable pub contains : Text → Text → Bool
contains s [] = starts_with s []
contains s (b ∷ t) = starts_with s (b ∷ t) || contains s t

pub lower-append : (a b : Text) → lower (a ++ b) ≡ lower a ++ lower b
unfolding lower
lower-append a b = map-append lower_code a b

starts_with-append : (s b : Text) → starts_with s (s ++ b) ≡ true
starts_with-append [] b = refl
starts_with-append (c ∷ s) b = ground (arith, starts_with-append s b)

pub contains-append : (s a b : Text) → contains s (a ++ (s ++ b)) ≡ true
unfolding contains
contains-append [] [] [] = refl
contains-append [] [] (c ∷ b) = refl
contains-append (c ∷ s) [] b = ground (arith, starts_with-append s b)
contains-append s (c ∷ a) b = ground (arith, contains-append s a b)
