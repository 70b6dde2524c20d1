-- ===== src/User/Contacts.antt =====
-- The primary contacts of a user.
use project_vpn.Common.{
  ℕ, ◌+◌, ◌≤◌, ◌≡◌, refl, true, ◌&&◌, Bool-cases, inl, inr, List, [], ◌∷◌, In, arith, if◌then◌else◌,
  if_intro, Text, text_eq, text_eq_sound,
}
use mathlib.Core.Path.{subst}
use project_vpn.User.{UserContact, User, demote, put_contact, update_contact}

-- How many primary contacts of a type there are
abbrev pub primaries : Text → List UserContact → ℕ
primaries ty [] = 0
primaries ty (x ∷ xs) =
    (if text_eq x.contact_type ty && x.is_primary then 1 else 0) + primaries ty xs

demoted_none : (ty : Text) (l : List UserContact) → primaries ty (demote ty l) ≡ 0
unfolding demote
demoted_none ty [] = refl
demoted_none ty (x ∷ l) = ground (arith, demoted_none ty l)

demoted_own :
    (ty other : Text) (l : List UserContact)
    → text_eq other ty ≡ true
    → primaries ty (demote other l) ≡ 0
demoted_own ty other l e =
    subst (λ t. primaries t (demote other l) ≡ 0) (text_eq_sound other ty e) (demoted_none other l)

demoted_fewer :
    (ty other : Text) (l : List UserContact) → primaries ty (demote other l) ≤ primaries ty l
unfolding demote
demoted_fewer ty other [] = omega arith
demoted_fewer ty other (x ∷ l) = ground (arith, demoted_fewer ty other l)

put_more :
    (ty : Text) (c : UserContact) (l : List UserContact)
    → primaries ty (put_contact c l)
      ≤ primaries ty l + (if text_eq c.contact_type ty && c.is_primary then 1 else 0)
unfolding put_contact
put_more ty c [] = ground arith
put_more ty c (x ∷ l) = ground (arith, put_more ty c l)

put_in_contacts : (c : UserContact) (l : List UserContact) → In c (put_contact c l)
unfolding put_contact
put_in_contacts c [] = inl refl
put_in_contacts c (x ∷ l) =
    if_intro (λ ys. In c ys) (text_eq x.contact_type c.contact_type && text_eq x.value c.value)
      (c ∷ l) (x ∷ put_contact c l) (λ e. inl refl) (λ e. inr (put_in_contacts c l))

-- A user whose types each have at most one primary contact still has at most one of each type after any
-- update of a contact, and has the contact that was handed over.
pub update_contact-primaries :
    (u : User) (c : UserContact)
    → ((ty : Text) → primaries ty u.contacts ≤ 1)
    → let u' = update_contact u c in ((ty : Text) → primaries ty u'.contacts ≤ 1) × In c u'.contacts
unfolding update_contact
update_contact-primaries u c v = (
  (λ ty. elim (Bool-cases c.is_primary) [
    | inr q ↦ ground (arith, q, put_more ty c u.contacts, v ty)
    | inl q ↦
        let put = put_more ty c (demote c.contact_type u.contacts) in
        elim (Bool-cases (text_eq c.contact_type ty)) [
          | inl e ↦ ground (arith, q, e, put, demoted_own ty c.contact_type u.contacts e)
          | inr e ↦ ground (arith, q, e, put, demoted_fewer ty c.contact_type u.contacts, v ty)
        ]
  ]),
  put_in_contacts c (if c.is_primary then demote c.contact_type u.contacts else u.contacts),
)
