-- ===== src/Tests/Users.antt =====
-- A user of domain/entities/user.py who changes the primary contact.
use project_vpn.Common.{
  ◌≤◌, true, false, Bool-cases, inl, inr, some, [], ◌∷◌, In, arith, codes, Text, text_eq,
}
use project_vpn.User.{UserContact, User, update_contact}
use project_vpn.User.Contacts.{primaries, update_contact-primaries}

abbrev old_contact : UserContact
old_contact = record { contact_type = codes "telegram"; value = codes "1"; is_primary = true }

abbrev new_contact : UserContact
new_contact = record { contact_type = codes "telegram"; value = codes "2"; is_primary = true }

abbrev somebody : User
somebody = record {
  id = some 1;
  name_or_nick = codes "nick";
  created_at = some 0;
  contacts =
      old_contact
      ∷ record { contact_type = codes "email"; value = codes "a@b"; is_primary = false }
      ∷ [];
  enabled = true;
}

one_primary : (ty : Text) → primaries ty somebody.contacts ≤ 1
one_primary ty = elim (Bool-cases (text_eq (codes "telegram") ty)) [
  | inl e ↦ ground arith
  | inr e ↦ ground arith
]

update_contact-primaries_example :
    ((ty : Text) → primaries ty (update_contact somebody new_contact).contacts ≤ 1)
    × In new_contact (update_contact somebody new_contact).contacts
update_contact-primaries_example = update_contact-primaries somebody new_contact one_primary
