-- ===== src/User.antt =====
-- `User` and `UserContact` of domain/entities/user.py.
pub mod Contacts
use project_vpn.Common.{
  ℕ, Bool, true, false, ◌&&◌, ◌||◌, Option, List, [], ◌∷◌, if◌then◌else◌, Text, text_eq, strip,
  is_blank, Instant,
}
use project_vpn.Errors.{Result, ok, domain_validation, raise_if, ◌>>=◌, ◌>>◌}

pub record UserContact : Type 0 where
  pub contact_type : Text
  pub value : Text
  pub is_primary : Bool

-- `UserContact.__post_init__`
unfoldable pub contact_post_init : UserContact → Result UserContact
contact_post_init self = do
  raise_if (is_blank (strip self.contact_type) || is_blank (strip self.value))
      (domain_validation "User contact type and value cannot be blank")
  ok self

pub record User : Type 0 where
  pub id : Option ℕ
  pub name_or_nick : Text
  pub created_at : Option Instant
  pub contacts : List UserContact
  pub enabled : Bool

unfoldable pub rename : User → Text → Result User
rename self value = do
  raise_if (is_blank (strip value)) (domain_validation "User name cannot be blank")
  ok (record self { name_or_nick = strip value })

-- `__post_init__`
unfoldable pub post_init : User → Result User
unfolding rename
post_init self = rename self self.name_or_nick

unfoldable pub activate : User → User
activate self = record self { enabled = true }

unfoldable pub block : User → User
block self = record self { enabled = false }

-- The contacts of a type as secondary ones. They were constructed before, so that constructing them
-- again does not raise.
unfoldable pub demote : Text → List UserContact → List UserContact
demote contact_type [] = []
demote contact_type (x ∷ xs) =
    (if text_eq x.contact_type contact_type then record x { is_primary = false } else x)
    ∷ demote contact_type xs

-- The loop that replaces the first contact with the same type and value, or else appends
unfoldable pub put_contact : UserContact → List UserContact → List UserContact
put_contact contact [] = contact ∷ []
put_contact contact (x ∷ xs) =
    let rest = put_contact contact xs in
    if text_eq x.contact_type contact.contact_type && text_eq x.value contact.value
    then contact ∷ xs
    else x ∷ rest

unfoldable pub update_contact : User → UserContact → User
unfolding demote put_contact
update_contact self contact = record self {
  contacts =
      put_contact contact
        (if contact.is_primary then demote contact.contact_type self.contacts else self.contacts);
}
