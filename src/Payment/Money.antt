-- ===== src/Payment/Money.antt =====
-- `Money` of domain/value_objects/money.py. A value that was constructed is not negative, so
-- `minor` is a natural number; the constructor takes the integer that the caller hands over.
use project_vpn.Common.{
  ℕ, ◌+◌, ◌-◌, not, ltb, if◌then◌else◌, ℤ, pos, negsuc, Text, strip, upper, is_blank, text_eq,
}
use project_vpn.Errors.{Result, ok, err, domain_validation, raise_if, ◌>>◌}

pub record Money : Type 0 where
  pub minor : ℕ
  pub currency : Text

-- `Money(minor, currency)`: the sign is tested first, then the normalised currency.
unfoldable pub make : ℤ → Text → Result Money
make (negsuc n) currency = err (domain_validation "Money amount cannot be negative")
make (pos n) currency =
    let normalized_currency = upper (strip currency) in
    if is_blank normalized_currency
    then err (domain_validation "Currency cannot be blank")
    else ok (record { minor = n; currency = normalized_currency })

-- `_ensure_same_currency`
unfoldable pub ensure_same_currency : Money → Money → Result (Unit {0})
ensure_same_currency a b =
    raise_if (not (text_eq a.currency b.currency))
      (domain_validation "Money values must use the same currency")

-- `__add__`
unfoldable pub add : Money → Money → Result Money
unfolding ensure_same_currency make
add a b = do ensure_same_currency a b; make (pos (a.minor + b.minor)) a.currency

-- `__sub__`
unfoldable pub sub : Money → Money → Result Money
unfolding ensure_same_currency make
sub a b = do
  ensure_same_currency a b
  raise_if (ltb a.minor b.minor) (domain_validation "Money result cannot be negative")
  make (pos (a.minor - b.minor)) a.currency
