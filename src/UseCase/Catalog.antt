-- ===== src/UseCase/Catalog.antt =====
-- `Tariff` of domain/entities/tariff.py.
use project_vpn.Common.{
  ℕ, ◌+◌, ◌==◌, Bool, true, false, Option, leb_ℤ, ℤ, pos, pos_part, Text, strip, is_blank, Instant,
  days, fits, not,
}
use project_vpn.Errors.{Result, ok, domain_validation, overflow, raise_if, ◌>>◌}
use project_vpn.Payment.Money.{Money}

pub record Tariff : Type 0 where
  pub id : Option ℕ
  pub name : Text
  pub price : Money
  pub period_days : ℕ
  pub description : Option Text
  pub is_enabled : Bool

-- `__post_init__`, with the number of days as the caller hands it over
unfoldable pub post_init : Tariff → ℤ → Result Tariff
post_init self period_days = do
  raise_if (is_blank (strip self.name)) (domain_validation "Tariff name cannot be blank")
  raise_if (self.price.minor == 0) (domain_validation "Tariff price must be positive")
  raise_if (leb_ℤ period_days (pos 0)) (domain_validation "Tariff duration must be positive")
  ok (record self { name = strip self.name; period_days = pos_part period_days })

unfoldable pub calculate_expiration : Tariff → Instant → Result Instant
unfolding fits
calculate_expiration self starts_at = do
  raise_if (not (fits (starts_at + days self.period_days))) overflow
  ok (starts_at + days self.period_days)

unfoldable pub enable : Tariff → Tariff
enable self = record self { is_enabled = true }

unfoldable pub disable : Tariff → Tariff
disable self = record self { is_enabled = false }
