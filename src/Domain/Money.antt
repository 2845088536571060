-- ===== src/Domain/Money.antt =====
-- server/dukan/shared/money.py: an amount in minor units with its currency. A program that calls
-- `__mul__` with no integer is not modelled: the model's quantity is one.
use dukan_pro.Prelude.{String, not}
use dukan_pro.Prelude.Int.{ℤ, pos, ◌+ℤ◌, ◌-ℤ◌, ◌*ℤ◌, ltb_ℤ, eqb_ℤ}
use dukan_pro.Prelude.Text.{str_eq}
use dukan_pro.Errors.{Result, Checked, ok, ◌>>◌, raise_if, validation, Code}
use dukan_pro.Prelude.{Bool}

pub record Money : Type 0 where
  pub amount_minor : ℤ
  pub currency : String

unfoldable pub same : Money → Money → Checked
same a b = raise_if (not (str_eq a.currency b.currency)) (validation Code.money_currency_mismatch)

unfoldable pub add : Money → Money → Result Money
unfolding same
add a b =
    same a b
    >> ok (record { amount_minor = a.amount_minor +ℤ b.amount_minor; currency = a.currency })

unfoldable pub sub : Money → Money → Result Money
unfolding same
sub a b =
    same a b
    >> ok (record { amount_minor = a.amount_minor -ℤ b.amount_minor; currency = a.currency })

unfoldable pub mul : Money → ℤ → Money
mul a qty = record { amount_minor = a.amount_minor *ℤ qty; currency = a.currency }

unfoldable pub is_negative : Money → Bool
is_negative a = ltb_ℤ a.amount_minor (pos 0)

unfoldable pub is_zero : Money → Bool
is_zero a = eqb_ℤ a.amount_minor (pos 0)
