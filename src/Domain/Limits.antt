-- ===== src/Domain/Limits.antt =====
-- server/dukan/shared/limits.py
use dukan_pro.Prelude.{ℕ, ◌-◌, ◌^◌}
use dukan_pro.Prelude.Int.{ℤ, pos, negsuc}

abbrev pub int32_min : ℤ
int32_min = negsuc (2 ^ 31 - 1)

abbrev pub int32_max : ℤ
int32_max = pos (2 ^ 31 - 1)

abbrev pub money_max_ℕ : ℕ
money_max_ℕ = 2 ^ 53 - 1

abbrev pub money_max : ℤ
money_max = pos money_max_ℕ

-- `-MONEY_MAX`
abbrev pub money_min : ℤ
money_min = negsuc (2 ^ 53 - 2)
