-- ===== src/Common/Integer.antt =====
-- Signed numbers, and `std::to_string` of a `long long`.
use Prim.Native.Nat.{ℕ, suc}
use mathlib.Core.List.{◌∷◌}
use tftp_stress_test.Common.Text.{Bytes, to_string}

-- `negsuc n` is `-(n + 1)`.
pub data ℤ : Type 0 where
  pos : ℕ → ℤ
  negsuc : ℕ → ℤ

abbrev pub abs : ℤ → ℕ
abs (pos n) = n
abs (negsuc n) = suc n

unfoldable pub print_integer : ℤ → Bytes
print_integer (pos n) = to_string n
print_integer (negsuc n) = b'-' ∷ to_string (suc n)
