-- ===== src/Common/Text.antt =====
-- A `std::string` or a byte vector is the list of its bytes; a literal of the source is `text "..."`.
use Prim.Native.Nat.{ℕ, zero, suc, ◌+◌, ◌/◌, ◌%◌}
use Prim.Native.Char.{code}
use Prim.Native.String.{String}
use mathlib.Core.List.{List, [], ◌∷◌, ◌++◌}
use mathlib.Core.Bool.{Bool, true, false, ◌&&◌}
use tftp_stress_test.Common.Tests.{ltb, ◌==◌}

abbrev pub Bytes : Type 0
Bytes = List ℕ

text_bytes : String → Bytes
text_bytes String.[] = []
text_bytes (String.◌∷◌ c s) = code c ∷ text_bytes s

-- Shut, so that a message of the program stays one word in proofs.
unfoldable pub text : String → Bytes
unfolding text_bytes
text s = text_bytes s

-- The decimal digits of `n`, most significant first; `n + 1` rounds are enough.
unfoldable pub decimal : ℕ → ℕ → Bytes
decimal zero n = []
decimal (suc rounds) n = elim (ltb n 10) [
  | true ↦ (48 + n) ∷ []
  | false ↦ decimal rounds (n / 10) ++ (48 + n % 10) ∷ []
]

-- `std::to_string` of an unsigned number.
unfoldable pub to_string : ℕ → Bytes
unfolding decimal
to_string n = decimal (suc n) n

-- `==` on `std::string`.
abbrev pub same_bytes : Bytes → Bytes → Bool
same_bytes [] [] = true
same_bytes [] (b ∷ ys) = false
same_bytes (a ∷ xs) [] = false
same_bytes (a ∷ xs) (b ∷ ys) = (a == b) && same_bytes xs ys
