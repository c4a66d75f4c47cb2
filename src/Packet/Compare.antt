-- ===== src/Packet/Compare.antt =====
-- src/net/tftp_packet.cpp: case-insensitive names and the lookup of an option.
use tftp_stress_test.Common.{
  ℕ, ◌+◌, ◌≡◌, refl, Bool, true, false, ◌&&◌, List, [], ◌∷◌, Option, none, some, arith, Bytes, leb,
  ◌==◌, if◌then◌else◌,
}
use tftp_stress_test.Packet.{TftpOption, TftpPacket}

-- `std::tolower` on an `unsigned char` in the "C" locale.
unfoldable pub to_lower : ℕ → ℕ
to_lower c = if leb b'A' c && leb c b'Z' then c + 32 else c

-- The size test and the loop over equal positions, in one recursion on both texts.
unfoldable pub equals_ignore_ascii_case : Bytes → Bytes → Bool
unfolding to_lower
equals_ignore_ascii_case [] [] = true
equals_ignore_ascii_case [] (b ∷ right) = false
equals_ignore_ascii_case (a ∷ left) [] = false
equals_ignore_ascii_case (a ∷ left) (b ∷ right) =
    (to_lower a == to_lower b) && equals_ignore_ascii_case left right

find_in : List TftpOption → Bytes → Option TftpOption
find_in [] name = none
find_in (option ∷ rest) name =
    if equals_ignore_ascii_case option.name name then some option else find_in rest name

unfoldable pub find_option : TftpPacket → Bytes → Option TftpOption
unfolding find_in
find_option packet name = find_in packet.options name

unfoldable pub has_option : TftpPacket → Bytes → Bool
has_option packet name = elim (find_option packet name) [ none ↦ false | some option ↦ true ]

abbrev lower : Bytes → Bytes
lower [] = []
lower (c ∷ s) = to_lower c ∷ lower s

-- Names that compare equal have the same lower-case spelling.
pub equals_ignore_ascii_case→eq :
    (left right : Bytes) → equals_ignore_ascii_case left right ≡ true → lower left ≡ lower right
unfolding equals_ignore_ascii_case
equals_ignore_ascii_case→eq [] [] h = refl
equals_ignore_ascii_case→eq [] (b ∷ right) h = cc
equals_ignore_ascii_case→eq (a ∷ left) [] h = cc
equals_ignore_ascii_case→eq (a ∷ left) (b ∷ right) h =
    ground (arith, equals_ignore_ascii_case→eq left right)
