-- ===== src/Sha256/Stream.antt =====
-- The chunks in which `Sha256::update` (src/verify/sha256.cpp) is fed make no difference.
use tftp_stress_test.Common.{
  ℕ, zero, suc, ◌+◌, ◌-◌, ◌%◌, ◌^◌, ◌≤◌, ◌<◌, min, ◌≡◌, refl, sym, ap, ◌∙◌, [], ◌∷◌, ◌++◌,
  append_assoc, arith, Bytes, ◌==◌, Bool-cases, inl, inr, length, length-append, length-take,
  length-drop, take, drop,
}
use tftp_stress_test.Sha256.{Sha256, process_block, take_bytes, update_loop, update}

-- The hasher that is fed byte by byte.
unfoldable pub absorb : Sha256 → Bytes → Sha256
absorb s [] = s
absorb s (b ∷ rest) = absorb (take_bytes s (b ∷ [])) rest

abbrev pub with_total : Sha256 → ℕ → Sha256
with_total s n = record s { total_length = n }

pub take_bytes-full :
    (s : Sha256) (chunk : Bytes)
    → length s.buffer + length chunk ≡ 64
    → take_bytes s chunk
      ≡ record s { state = process_block s.state (s.buffer ++ chunk); buffer = [] }
unfolding take_bytes
take_bytes-full s chunk h = ground (arith, length-append s.buffer chunk)

take_bytes-part :
    (s : Sha256) (chunk : Bytes)
    → length s.buffer + length chunk < 64
    → take_bytes s chunk ≡ record s { buffer = s.buffer ++ chunk }
unfolding take_bytes
take_bytes-part s chunk h = ground (arith, length-append s.buffer chunk)

together :
    (s : Sha256) (b : ℕ) (chunk : Bytes)
    → take_bytes s (b ∷ chunk) ≡ take_bytes (record s { buffer = s.buffer ++ b ∷ [] }) chunk
unfolding take_bytes
together s b chunk = rw (append_assoc s.buffer (b ∷ []) chunk)

-- A chunk that fits the buffer can be fed byte by byte.
pub take_bytes-absorb :
    (s : Sha256) (b : ℕ) (chunk : Bytes)
    → length s.buffer + length (b ∷ chunk) ≤ 64
    → take_bytes s (b ∷ chunk) ≡ absorb s (b ∷ chunk)
unfolding absorb
take_bytes-absorb s b [] h = refl
take_bytes-absorb s b (c ∷ chunk) h =
    let first = take_bytes-part s (b ∷ []) (omega arith) in
    let longer = record s { buffer = s.buffer ++ b ∷ [] } in
    together s b (c ∷ chunk)
    ∙ take_bytes-absorb longer c chunk (omega (arith, length-append s.buffer (b ∷ [])))
    ∙ ap (λ t. absorb t (c ∷ chunk)) (sym first)

pub absorb-append : (s : Sha256) (xs ys : Bytes) → absorb s (xs ++ ys) ≡ absorb (absorb s xs) ys
unfolding absorb
absorb-append s [] ys = refl
absorb-append s (x ∷ xs) ys = absorb-append (take_bytes s (x ∷ [])) xs ys

length-take_bytes :
    (s : Sha256) (b : ℕ)
    → length s.buffer < 64
    → length (take_bytes s (b ∷ [])).buffer ≡ (length s.buffer + 1) % 64
unfolding take_bytes
length-take_bytes s b h = ground (arith, length-append s.buffer (b ∷ []))

pub length-absorb :
    (s : Sha256) (xs : Bytes)
    → length s.buffer < 64
    → length (absorb s xs).buffer ≡ (length s.buffer + length xs) % 64
unfolding absorb
length-absorb s [] h = omega arith
length-absorb s (x ∷ xs) h = omega (
  arith,
  length-take_bytes s x h,
  length-absorb (take_bytes s (x ∷ [])) xs (omega (arith, length-take_bytes s x h)),
)

take_bytes-with_total :
    (s : Sha256) (n : ℕ) (xs : Bytes)
    → take_bytes (with_total s n) xs ≡ with_total (take_bytes s xs) n
unfolding take_bytes
take_bytes-with_total s n xs = elim (Bool-cases (length (s.buffer ++ xs) == 64)) [
  | inl e ↦ rw e refl
  | inr e ↦ rw e refl
]

pub absorb-with_total :
    (s : Sha256) (n : ℕ) (xs : Bytes) → absorb (with_total s n) xs ≡ with_total (absorb s xs) n
unfolding absorb
absorb-with_total s n [] = refl
absorb-with_total s n (x ∷ xs) =
    ap (λ t. absorb t xs) (take_bytes-with_total s n (x ∷ []))
    ∙ absorb-with_total (take_bytes s (x ∷ [])) n xs

pub absorb-total_length : (s : Sha256) (xs : Bytes) → (absorb s xs).total_length ≡ s.total_length
absorb-total_length s xs =
    ap (λ (t : Sha256). t.total_length) (absorb-with_total s s.total_length xs)

pub take-append-drop : (n : ℕ) (xs : Bytes) → take n xs ++ drop n xs ≡ xs
take-append-drop zero xs = refl
take-append-drop (suc n) [] = refl
take-append-drop (suc n) (x ∷ xs) = ap (λ t. x ∷ t) (take-append-drop n xs)

update_loop-absorb :
    (rounds : ℕ) (s : Sha256) (bytes : Bytes)
    → length bytes ≤ rounds
    → length s.buffer < 64
    → update_loop rounds s bytes ≡ absorb s bytes
unfolding update_loop
update_loop-absorb zero s [] h few = unfold absorb in refl
update_loop-absorb zero s (b ∷ bytes) h few = absurd (omega arith)
update_loop-absorb (suc rounds) s [] h few = unfold absorb in refl
update_loop-absorb (suc rounds) s (b ∷ bytes) h few =
    let n = min (64 - length s.buffer) (length (b ∷ bytes)) - 1 in
    let e : min (64 - length s.buffer) (length (b ∷ bytes)) ≡ suc n = omega arith in
    let fed = take_bytes-absorb s b (take n bytes) (omega (arith, length-take n bytes)) in
    let left : length (take_bytes s (b ∷ take n bytes)).buffer < 64 =
      rw fed (omega (arith, length-absorb s (b ∷ take n bytes) few)) in
    rw e (
      update_loop-absorb rounds (take_bytes s (b ∷ take n bytes)) (drop n bytes)
        (omega (arith, length-drop n bytes)) left
      ∙ ap (λ t. absorb t (drop n bytes)) fed
      ∙ sym (absorb-append s (b ∷ take n bytes) (drop n bytes))
      ∙ ap (λ t. absorb s (b ∷ t)) (take-append-drop n bytes))

-- `update` is the hasher that is fed byte by byte.
pub update-absorb :
    (s : Sha256) (bytes : Bytes)
    → length s.buffer < 64
    → update s bytes ≡ with_total (absorb s bytes) ((s.total_length + length bytes) % 2 ^ 64)
unfolding update
update-absorb s bytes few =
    update_loop-absorb (length bytes) (with_total s ((s.total_length + length bytes) % 2 ^ 64))
      bytes (omega arith) few
    ∙ absorb-with_total s ((s.total_length + length bytes) % 2 ^ 64) bytes

-- Feeding two pieces is feeding them together, for a hasher whose buffer is not full.
pub update-append :
    (s : Sha256) (xs ys : Bytes)
    → length s.buffer < 64
    → update (update s xs) ys ≡ update s (xs ++ ys)
update-append s xs ys few =
    let n = (s.total_length + length xs) % 2 ^ 64 in
    let after = absorb s xs in
    let room : length after.buffer < 64 = omega (arith, length-absorb s xs few) in
    let total : (n + length ys) % 2 ^ 64 ≡ (s.total_length + length (xs ++ ys)) % 2 ^ 64 =
      omega (arith, length-append xs ys) in
    ap (λ t. update t ys) (update-absorb s xs few)
    ∙ update-absorb (with_total after n) ys room
    ∙ ap (λ t. with_total t ((n + length ys) % 2 ^ 64)) (absorb-with_total after n ys)
    ∙ ap (λ t. with_total (absorb after ys) t) total
    ∙ ap (λ t. with_total t ((s.total_length + length (xs ++ ys)) % 2 ^ 64))
        (sym (absorb-append s xs ys))
    ∙ sym (update-absorb s (xs ++ ys) few)
