-- ===== src/Engine/Options/Laws.antt =====
-- The option negotiation of adapters/reference/tftp_reference_engine.cpp: its bounds, and that both ends
-- come out with the same parameters.
use tftp_stress_test.Common.{
  ℕ, ◌%◌, ◌^◌, ◌≤◌, ◌≡◌, refl, Bool, true, false, ◌||◌, List, [], ◌∷◌, Option, none, some, arith,
  Bytes, text, ltb, if◌then◌else◌, stoul, Bool-cases, inl, inr,
}
use tftp_stress_test.Packet.{TftpOption}
use tftp_stress_test.Packet.Compare.{equals_ignore_ascii_case}
use tftp_stress_test.Engine.{EngineConfig, NegotiatedParameters}
use tftp_stress_test.Engine.Options.{
  OptionName, blksize, timeout, tsize, windowsize, name_text, named, clamp_block_size, Negotiation,
  negotiate_block_size, negotiate_timeout, negotiate_transfer_size, negotiate_window_size,
  negotiate_named, negotiate_options, negotiate_server_options,
}

pub named-name_text : (name : OptionName) → named (name_text name) ≡ some name
unfolding named equals_ignore_ascii_case text
named-name_text blksize = refl
named-name_text timeout = refl
named-name_text tsize = refl
named-name_text windowsize = refl

-- Parameters that RFC 2348, 2349 and 7440 allow.
pub record InRange (p : NegotiatedParameters) : Type 0 where
  pub block_min : 8 ≤ p.block_size
  pub block_max : p.block_size ≤ 65464
  pub window_min : 1 ≤ p.window_size
  pub window_max : p.window_size ≤ 65535
  pub timeout_range : (t : ℕ) → p.timeout_seconds ≡ some t → (1 ≤ t) × (t ≤ 255)

some_injective : (a b : ℕ) → some a ≡ some b → a ≡ b
some_injective a b h = cc

-- A property of both branches.
pub branches :
    (P : Negotiation → Type 0) (b : Bool) (x y : Negotiation) → P x → P y → P (if b then x else y)
branches P true x y p q = p
branches P false x y p q = q

negotiate_block_size-InRange :
    (value : Option ℕ) (n : Negotiation)
    → InRange n.params
    → InRange (negotiate_block_size value n).params
unfolding clamp_block_size
negotiate_block_size-InRange none n r = r
negotiate_block_size-InRange (some value) n r = record {
  block_min = omega arith;
  block_max = omega arith;
  window_min = r.window_min;
  window_max = r.window_max;
  timeout_range = r.timeout_range;
}

negotiate_timeout-InRange :
    (value : Option ℕ) (n : Negotiation)
    → InRange n.params
    → InRange (negotiate_timeout value n).params
negotiate_timeout-InRange none n r = r
negotiate_timeout-InRange (some value) n r =
    elim (Bool-cases (ltb (value % 2 ^ 32) 1 || ltb 255 (value % 2 ^ 32))) [
      | inl e ↦ rw e r
      | inr e ↦ rw e (record {
        block_min = r.block_min;
        block_max = r.block_max;
        window_min = r.window_min;
        window_max = r.window_max;
        timeout_range =
            λ t h. let same : value % 2 ^ 32 ≡ t = some_injective _ _ h in ground (arith, same);
      })
    ]

negotiate_transfer_size-InRange :
    (size : Option ℕ) (text_value : Bytes) (value : Option ℕ) (n : Negotiation)
    → InRange n.params
    → InRange (negotiate_transfer_size size text_value value n).params
negotiate_transfer_size-InRange (some size) text_value value n r = record {
  block_min = r.block_min;
  block_max = r.block_max;
  window_min = r.window_min;
  window_max = r.window_max;
  timeout_range = r.timeout_range;
}
negotiate_transfer_size-InRange none text_value none n r = r
negotiate_transfer_size-InRange none text_value (some size) n r = record {
  block_min = r.block_min;
  block_max = r.block_max;
  window_min = r.window_min;
  window_max = r.window_max;
  timeout_range = r.timeout_range;
}

negotiate_window_size-InRange :
    (value : Option ℕ) (n : Negotiation)
    → InRange n.params
    → InRange (negotiate_window_size value n).params
negotiate_window_size-InRange none n r = r
negotiate_window_size-InRange (some value) n r = elim (Bool-cases (ltb (value % 2 ^ 32) 1)) [
  | inl e ↦ rw e r
  | inr e ↦ rw e (record {
    block_min = r.block_min;
    block_max = r.block_max;
    window_min = ground arith;
    window_max = omega arith;
    timeout_range = r.timeout_range;
  })
]

negotiate_named-InRange :
    (name : Option OptionName) (option : TftpOption) (config : EngineConfig) (size : Option ℕ)
    (n : Negotiation)
    → InRange n.params
    → InRange (negotiate_named name option config size n).params
negotiate_named-InRange none option config size n r = r
negotiate_named-InRange (some blksize) option config size n r =
    branches (λ m. InRange m.params) config.support_block_size_option _ n
      (negotiate_block_size-InRange (stoul option.value) n r) r
negotiate_named-InRange (some timeout) option config size n r =
    branches (λ m. InRange m.params) config.support_timeout_option _ n
      (negotiate_timeout-InRange (stoul option.value) n r) r
negotiate_named-InRange (some tsize) option config size n r =
    branches (λ m. InRange m.params) config.support_transfer_size_option _ n
      (negotiate_transfer_size-InRange size option.value (stoul option.value) n r) r
negotiate_named-InRange (some windowsize) option config size n r =
    branches (λ m. InRange m.params) config.support_window_size_option _ n
      (negotiate_window_size-InRange (stoul option.value) n r) r

negotiate_options-InRange :
    (options : List TftpOption) (config : EngineConfig) (size : Option ℕ) (n : Negotiation)
    → InRange n.params
    → InRange (negotiate_options options config size n).params
unfolding negotiate_options
negotiate_options-InRange [] config size n r = r
negotiate_options-InRange (option ∷ rest) config size n r =
    negotiate_options-InRange rest config size _
      (negotiate_named-InRange (named option.name) option config size n r)

-- Whatever options a request holds, the server's parameters stay in the ranges of the RFCs, if its defaults
-- are.
pub negotiate_server_options-InRange :
    (options : List TftpOption) (config : EngineConfig) (size : Option ℕ)
    (params : NegotiatedParameters)
    → InRange params
    → InRange (negotiate_server_options options config size params).params
unfolding negotiate_server_options
negotiate_server_options-InRange options config size params r =
    branches (λ m. InRange m.params) config.support_option_negotiation _ _
      (negotiate_options-InRange options config size _ r) r
