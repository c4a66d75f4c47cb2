-- ===== src/Engine/Options.antt =====
-- adapters/reference/tftp_reference_engine.cpp: option negotiation of the client and of the server.
pub mod Laws
pub mod Agree
pub mod Verdict
use tftp_stress_test.Common.{
  ℕ, ◌+◌, ◌%◌, ◌^◌, min, max, ◌≡◌, refl, Bool, true, false, ◌&&◌, ◌||◌, List, [], ◌∷◌, ◌++◌, Option,
  none, some, Bytes, text, ltb, ◌==◌, if◌then◌else◌, to_string, stoul,
}
use tftp_stress_test.Packet.{TftpOption, TftpPacket}
use tftp_stress_test.Packet.Compare.{equals_ignore_ascii_case}
use tftp_stress_test.Engine.{EngineConfig, NegotiatedParameters}

-- The names of RFC 2348, 2349 and 7440.
pub data OptionName : Type 0 where
  blksize timeout tsize windowsize : OptionName

abbrev pub name_text : OptionName → Bytes
name_text blksize = text "blksize"
name_text timeout = text "timeout"
name_text tsize = text "tsize"
name_text windowsize = text "windowsize"

-- The chain of comparisons of both negotiations.
unfoldable pub named : Bytes → Option OptionName
named name =
    if equals_ignore_ascii_case name (name_text blksize)
    then some blksize
    else if equals_ignore_ascii_case name (name_text timeout)
    then some timeout
    else if equals_ignore_ascii_case name (name_text tsize)
    then some tsize
    else if equals_ignore_ascii_case name (name_text windowsize)
    then some windowsize
    else none

unfoldable pub clamp_block_size : ℕ → ℕ
clamp_block_size requested = min (max requested 8) 65464

pub record ClientRequestedOptions : Type 0 where
  pub block_size : Option ℕ
  pub timeout_seconds : Option ℕ
  pub transfer_size : Option ℕ
  pub window_size : Option ℕ

abbrev pub option_entry : OptionName → ℕ → TftpOption
option_entry name n = record { name = name_text name; value = to_string n }

-- One `if` of `build_requested_option_list`.
abbrev pub requested_entry : OptionName → Option ℕ → Bool → List TftpOption
requested_entry name (some n) true = option_entry name n ∷ []
requested_entry name _ _ = []

unfoldable pub build_requested_option_list : ClientRequestedOptions → EngineConfig → List TftpOption
build_requested_option_list options config =
    if config.support_option_negotiation
    then requested_entry blksize options.block_size config.support_block_size_option
      ++ requested_entry timeout options.timeout_seconds config.support_timeout_option
      ++ requested_entry tsize options.transfer_size config.support_transfer_size_option
      ++ requested_entry windowsize options.window_size config.support_window_size_option
    else []

-- `apply_oack_to_client` returns true with the parameters, or false with the reason, or `std::stoul` throws
-- through it.
pub data OackResult : Type 0 where
  applied : NegotiatedParameters → OackResult
  rejected : Bytes → OackResult
  thrown : OackResult

-- The client did not request the option, or its value is stored.
abbrev pub store : Option ℕ → Bytes → Option ℕ → (ℕ → NegotiatedParameters) → OackResult
store none reason value set = rejected reason
store (some asked) reason none set = thrown
store (some asked) reason (some n) set = applied (set n)

-- The body of the loop of `apply_oack_to_client`.
abbrev pub apply_named :
    Option OptionName → TftpOption → ClientRequestedOptions → NegotiatedParameters → OackResult
apply_named (some blksize) option requested params =
    store requested.block_size (text "server OACKed unrequested blksize") (stoul option.value)
      (λ n. record params { block_size = n % 2 ^ 32 })
apply_named (some timeout) option requested params =
    store requested.timeout_seconds (text "server OACKed unrequested timeout") (stoul option.value)
      (λ n. record params { timeout_seconds = some (n % 2 ^ 32) })
apply_named (some tsize) option requested params =
    store requested.transfer_size (text "server OACKed unrequested tsize") (stoul option.value)
      (λ n. record params { transfer_size = some n })
apply_named (some windowsize) option requested params =
    store requested.window_size (text "server OACKed unrequested windowsize") (stoul option.value)
      (λ n. record params { window_size = n % 2 ^ 16 })
apply_named none option requested params =
    rejected (text "server OACKed unknown option " ++ option.name)

-- The loop goes on only where the body has neither returned nor thrown.
abbrev pub and_then : OackResult → (NegotiatedParameters → OackResult) → OackResult
and_then (applied params) next = next params
and_then (rejected reason) next = rejected reason
and_then thrown next = thrown

unfoldable pub apply_oack_to_client :
    List TftpOption → ClientRequestedOptions → NegotiatedParameters → OackResult
apply_oack_to_client [] requested params = applied params
apply_oack_to_client (option ∷ rest) requested params =
    and_then (apply_named (named option.name) option requested params)
      (λ changed. apply_oack_to_client rest requested changed)

-- The loop variables of `negotiate_server_options`.
pub record Negotiation : Type 0 where
  pub oack_options : List TftpOption
  pub params : NegotiatedParameters

abbrev pub grants : Negotiation → OptionName → ℕ → NegotiatedParameters → Negotiation
grants n name value params = record {
  oack_options = n.oack_options ++ option_entry name value ∷ [];
  params = params;
}

abbrev pub negotiate_block_size : Option ℕ → Negotiation → Negotiation
negotiate_block_size none n = n
negotiate_block_size (some value) n =
    let accepted = clamp_block_size (value % 2 ^ 32) in
    grants n blksize accepted (record n.params { block_size = accepted })

abbrev pub negotiate_timeout : Option ℕ → Negotiation → Negotiation
negotiate_timeout none n = n
negotiate_timeout (some value) n =
    let requested = value % 2 ^ 32 in
    if ltb requested 1 || ltb 255 requested
    then n
    else grants n timeout requested (record n.params { timeout_seconds = some requested })

abbrev pub negotiate_transfer_size : Option ℕ → Bytes → Option ℕ → Negotiation → Negotiation
negotiate_transfer_size (some size) text_value value n =
    grants n tsize size (record n.params { transfer_size = some size })
negotiate_transfer_size none text_value none n = n
negotiate_transfer_size none text_value (some size) n = record {
  oack_options = n.oack_options ++ record { name = name_text tsize; value = text_value } ∷ [];
  params = record n.params { transfer_size = some size };
}

abbrev pub negotiate_window_size : Option ℕ → Negotiation → Negotiation
negotiate_window_size none n = n
negotiate_window_size (some value) n =
    let requested = value % 2 ^ 32 in
    if ltb requested 1
    then n
    else (let accepted = min requested 65535 in
        grants n windowsize accepted (record n.params { window_size = accepted }))

-- The body of the loop of `negotiate_server_options`; an option that the server does not support falls
-- through the chain to its end, since no two of the names are equal.
abbrev pub negotiate_named :
    Option OptionName → TftpOption → EngineConfig → Option ℕ → Negotiation → Negotiation
negotiate_named (some blksize) option config size n =
    if config.support_block_size_option then negotiate_block_size (stoul option.value) n else n
negotiate_named (some timeout) option config size n =
    if config.support_timeout_option then negotiate_timeout (stoul option.value) n else n
negotiate_named (some tsize) option config size n =
    if config.support_transfer_size_option
    then negotiate_transfer_size size option.value (stoul option.value) n
    else n
negotiate_named (some windowsize) option config size n =
    if config.support_window_size_option then negotiate_window_size (stoul option.value) n else n
negotiate_named none option config size n = n

unfoldable pub negotiate_options :
    List TftpOption → EngineConfig → Option ℕ → Negotiation → Negotiation
negotiate_options [] config size n = n
negotiate_options (option ∷ rest) config size n =
    negotiate_options rest config size (negotiate_named (named option.name) option config size n)

unfoldable pub negotiate_server_options :
    List TftpOption → EngineConfig → Option ℕ → NegotiatedParameters → Negotiation
unfolding negotiate_options
negotiate_server_options options config size params =
    if config.support_option_negotiation
    then negotiate_options options config size (record { oack_options = []; params = params })
    else record { oack_options = []; params = params }
