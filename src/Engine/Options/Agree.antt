-- ===== src/Engine/Options/Agree.antt =====
-- adapters/reference/tftp_reference_engine.cpp: the client that applies the server's OACK comes out with the
-- server's parameters.
use tftp_stress_test.Common.{
  ℕ, ◌%◌, ◌^◌, ◌<◌, min, ◌≡◌, refl, ap, ◌∙◌, Bool, true, false, ◌||◌, List, [], ◌∷◌, ◌++◌, Option,
  none, some, arith, ltb, stoul, stoul-to_string, stoul_bound, Bool-cases, inl, inr, All,
  All-append,
}
use mathlib.Core.Path.{fun_ext}
use tftp_stress_test.Packet.{TftpOption}
use tftp_stress_test.Engine.{EngineConfig, NegotiatedParameters}
use tftp_stress_test.Engine.Options.{
  OptionName, blksize, timeout, tsize, windowsize, name_text, named, clamp_block_size,
  ClientRequestedOptions, option_entry, requested_entry, build_requested_option_list, OackResult,
  applied, rejected, thrown, apply_named, and_then, apply_oack_to_client, Negotiation, grants,
  negotiate_block_size, negotiate_timeout, negotiate_transfer_size, negotiate_window_size,
  negotiate_named, negotiate_options, negotiate_server_options,
}
use tftp_stress_test.Engine.Options.Laws.{named-name_text, branches}

-- The field of the request that an option stands for.
abbrev pub asked_value : OptionName → ClientRequestedOptions → Option ℕ
asked_value blksize requested = requested.block_size
asked_value timeout requested = requested.timeout_seconds
asked_value tsize requested = requested.transfer_size
asked_value windowsize requested = requested.window_size

-- The client has asked for the option.
abbrev pub Asked : ClientRequestedOptions → Option OptionName → Type 0
Asked requested none = Unit {0}
Asked requested (some name) = (n : ℕ) × (asked_value name requested ≡ some n)

-- The parameter of an option, with a value in its field.
abbrev put : OptionName → ℕ → NegotiatedParameters → NegotiatedParameters
put blksize n params = record params { block_size = n }
put timeout n params = record params { timeout_seconds = some n }
put tsize n params = record params { transfer_size = some n }
put windowsize n params = record params { window_size = n }

-- The bits of the parameter.
abbrev capacity : OptionName → ℕ
capacity blksize = 2 ^ 32
capacity timeout = 2 ^ 32
capacity tsize = 2 ^ 64
capacity windowsize = 2 ^ 16

-- An option of which the client has asked and that reads as `value` sets the parameter to it.
apply_named_value :
    (name : OptionName) (value : ℕ) (option : TftpOption) (requested : ClientRequestedOptions)
    (params : NegotiatedParameters)
    → Asked requested (some name)
    → stoul option.value ≡ some value
    → value < capacity name
    → apply_named (some name) option requested params ≡ applied (put name value params)
apply_named_value blksize value option requested params (n, e) read fits =
    let m : value % 2 ^ 32 ≡ value = omega arith in rw (e, read, m)
apply_named_value timeout value option requested params (n, e) read fits =
    let m : value % 2 ^ 32 ≡ value = omega arith in rw (e, read, m)
apply_named_value tsize value option requested params (n, e) read fits = rw (e, read)
apply_named_value windowsize value option requested params (n, e) read fits =
    let m : value % 2 ^ 16 ≡ value = omega arith in rw (e, read, m)

and_then_assoc :
    (r : OackResult) (f g : NegotiatedParameters → OackResult)
    → and_then r (λ p. and_then (f p) g) ≡ and_then (and_then r f) g
and_then_assoc (applied p) f g = refl
and_then_assoc (rejected reason) f g = refl
and_then_assoc thrown f g = refl

and_then_applied : (r : OackResult) → and_then r (λ p. applied p) ≡ r
and_then_applied (applied p) = refl
and_then_applied (rejected reason) = refl
and_then_applied thrown = refl

pub apply_oack_to_client-append :
    (front back : List TftpOption) (requested : ClientRequestedOptions)
    (params : NegotiatedParameters)
    → apply_oack_to_client (front ++ back) requested params
      ≡ and_then
          (apply_oack_to_client front requested params)
          (λ p. apply_oack_to_client back requested p)
unfolding apply_oack_to_client
apply_oack_to_client-append [] back requested params = refl
apply_oack_to_client-append (option ∷ front) back requested params =
    let r = apply_named (named option.name) option requested params in
    ap (λ f. and_then r f) (fun_ext (λ p. apply_oack_to_client-append front back requested p))
    ∙ and_then_assoc r (λ p. apply_oack_to_client front requested p)
        (λ p. apply_oack_to_client back requested p)

-- A size that the server reports fits 64 bits.
abbrev pub FitsSize : Option ℕ → Type 0
FitsSize none = Unit {0}
FitsSize (some n) = n < 2 ^ 64

module _ (requested : ClientRequestedOptions) (base : NegotiatedParameters) where
  -- The client that applies the OACK so far has the server's parameters so far.
  Agrees : Negotiation → Type 0
  Agrees n = apply_oack_to_client n.oack_options requested base ≡ applied n.params

  -- An entry that the server adds, and the client reads.
  grants-Agrees :
      (name : OptionName) (value : ℕ) (option : TftpOption) (n : Negotiation)
      → Asked requested (some name)
      → option.name ≡ name_text name
      → stoul option.value ≡ some value
      → value < capacity name
      → Agrees n
      → Agrees (record {
        oack_options = n.oack_options ++ option ∷ [];
        params = put name value n.params;
      })
  unfolding apply_oack_to_client Agrees
  grants-Agrees name value option n asked spelled read fits h =
      apply_oack_to_client-append n.oack_options (option ∷ []) requested base
      ∙ ap (λ r. and_then r (λ p. apply_oack_to_client (option ∷ []) requested p)) h
      ∙ and_then_applied _
      ∙ ap (λ m. apply_named m option requested n.params) (ap named spelled ∙ named-name_text name)
      ∙ apply_named_value name value option requested n.params asked read fits

  entry-Agrees :
      (name : OptionName) (value : ℕ) (n : Negotiation)
      → Asked requested (some name)
      → value < capacity name
      → value < 2 ^ 64
      → Agrees n
      → Agrees (grants n name value (put name value n.params))
  entry-Agrees name value n asked fits small h =
      grants-Agrees name value (option_entry name value) n asked refl (stoul-to_string value small)
        fits h

  negotiate_block_size-Agrees :
      (value : Option ℕ) (n : Negotiation)
      → Asked requested (some blksize)
      → Agrees n
      → Agrees (negotiate_block_size value n)
  unfolding clamp_block_size
  negotiate_block_size-Agrees none n asked h = h
  negotiate_block_size-Agrees (some value) n asked h =
      entry-Agrees blksize _ n asked (omega arith) (omega arith) h

  negotiate_timeout-Agrees :
      (value : Option ℕ) (n : Negotiation)
      → Asked requested (some timeout)
      → Agrees n
      → Agrees (negotiate_timeout value n)
  negotiate_timeout-Agrees none n asked h = h
  negotiate_timeout-Agrees (some value) n asked h =
      branches Agrees (ltb (value % 2 ^ 32) 1 || ltb 255 (value % 2 ^ 32)) _ _ h
        (entry-Agrees timeout (value % 2 ^ 32) n asked (omega arith) (omega arith) h)

  negotiate_window_size-Agrees :
      (value : Option ℕ) (n : Negotiation)
      → Asked requested (some windowsize)
      → Agrees n
      → Agrees (negotiate_window_size value n)
  negotiate_window_size-Agrees none n asked h = h
  negotiate_window_size-Agrees (some value) n asked h =
      branches Agrees (ltb (value % 2 ^ 32) 1) _ _ h
        (entry-Agrees windowsize (min (value % 2 ^ 32) 65535) n asked (omega arith) (omega arith) h)

  negotiate_transfer_size-Agrees :
      (size : Option ℕ) (option : TftpOption) (value : Option ℕ) (n : Negotiation)
      → FitsSize size
      → stoul option.value ≡ value
      → Asked requested (some tsize)
      → Agrees n
      → Agrees (negotiate_transfer_size size option.value value n)
  negotiate_transfer_size-Agrees (some size) option value n fits read asked h =
      entry-Agrees tsize size n asked fits fits h
  negotiate_transfer_size-Agrees none option none n fits read asked h = h
  negotiate_transfer_size-Agrees none option (some size) n fits read asked h =
      grants-Agrees tsize size (record { name = name_text tsize; value = option.value }) n asked
        refl read (stoul_bound option.value size read) h

  negotiate_named-Agrees :
      (name : Option OptionName) (option : TftpOption) (config : EngineConfig) (size : Option ℕ)
      (n : Negotiation)
      → FitsSize size
      → Asked requested name
      → Agrees n
      → Agrees (negotiate_named name option config size n)
  negotiate_named-Agrees none option config size n fits asked h = h
  negotiate_named-Agrees (some blksize) option config size n fits asked h =
      branches Agrees config.support_block_size_option _ _
        (negotiate_block_size-Agrees (stoul option.value) n asked h) h
  negotiate_named-Agrees (some timeout) option config size n fits asked h =
      branches Agrees config.support_timeout_option _ _
        (negotiate_timeout-Agrees (stoul option.value) n asked h) h
  negotiate_named-Agrees (some tsize) option config size n fits asked h =
      branches Agrees config.support_transfer_size_option _ _
        (negotiate_transfer_size-Agrees size option (stoul option.value) n fits refl asked h) h
  negotiate_named-Agrees (some windowsize) option config size n fits asked h =
      branches Agrees config.support_window_size_option _ _
        (negotiate_window_size-Agrees (stoul option.value) n asked h) h

  negotiate_options-Agrees :
      (options : List TftpOption) (config : EngineConfig) (size : Option ℕ) (n : Negotiation)
      → FitsSize size
      → All (λ option. Asked requested (named option.name)) options
      → Agrees n
      → Agrees (negotiate_options options config size n)
  unfolding negotiate_options
  negotiate_options-Agrees [] config size n fits asked h = h
  negotiate_options-Agrees (option ∷ rest) config size n fits (here, asked) h =
      negotiate_options-Agrees rest config size _ fits asked
        (negotiate_named-Agrees (named option.name) option config size n fits here h)

  start-Agrees : Agrees (record { oack_options = []; params = base })
  unfolding Agrees apply_oack_to_client
  start-Agrees = refl

  -- If the client has asked for every known option of the request, then the OACK that the server answers
  -- with is accepted by the client, without a rejection and without an exception, and leaves it with the
  -- server's parameters, where both start from the same ones and the file's size fits 64 bits.
  pub negotiation_agrees :
      (options : List TftpOption) (config : EngineConfig) (size : Option ℕ)
      → FitsSize size
      → All (λ option. Asked requested (named option.name)) options
      → apply_oack_to_client
          (negotiate_server_options options config size base).oack_options
          requested
          base
        ≡ applied (negotiate_server_options options config size base).params
  unfolding negotiate_server_options Agrees
  negotiation_agrees options config size fits asked =
      branches Agrees config.support_option_negotiation _ _
        (negotiate_options-Agrees options config size _ fits asked start-Agrees) start-Agrees

-- Every option that the client lists is one that it has asked for.
requested_entry-Asked :
    (name : OptionName) (requested : ClientRequestedOptions) (value : Option ℕ) (supported : Bool)
    → asked_value name requested ≡ value
    → All (λ option. Asked requested (named option.name)) (requested_entry name value supported)
requested_entry-Asked name requested none supported e = tt
requested_entry-Asked name requested (some n) false e = tt
requested_entry-Asked name requested (some n) true e = (rw (named-name_text name) (n, e), tt)

build_requested_option_list-Asked :
    (requested : ClientRequestedOptions) (config : EngineConfig)
    → All
        (λ option. Asked requested (named option.name))
        (build_requested_option_list requested config)
unfolding build_requested_option_list
build_requested_option_list-Asked requested config =
    elim (Bool-cases config.support_option_negotiation) [
      | inl e ↦ simp e (
          All-append _ _ _
            (All-append _ _ _
              (All-append _ _ _
                (requested_entry-Asked blksize requested requested.block_size
                  config.support_block_size_option refl)
                (requested_entry-Asked timeout requested requested.timeout_seconds
                  config.support_timeout_option refl))
              (requested_entry-Asked tsize requested requested.transfer_size
                config.support_transfer_size_option refl))
            (requested_entry-Asked windowsize requested requested.window_size
              config.support_window_size_option refl))
      | inr e ↦ simp e tt
    ]

-- The request that a client builds is negotiated to the same parameters at both ends, whatever either of
-- them supports and asks for, if both start from the same parameters and the size that the server reports
-- fits 64 bits: the client applies the server's OACK without a rejection or an exception, and has the
-- server's parameters.
pub client_server_agree :
    (requested : ClientRequestedOptions) (client server : EngineConfig) (size : Option ℕ)
    (base : NegotiatedParameters)
    → FitsSize size
    → apply_oack_to_client
        (negotiate_server_options
          (build_requested_option_list requested client)
          server
          size
          base).oack_options
        requested
        base
      ≡ applied
          (negotiate_server_options
            (build_requested_option_list requested client)
            server
            size
            base).params
client_server_agree requested client server size base fits =
    negotiation_agrees requested base (build_requested_option_list requested client) server size
      fits (build_requested_option_list-Asked requested client)
