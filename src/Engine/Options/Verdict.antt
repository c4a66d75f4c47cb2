-- ===== src/Engine/Options/Verdict.antt =====
-- adapters/reference/tftp_reference_engine.cpp: what `apply_oack_to_client` makes of a list of options, by the first one
-- that it cannot apply.
use tftp_stress_test.Common.{
  ℕ, ◌≡◌, refl, ap, ◌∙◌, List, [], ◌∷◌, ◌++◌, none, some, Bytes, stoul, Option-cases, inl, inr, All,
}
use tftp_stress_test.Packet.{TftpOption}
use tftp_stress_test.Engine.{NegotiatedParameters}
use tftp_stress_test.Engine.Options.{
  OptionName, blksize, timeout, tsize, windowsize, named, ClientRequestedOptions, OackResult,
  applied, rejected, thrown, apply_named, and_then, apply_oack_to_client,
}
use tftp_stress_test.Engine.Options.Agree.{Asked, asked_value, apply_oack_to_client-append}

-- A known option that the client has asked for, with a number as its value.
pub record IsAcceptable (requested : ClientRequestedOptions) (option : TftpOption) : Type 0 where
  pub name : OptionName
  pub value : ℕ
  pub known : named option.name ≡ some name
  pub asked : Asked requested (some name)
  pub readable : stoul option.value ≡ some value

-- An option that the client has not asked for, or that it does not know.
abbrev pub IsUnrequested : ClientRequestedOptions → TftpOption → Type 0
IsUnrequested requested option =
    (name : OptionName) → named option.name ≡ some name → asked_value name requested ≡ none

-- An option that the client has asked for, with a value that `std::stoul` does not read.
pub record IsMalformed (requested : ClientRequestedOptions) (option : TftpOption) : Type 0 where
  pub name : OptionName
  pub known : named option.name ≡ some name
  pub asked : Asked requested (some name)
  pub unreadable : stoul option.value ≡ none

apply_named_acceptable :
    (name : OptionName) (value : ℕ) (option : TftpOption) (requested : ClientRequestedOptions)
    (params : NegotiatedParameters)
    → Asked requested (some name)
    → stoul option.value ≡ some value
    → (changed : NegotiatedParameters) × (apply_named (some name) option requested params
        ≡ applied changed)
apply_named_acceptable blksize value option requested params (n, e) read = rw (e, read) (_, refl)
apply_named_acceptable timeout value option requested params (n, e) read = rw (e, read) (_, refl)
apply_named_acceptable tsize value option requested params (n, e) read = rw (e, read) (_, refl)
apply_named_acceptable windowsize value option requested params (n, e) read = rw (e, read) (_, refl)

apply_named_malformed :
    (name : OptionName) (option : TftpOption) (requested : ClientRequestedOptions)
    (params : NegotiatedParameters)
    → Asked requested (some name)
    → stoul option.value ≡ none
    → apply_named (some name) option requested params ≡ thrown
apply_named_malformed blksize option requested params (n, e) bad = rw (e, bad) refl
apply_named_malformed timeout option requested params (n, e) bad = rw (e, bad) refl
apply_named_malformed tsize option requested params (n, e) bad = rw (e, bad) refl
apply_named_malformed windowsize option requested params (n, e) bad = rw (e, bad) refl

apply_named_unrequested :
    (option : TftpOption) (requested : ClientRequestedOptions) (params : NegotiatedParameters)
    → IsUnrequested requested option
    → (reason : Bytes) × (apply_named (named option.name) option requested params ≡ rejected reason)
apply_named_unrequested option requested params h = elim (Option-cases (named option.name)) [
  | inl e ↦ rw e (_, refl)
  | inr (blksize, e) ↦ rw (e, h blksize e) (_, refl)
  | inr (timeout, e) ↦ rw (e, h timeout e) (_, refl)
  | inr (tsize, e) ↦ rw (e, h tsize e) (_, refl)
  | inr (windowsize, e) ↦ rw (e, h windowsize e) (_, refl)
]

-- Options that are all acceptable are applied.
apply_oack_to_client_accepts :
    (options : List TftpOption) (requested : ClientRequestedOptions) (params : NegotiatedParameters)
    → All (IsAcceptable requested) options
    → (changed : NegotiatedParameters) × (apply_oack_to_client options requested params
        ≡ applied changed)
unfolding apply_oack_to_client
apply_oack_to_client_accepts [] requested params h = (params, refl)
apply_oack_to_client_accepts (option ∷ rest) requested params (here, h) =
    let (next, e) =
      apply_named_acceptable here.name here.value option requested params here.asked
        here.readable in
    let (changed, f) = apply_oack_to_client_accepts rest requested next h in
    (
      changed,
      ap
            (λ m.
              and_then (apply_named m option requested params)
                (λ p. apply_oack_to_client rest requested p))
            here.known
          ∙ ap (λ r. and_then r (λ p. apply_oack_to_client rest requested p)) e
          ∙ f,
    )

module _ (front back : List TftpOption) (option : TftpOption) (requested : ClientRequestedOptions)
    (params : NegotiatedParameters) (accepted : All (IsAcceptable requested) front) where
  -- What follows acceptable options decides.
  behind_acceptable :
      (verdict : OackResult)
      → ((p : NegotiatedParameters) → apply_oack_to_client (option ∷ back) requested p ≡ verdict)
      → apply_oack_to_client (front ++ option ∷ back) requested params ≡ verdict
  behind_acceptable verdict h =
      let (changed, e) = apply_oack_to_client_accepts front requested params accepted in
      apply_oack_to_client-append front (option ∷ back) requested params
      ∙ ap (λ r. and_then r (λ p. apply_oack_to_client (option ∷ back) requested p)) e
      ∙ h changed

  pub unrequested-rejected :
      IsUnrequested requested option
      → (reason : Bytes) × (apply_oack_to_client (front ++ option ∷ back) requested params
          ≡ rejected reason)
  unfolding apply_oack_to_client
  unrequested-rejected h =
      let (changed, e) = apply_oack_to_client_accepts front requested params accepted in
      let (reason, f) = apply_named_unrequested option requested changed h in
      (
        reason,
        apply_oack_to_client-append front (option ∷ back) requested params
            ∙ ap (λ r. and_then r (λ p. apply_oack_to_client (option ∷ back) requested p)) e
            ∙ ap (λ r. and_then r (λ p. apply_oack_to_client back requested p)) f,
      )

  pub malformed-thrown :
      IsMalformed requested option
      → apply_oack_to_client (front ++ option ∷ back) requested params ≡ thrown
  unfolding apply_oack_to_client
  malformed-thrown h = behind_acceptable thrown λ p.
      ap
        (λ m.
          and_then (apply_named m option requested p) (λ q. apply_oack_to_client back requested q))
        h.known
      ∙ ap (λ r. and_then r (λ q. apply_oack_to_client back requested q))
          (apply_named_malformed h.name option requested p h.asked h.unreadable)
