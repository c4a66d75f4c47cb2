-- ===== src/Engine.antt =====
-- adapters/reference/tftp_reference_engine.hpp: the data of the reference engine. The socket is the
-- environment: what a blocking receive returns is a `Reception`, what the engine hands to the socket
-- is a list of `Datagram`, and a loop of the engine is a step from one receive to the next.
pub mod Blocks
pub mod Resolve
pub mod Receive
pub mod Sender
pub mod Receiver
pub mod Transfer
pub mod Options
pub mod Client
pub mod Server
mod Runs
mod LoopRuns
mod PartyRuns
mod CompletionRuns
use tftp_stress_test.Common.{
  ℕ, ◌≡◌, refl, Bool, true, false, List, [], ◌∷◌, ◌++◌, Option, none, some, Bytes, ◌&&◌, ◌==◌,
}

-- src/net/endpoint.cpp: an address with a port, as far as `operator==` looks at it.
pub data Endpoint : Type 0 where
  unbound : Endpoint
  ipv4 ipv6 : ℕ → ℕ → Endpoint

-- `Endpoint::operator==`: two unbound endpoints differ.
unfoldable pub endpoint_eq : Endpoint → Endpoint → Bool
endpoint_eq (ipv4 a p) (ipv4 b q) = (p == q) && (a == b)
endpoint_eq (ipv6 a p) (ipv6 b q) = (p == q) && (a == b)
endpoint_eq _ _ = false

pub record Datagram : Type 0 where
  pub destination : Endpoint
  pub bytes : Bytes

-- `UdpSocket::receive_from`: the receive timeout passed, the call failed, or a datagram came.
pub data Reception : Type 0 where
  no_datagram receive_failed : Reception
  datagram_from : Endpoint → Bytes → Reception

pub record EngineQuirks : Type 0 where
  pub retransmit_on_duplicate_ack : Bool
  pub omit_terminating_empty_block : Bool
  pub accept_out_of_sequence_data : Bool

pub record EngineConfig : Type 0 where
  pub default_block_size : ℕ
  pub maximum_retransmissions : ℕ
  pub reject_overwrite_on_write_request : Bool
  pub support_option_negotiation : Bool
  pub support_block_size_option : Bool
  pub support_timeout_option : Bool
  pub support_transfer_size_option : Bool
  pub support_window_size_option : Bool
  pub support_netascii : Bool
  pub quirks : EngineQuirks

pub record NegotiatedParameters : Type 0 where
  pub block_size : ℕ
  pub window_size : ℕ
  pub timeout_seconds : Option ℕ
  pub transfer_size : Option ℕ

pub record TransferOutcome : Type 0 where
  pub completed_successfully : Bool
  pub error_code : Option ℕ
  pub error_message : Bytes
  pub negotiated : NegotiatedParameters
  pub bytes_transferred : ℕ
  pub data_packets_sent : ℕ
  pub data_packets_received : ℕ
  pub retransmissions : ℕ
  pub timed_out : Bool

-- `TransferOutcome outcome; outcome.negotiated = params;`
abbrev pub outcome_of : NegotiatedParameters → TransferOutcome
outcome_of params = record {
  completed_successfully = false;
  error_code = none;
  error_message = [];
  negotiated = params;
  bytes_transferred = 0;
  data_packets_sent = 0;
  data_packets_received = 0;
  retransmissions = 0;
  timed_out = false;
}

-- The defaults of `EngineConfig`.
abbrev pub no_quirks : EngineQuirks
no_quirks = record {
  retransmit_on_duplicate_ack = false;
  omit_terminating_empty_block = false;
  accept_out_of_sequence_data = false;
}

abbrev pub default_config : EngineConfig
default_config = record {
  default_block_size = 512;
  maximum_retransmissions = 6;
  reject_overwrite_on_write_request = true;
  support_option_negotiation = true;
  support_block_size_option = true;
  support_timeout_option = true;
  support_transfer_size_option = true;
  support_window_size_option = true;
  support_netascii = true;
  quirks = no_quirks;
}

-- A piece of a loop of the engine: what it sends, the variables of the loop when it next blocks in a
-- receive, and the outcome if it has returned instead.
pub record Step (S : Type 0) : Type 0 where
  pub sends : List Datagram
  pub state : S
  pub returned : Option TransferOutcome

-- The loop over a sequence of receptions, up to its return or to the end of the sequence.
unfoldable pub run_steps :
    {S : Type 0} → (S → Reception → Step S) → Step S → List Reception → Step S
run_steps on step [] = step
run_steps on step (reception ∷ rest) = elim step.returned [
  | some outcome ↦ step
  | none ↦
      let next = on step.state reception in
      run_steps on (record next { sends = step.sends ++ next.sends }) rest
]
