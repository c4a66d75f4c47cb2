-- ===== src/Engine/Transfer.antt =====
-- The two loops of adapters/reference/tftp_reference_engine.cpp at the two ends of a network that loses,
-- repeats, delays and reorders datagrams, and on which others send too. The network is the list of all that
-- has been sent to an end so far: a datagram of it can arrive at any time and any number of times.
pub mod Delivery
pub mod Channel
use tftp_stress_test.Common.{◌≡◌, List, [], ◌∷◌, ◌++◌, Option, none, some, Bytes, In}
use tftp_stress_test.Packet.{TftpPacket}
use tftp_stress_test.Packet.Parse.{success, parse_tftp_packet}
use tftp_stress_test.Engine.{Reception, TransferOutcome, Step}
use tftp_stress_test.Engine.Receive.Strays.{delivered, FromPeer}
use tftp_stress_test.Engine.Sender.{
  SenderCall, SenderState, sender_head, sender_start, sender_on_reception,
}
use tftp_stress_test.Engine.Receiver.{
  ReceiverCall, ReceiverState, receiver_start, receiver_primed, receiver_on_reception,
}

pub record World : Type 0 where
  pub sender : SenderState
  pub sender_returned : Option TransferOutcome
  pub receiver : ReceiverState
  pub receiver_returned : Option TransferOutcome
  pub to_receiver : List Bytes
  pub to_sender : List Bytes

-- The world after a piece of the sender's loop.
abbrev pub after_sender : SenderCall → World → Step SenderState → World
after_sender sc w step = record w {
  sender = step.state;
  sender_returned = step.returned;
  to_receiver = w.to_receiver ++ delivered sc.peer step.sends;
}

-- The world after a piece of the receiver's loop.
abbrev pub after_receiver : ReceiverCall → World → Step ReceiverState → World
after_receiver rc w step = record w {
  receiver = step.state;
  receiver_returned = step.returned;
  to_sender = w.to_sender ++ delivered rc.peer step.sends;
}

-- The packet that the receiver's caller has received already is one that the sender has sent.
abbrev pub PrimedBy : List Bytes → Option TftpPacket → Type 0
PrimedBy sent none = Unit {0}
PrimedBy sent (some packet) =
    (bytes : Bytes) × In bytes sent × (parse_tftp_packet bytes ≡ success packet)

-- The sender has transmitted its first window, and nothing has been received.
abbrev pub sender_world : SenderCall → World
sender_world sc = record {
  sender = (sender_head sc (sender_start 0)).state;
  sender_returned = (sender_head sc (sender_start 0)).returned;
  receiver = receiver_start 1;
  receiver_returned = none;
  to_receiver = delivered sc.peer (sender_head sc (sender_start 0)).sends;
  to_sender = [];
}

abbrev pub start_world : SenderCall → ReceiverCall → Option TftpPacket → World
start_world sc rc primed =
    after_receiver rc (sender_world sc) (receiver_primed rc (receiver_start 1) primed)

-- One end, if it still runs, receives: a timeout or a failure at any time, anything from others, and from
-- its peer what that has sent.
pub data Move (sc : SenderCall) (rc : ReceiverCall) : World → World → Type 0 where
  sender_receives :
      (w : World) (reception : Reception)
      → w.sender_returned ≡ none
      → FromPeer sc.peer (λ bytes. In bytes w.to_sender) reception
      → Move sc rc w (after_sender sc w (sender_on_reception sc w.sender reception))
  receiver_receives :
      (w : World) (reception : Reception)
      → w.receiver_returned ≡ none
      → FromPeer rc.peer (λ bytes. In bytes w.to_receiver) reception
      → Move sc rc w (after_receiver rc w (receiver_on_reception rc w.receiver reception))

-- The worlds that a transfer can come to.
pub data Reach (sc : SenderCall) (rc : ReceiverCall) : World → Type 0 where
  started :
      (primed : Option TftpPacket)
      → PrimedBy (sender_world sc).to_receiver primed
      → Reach sc rc (start_world sc rc primed)
  moved : (w w' : World) → Reach sc rc w → Move sc rc w w' → Reach sc rc w'
