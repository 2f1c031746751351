-- ===== src/Core/Pipe.antt =====
-- `run_bridge` of crates/hackline-core/src/bridge.rs: the loop that publishes what it reads from a
-- TCP stream, the loop that writes what it receives to one, and the two as one direction of a
-- bridge: the reading loop of one end, the network, and the writing loop of the other end.
pub mod Delivered
pub mod Lost
use hackline.Prelude.{ℕ, ◌+◌, ◌≡◌, Bool, true, false, List, [], ◌∷◌, ◌++◌, length, if◌then◌else◌}
use Prim.Native.Nat.{◌%◌}

abbrev pub Bytes : Type 0
Bytes = List ℕ

-- What a read gives. `Ok(0)` is the end, so the bytes of a chunk are a first one and others.
pub data Read : Type 0 where
  chunk : ℕ → Bytes → Read
  eof failed : Read

abbrev pub add_u64 : ℕ → ℕ → ℕ
add_u64 a b = (a + b) % 18446744073709551616

-- The state of `tcp_to_zenoh`: the counter, and whether the loop goes on.
pub record Sender : Type 0 where
  pub up : ℕ
  pub running : Bool

-- The state of `zenoh_to_tcp`, with what was written to the stream.
pub record Receiver : Type 0 where
  pub down : ℕ
  pub written : Bytes
  pub running : Bool

-- A sample that the session takes reaches the network.
abbrev published : Bool → Bytes → List Bytes
published true bytes = bytes ∷ []
published false bytes = []

-- One round of `tcp_to_zenoh`; `put` says whether the session takes what is put. An empty sample is
-- the sign of the end.
unfoldable pub on_read : Sender → Read → Bool → Sender × List Bytes
on_read s (chunk b bs) put =
    (record s { up = add_u64 s.up (length (b ∷ bs)); running = put }, published put (b ∷ bs))
on_read s eof put = (record s { running = false }, published put [])
on_read s failed put = (record s { running = false }, published put [])

-- One round of `zenoh_to_tcp`; `wrote` says whether `write_all` succeeds.
unfoldable pub on_sample : Receiver → Bytes → Bool → Receiver
on_sample r [] wrote = record r { running = false }
on_sample r (b ∷ bs) wrote =
    let counted = add_u64 r.down (length (b ∷ bs)) in
    if wrote
    then record r { down = counted; written = r.written ++ b ∷ bs }
    else record r { down = counted; running = false }

-- One direction of a bridge. The network keeps the order of samples, and drops a sample for which
-- there is no subscriber; `read` is all that was read so far.
pub record Pipe : Type 0 where
  pub sender : Sender
  pub read : Bytes
  pub subscribed : Bool
  pub queue : List Bytes
  pub receiver : Receiver

abbrev bytes_of : Read → Bytes
bytes_of (chunk b bs) = b ∷ bs
bytes_of eof = []
bytes_of failed = []

abbrev carried : Bool → List Bytes → List Bytes → List Bytes
carried true queue samples = queue ++ samples
carried false queue samples = queue

-- The moves of the two tasks and of the network, in any order.
pub data Step : Pipe → Pipe → Type 0 where
  subscribe : (p : Pipe) → Step p (record p { subscribed = true })
  reads :
      (p : Pipe) (r : Read) (put : Bool)
      → p.sender.running ≡ true
      → Step p (record p {
        sender = (on_read p.sender r put).0;
        read = p.read ++ bytes_of r;
        queue = carried p.subscribed p.queue (on_read p.sender r put).1;
      })
  writes :
      (p : Pipe) (sample : Bytes) (rest : List Bytes) (wrote : Bool)
      → p.receiver.running ≡ true
      → p.queue ≡ sample ∷ rest
      → Step p (record p { queue = rest; receiver = on_sample p.receiver sample wrote })

pub data Reach (p : Pipe) : Pipe → Type 0 where
  here : Reach p p
  next : {q r : Pipe} → Reach p q → Step q r → Reach p r

-- Both ends as they start, with the receiver's subscription declared or not.
abbrev pub opened : Bool → Pipe
opened subscribed = record {
  sender = record { up = 0; running = true };
  read = [];
  subscribed = subscribed;
  queue = [];
  receiver = record { down = 0; written = []; running = true };
}
