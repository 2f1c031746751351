-- ===== src/Tests/Core.antt =====
-- The theorems on bridges.
use hackline.Prelude.{
  ℕ, ◌≡◌, refl, Bool, true, false, List, [], ◌∷◌, ◌++◌, Option, none, some, length,
}
use Prim.Native.Nat.{zero, suc, ◌%◌}
use hackline.Prelude.Text.{Text, lit, text_eq}
use hackline.Prelude.Outcome.{Result, ok}
use hackline.Proto.Keyexpr.{decimal, connect, stream_gw, stream_dev}
use hackline.Core.Pipe.{
  Bytes, chunk, eof, on_read, on_sample, Pipe, reads, writes, Reach, here, next, opened,
}
use hackline.Core.Pipe.Delivered.{Reach-Begins, Reach-Ended}
use hackline.Core.Pipe.Lost.{opened-loses}
use hackline.Core.Bridge.{
  BridgeBytes, ConnectRequest, ConnectAck, BridgeError, Action, Session, get, reply,
  declare_publisher, declare_subscriber, accept_bridge, accept_request, run_bridge,
  initiate_bridge_io_with_id, on_answer,
}
use hackline.Core.Bridge.Paired.{answer_of, accepted, initiated, bridged-Paired}
use hackline.Tests.Data.{zid, two_ids}

-- Two bytes were read, then the end; the two bytes were written.
abbrev at_end : Bytes → Bool → List Bytes → Bytes → ℕ → Pipe
at_end read reading queue written down = record {
  sender = record { up = 2; running = reading };
  read = read;
  subscribed = true;
  queue = queue;
  receiver = record { down = down; written = written; running = true };
}

abbrev hi : Bytes
hi = 104 ∷ 105 ∷ []

to_end : Reach (opened true) (at_end hi false ([] ∷ []) hi 2)
unfolding on_read on_sample
to_end =
    next
      (next (next here (reads (opened true) (chunk 104 (105 ∷ [])) true refl))
        (reads (at_end hi true (hi ∷ []) [] 0) eof true refl))
      (writes (at_end hi false (hi ∷ [] ∷ []) [] 0) hi ([] ∷ []) true refl refl)

Reach-Begins_example :
    ((left : Bytes) × (◌≡◌ {A = Bytes} hi (hi ++ left)))
    × (◌≡◌ {A = ℕ} 2 (length hi % 18446744073709551616))
Reach-Begins_example = Reach-Begins (at_end hi false ([] ∷ []) hi 2) to_end

Reach-Ended_example :
    (◌≡◌ {A = List Bytes} [] []) × (◌≡◌ {A = Bytes} hi hi) × (◌≡◌ {A = ℕ} 2 2) × (false ≡ false)
Reach-Ended_example = Reach-Ended (at_end hi false ([] ∷ []) hi 2) [] to_end refl refl

opened-loses_example :
    (p : Pipe) × Reach (opened false) p
    × (p.read ≡ hi)
    × (p.receiver.written ≡ [])
    × (p.queue ≡ [])
    × (p.sender.running ≡ false)
    × (p.receiver.running ≡ false)
opened-loses_example = opened-loses 104 (105 ∷ [])

abbrev bit : Bool → ℕ
bit true = 1
bit false = 0

abbrev of_bit : ℕ → Bool
of_bit zero = false
of_bit (suc _) = true

abbrev put_text : Option Text → Bytes
put_text none = []
put_text (some t) = 1 ∷ t

abbrev take_text : Bytes → Option Text
take_text [] = none
take_text (_ ∷ t) = some t

abbrev write_request : ConnectRequest two_ids → Bytes
write_request r = bit r.request_id ∷ put_text r.peer

abbrev read_request : Bytes → Option (ConnectRequest two_ids)
read_request [] = none
read_request (i ∷ t) = some (record { request_id = of_bit i; peer = take_text t })

abbrev write_ack : ConnectAck two_ids → Bytes
write_ack a = bit a.request_id ∷ bit a.ok ∷ put_text a.message

abbrev read_ack : Bytes → Option (ConnectAck two_ids)
read_ack [] = none
read_ack (_ ∷ []) = none
read_ack (i ∷ k ∷ t) = some (record { request_id = of_bit i; ok = of_bit k; message = take_text t })

of_bit-bit : (b : Bool) → of_bit (bit b) ≡ b
of_bit-bit true = refl
of_bit-bit false = refl

take_text-put_text : (t : Option Text) → take_text (put_text t) ≡ t
take_text-put_text none = refl
take_text-put_text (some t) = refl

reads_request : (r : ConnectRequest two_ids) → read_request (write_request r) ≡ some r
reads_request r = rw (of_bit-bit r.request_id, take_text-put_text r.peer) refl

reads_ack : (a : ConnectAck two_ids) → read_ack (write_ack a) ≡ some a
reads_ack a = rw (of_bit-bit a.request_id, of_bit-bit a.ok, take_text-put_text a.message) refl

abbrev takes_all : Session
takes_all = record {
  takes_get = true;
  takes_reply = true;
  takes_publisher = true;
  takes_subscriber = true;
  pumped = record { up = 2; down = 0 };
}

abbrev dials : ℕ → Result Text (Unit {0})
dials _ = ok tt

abbrev gateway_end : List (Action two_ids) × Result BridgeError (Bool × BridgeBytes)
gateway_end =
    initiated two_ids write_request read_request write_ack read_ack reads_request reads_ack
      takes_all takes_all dials (lit "acme") zid 80 true none

bridged : gateway_end.1 ≡ ok (true, takes_all.pumped)
unfolding accept_bridge accept_request run_bridge answer_of initiate_bridge_io_with_id on_answer
    text_eq connect decimal
bridged = refl

bridged-Paired_example :
    (◌≡◌ {A = Bool} true true)
    × (takes_all.pumped ≡ takes_all.pumped)
    × (dials 80 ≡ ok tt)
    × (true ≡ true)
    × (gateway_end.0
        ≡ get (connect (lit "acme") zid 80) (record { request_id = true; peer = none })
          ∷ declare_publisher (stream_gw two_ids (lit "acme") zid true)
          ∷ declare_subscriber (stream_dev two_ids (lit "acme") zid true)
          ∷ [])
    × ((accepted two_ids write_request read_request write_ack read_ack reads_request reads_ack
          takes_all takes_all dials
          (lit "acme")
          zid
          80
          true
          none).0
        ≡ reply
            (connect (lit "acme") zid 80)
            (record { request_id = true; ok = true; message = none })
          ∷ (run_bridge two_ids takes_all
              (stream_gw two_ids (lit "acme") zid true)
              (stream_dev two_ids (lit "acme") zid true)).0)
bridged-Paired_example =
    bridged-Paired two_ids write_request read_request write_ack read_ack reads_request reads_ack
      takes_all takes_all dials (lit "acme") zid 80 true none true takes_all.pumped bridged
