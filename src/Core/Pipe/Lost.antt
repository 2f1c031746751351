-- ===== src/Core/Pipe/Lost.antt =====
-- What a bridge loses when it starts before its receiving end has subscribed.
use hackline.Prelude.{ℕ, ◌≡◌, refl, Bool, true, false, List, [], ◌∷◌, ◌++◌, length}
use mathlib.Core.List.{append-nil}
use hackline.Core.Pipe.{
  Bytes, chunk, eof, add_u64, on_read, on_sample, Pipe, subscribe, reads, writes, Reach, here, next,
  opened,
}

-- The states of such a run after the first read: this end has the chunk, the other has nothing.
abbrev after : Bytes → Bytes → Bool → Bool → List Bytes → Bool → Pipe
after c read reading subscribed queue writing = record {
  sender = record { up = add_u64 0 (length c); running = reading };
  read = read;
  subscribed = subscribed;
  queue = queue;
  receiver = record { down = 0; written = []; running = writing };
}

run_to_end :
    (b : ℕ) (bs : Bytes) → Reach (opened false) (after (b ∷ bs) (b ∷ bs ++ []) false true [] false)
unfolding on_read on_sample
run_to_end b bs =
    let c = b ∷ bs in
    next
      (next
        (next (next here (reads (opened false) (chunk b bs) true refl))
          (subscribe (after c c true false [] true)))
        (reads (after c c true true [] true) eof true refl))
      (writes (after c (c ++ []) false true ([] ∷ []) true) [] [] true refl refl)

-- Where the receiving end has not yet subscribed, the bridge can carry any first chunk to nobody and
-- still end in order: both loops have stopped at the sign of the end, nothing is on its way, the
-- chunk was read, and nothing was written.
pub opened-loses :
    (b : ℕ) (bs : Bytes)
    → (p : Pipe) × Reach (opened false) p
      × (p.read ≡ b ∷ bs)
      × (p.receiver.written ≡ [])
      × (p.queue ≡ [])
      × (p.sender.running ≡ false)
      × (p.receiver.running ≡ false)
opened-loses b bs = (
  after (b ∷ bs) (b ∷ bs ++ []) false true [] false,
  run_to_end b bs,
  append-nil (b ∷ bs),
  refl,
  refl,
  refl,
  refl,
)
