-- ===== src/Core/Pipe/Delivered.antt =====
-- What arrives at the far end of a bridge.
use hackline.Prelude.{
  ℕ, ◌≡◌, ◌≢◌, All, refl, ap, sym, ◌∙◌, Bool, true, false, List, [], ◌∷◌, ◌++◌, length,
  length-append, arith, ◌⊎◌, inl, inr,
}
use mathlib.Core.Path.{subst}
use mathlib.Core.List.{append_assoc, append-nil}
use Prim.Native.Nat.{◌%◌}
use hackline.Core.Pipe.{
  Bytes, chunk, eof, failed, add_u64, published, on_read, on_sample, Pipe, Step, subscribe, reads,
  writes, Reach, here, next, opened, carried,
}

abbrev pub flatten : List Bytes → Bytes
flatten [] = []
flatten (b ∷ bs) = b ++ flatten bs

flatten-append : (xs ys : List Bytes) → flatten (xs ++ ys) ≡ flatten xs ++ flatten ys
flatten-append [] ys = refl
flatten-append (x ∷ xs) ys =
    ap (λ l. x ++ l) (flatten-append xs ys) ∙ sym (append_assoc x (flatten xs) (flatten ys))

abbrev IsFilled : Bytes → Type 0
IsFilled b = b ≢ []

-- While the writing loop goes on: all that was read was written, is on its way or was refused by the
-- session, and the sign of the end comes last.
record Flowing (going : Bool) (read written : Bytes) (queue : List Bytes) (down : ℕ) : Type 0 where
  lost : Bytes
  whole : read ≡ written ++ (flatten queue ++ lost)
  counted : down ≡ length written % 18446744073709551616
  going_on : going ≡ true → (lost ≡ []) × All IsFilled queue
  ending :
      All IsFilled queue
      ⊎ ((chunks : List Bytes) × (queue ≡ chunks ++ [] ∷ [])
          × All IsFilled chunks
          × (lost ≡ [])
          × (going ≡ false))

record IsFaithful (p : Pipe) : Type 0 where
  listening : p.subscribed ≡ true
  up_counted : p.sender.up ≡ length p.read % 18446744073709551616
  rest : Bytes
  beginning : p.read ≡ p.receiver.written ++ rest
  flowing :
      p.receiver.running ≡ true
      → Flowing p.sender.running p.read p.receiver.written p.queue p.receiver.down

count_more :
    (n : ℕ) (xs ys : Bytes)
    → n ≡ length xs % 18446744073709551616
    → add_u64 n (length ys) ≡ length (xs ++ ys) % 18446744073709551616
count_more n xs ys h = omega (arith, length-append xs ys)

All-append : (xs ys : List Bytes) → All IsFilled xs → All IsFilled ys → All IsFilled (xs ++ ys)
All-append [] ys h k = k
All-append (x ∷ xs) ys (h, hs) k = (h, All-append xs ys hs k)

-- A chunk more, that is lost.
one_lost :
    (read written c lost : Bytes) (queue : List Bytes)
    → read ≡ written ++ (flatten queue ++ lost)
    → lost ≡ []
    → read ++ c ≡ written ++ (flatten queue ++ c)
one_lost read written c lost queue whole none_lost =
    ap (λ r. r ++ c) (whole ∙ rw none_lost (ap (λ l. written ++ l) (append-nil (flatten queue))))
    ∙ append_assoc written (flatten queue) c

-- A chunk more, at the end of what is on its way.
one_more :
    (read written c lost : Bytes) (queue : List Bytes)
    → read ≡ written ++ (flatten queue ++ lost)
    → lost ≡ []
    → read ++ c ≡ written ++ (flatten (queue ++ c ∷ []) ++ [])
one_more read written c lost queue whole none_lost =
    one_lost read written c lost queue whole none_lost
    ∙ ap (λ l. written ++ l)
        (sym (
          append-nil (flatten (queue ++ c ∷ []))
          ∙ flatten-append queue (c ∷ [])
          ∙ ap (λ l. flatten queue ++ l) (append-nil c)))

head_eq : (x y : Bytes) (s t : List Bytes) → x ∷ s ≡ y ∷ t → x ≡ y
head_eq x y s t e = cc

tail_eq : (x y : Bytes) (s t : List Bytes) → x ∷ s ≡ y ∷ t → s ≡ t
tail_eq x y s t e = cc

after_chunk :
    (put : Bool) (b : ℕ) (bs read written : Bytes) (queue : List Bytes) (down : ℕ)
    → Flowing true read written queue down
    → Flowing put (read ++ b ∷ bs) written (queue ++ published put (b ∷ bs)) down
after_chunk true b bs read written queue down f =
    let (nothing, filled) = f.going_on refl in
    let all_filled = All-append queue ((b ∷ bs) ∷ []) filled ((λ e. cc), tt) in
    record {
      lost = [];
      whole = one_more read written (b ∷ bs) f.lost queue f.whole nothing;
      counted = f.counted;
      going_on = λ _. (refl, all_filled);
      ending = inl all_filled;
    }
after_chunk false b bs read written queue down f =
    let (nothing, filled) = f.going_on refl in
    subst (λ q. Flowing false (read ++ (b ∷ bs)) written q down) (sym (append-nil queue))
      (record {
        lost = (b ∷ bs);
        whole = one_lost read written (b ∷ bs) f.lost queue f.whole nothing;
        counted = f.counted;
        going_on = λ e. absurd cc;
        ending = inl filled;
      })

after_end :
    (put : Bool) (read written : Bytes) (queue : List Bytes) (down : ℕ)
    → Flowing true read written queue down
    → Flowing false (read ++ []) written (queue ++ published put []) down
after_end true read written queue down f =
    let (nothing, filled) = f.going_on refl in
    record {
      lost = [];
      whole = one_more read written [] f.lost queue f.whole nothing;
      counted = f.counted;
      going_on = λ e. absurd cc;
      ending = inr (queue, refl, filled, refl, refl);
    }
after_end false read written queue down f =
    let (nothing, filled) = f.going_on refl in
    subst (λ q. Flowing false (read ++ []) written q down) (sym (append-nil queue))
      (record {
        lost = [];
        whole = one_lost read written [] f.lost queue f.whole nothing;
        counted = f.counted;
        going_on = λ e. absurd cc;
        ending = inl filled;
      })

first_ne_end : (c : Bytes) (queue : List Bytes) → IsFilled c → c ∷ queue ≡ [] ∷ [] → ⊥
first_ne_end c queue filled e = filled (head_eq c [] queue [] e)

after_write :
    (going : Bool) (b : ℕ) (bs read written : Bytes) (queue : List Bytes) (down : ℕ)
    → Flowing going read written ((b ∷ bs) ∷ queue) down
    → Flowing going read (written ++ b ∷ bs) queue (add_u64 down (length (b ∷ bs)))
after_write going b bs read written queue down f = record {
  lost = f.lost;
  whole =
      f.whole
      ∙ ap (λ l. written ++ l) (append_assoc (b ∷ bs) (flatten queue) f.lost)
      ∙ sym (append_assoc written (b ∷ bs) (flatten queue ++ f.lost));
  counted = count_more down written (b ∷ bs) f.counted;
  going_on = λ g. let (nothing, filled) = f.going_on g in (nothing, filled.1);
  ending = elim f.ending [
    | inl (_, filled) ↦ inl filled
    | inr ([], e, _, _, _) ↦ absurd (first_ne_end (b ∷ bs) queue (λ d. cc) e)
    | inr (c ∷ chunks, e, (_, filled), nothing, stopped) ↦
        inr (chunks, tail_eq (b ∷ bs) c queue (chunks ++ [] ∷ []) e, filled, nothing, stopped)
  ];
}

carried_here :
    (s : Bool) (queue samples : List Bytes) → s ≡ true → queue ++ samples ≡ carried s queue samples
carried_here true queue samples e = refl
carried_here false queue samples e = absurd cc

-- While the reading loop goes on.
started :
    {read written : Bytes} {queue : List Bytes} {down : ℕ} (going : Bool)
    → going ≡ true
    → Flowing going read written queue down
    → Flowing true read written queue down
started {read} {written} {queue} {down} going go f =
    subst (λ g. Flowing g read written queue down) go f

sent :
    {going : Bool} {read written : Bytes} {down : ℕ} (s : Bool) (queue samples : List Bytes)
    → s ≡ true
    → Flowing going read written (queue ++ samples) down
    → Flowing going read written (carried s queue samples) down
sent {going} {read} {written} {down} s queue samples e f =
    subst (λ q. Flowing going read written q down) (carried_here s queue samples e) f

more_read :
    (read written rest c : Bytes) → read ≡ written ++ rest → read ++ c ≡ written ++ (rest ++ c)
more_read read written rest c e = ap (λ r. r ++ c) e ∙ append_assoc written rest c

-- The reading loop ends.
stops_reading :
    (p : Pipe) (put : Bool)
    → p.sender.running ≡ true
    → IsFaithful p
    → IsFaithful (record p {
      sender = record { up = p.sender.up; running = false };
      read = p.read ++ [];
      queue = carried p.subscribed p.queue (published put []);
    })
stops_reading p put go f = record {
  listening = f.listening;
  up_counted = f.up_counted ∙ ap (λ l. length l % 18446744073709551616) (sym (append-nil p.read));
  rest = f.rest ++ [];
  beginning = more_read p.read p.receiver.written f.rest [] f.beginning;
  flowing = λ h. sent p.subscribed p.queue (published put []) f.listening (
      after_end put p.read p.receiver.written p.queue p.receiver.down
        (started p.sender.running go (f.flowing h)));
}

-- What the writing loop writes, when all goes well, is the beginning of what is left.
next_written :
    (read written lost c : Bytes) (queue : List Bytes)
    → read ≡ written ++ (flatten (c ∷ queue) ++ lost)
    → read ≡ (written ++ c) ++ (flatten queue ++ lost)
next_written read written lost c queue e =
    e
    ∙ ap (λ l. written ++ l) (append_assoc c (flatten queue) lost)
    ∙ sym (append_assoc written c (flatten queue ++ lost))

met :
    {going : Bool} {read written : Bytes} {down : ℕ} (queue : List Bytes) (sample : Bytes)
    (rest : List Bytes)
    → queue ≡ sample ∷ rest
    → Flowing going read written queue down
    → Flowing going read written (sample ∷ rest) down
met {going} {read} {written} {down} queue sample rest e f =
    subst (λ q. Flowing going read written q down) e f

Step-IsFaithful : {p q : Pipe} → Step p q → IsFaithful p → IsFaithful q
unfolding on_read on_sample
Step-IsFaithful (subscribe p) f = record {
  listening = refl;
  up_counted = f.up_counted;
  rest = f.rest;
  beginning = f.beginning;
  flowing = f.flowing;
}
Step-IsFaithful (reads p (chunk b bs) put go) f = record {
  listening = f.listening;
  up_counted = count_more p.sender.up p.read (b ∷ bs) f.up_counted;
  rest = f.rest ++ b ∷ bs;
  beginning = more_read p.read p.receiver.written f.rest (b ∷ bs) f.beginning;
  flowing = λ h. sent p.subscribed p.queue (published put (b ∷ bs)) f.listening (
      after_chunk put b bs p.read p.receiver.written p.queue p.receiver.down
        (started p.sender.running go (f.flowing h)));
}
Step-IsFaithful (reads p eof put go) f = stops_reading p put go f
Step-IsFaithful (reads p failed put go) f = stops_reading p put go f
Step-IsFaithful (writes p [] rest wrote go e) f = record {
  listening = f.listening;
  up_counted = f.up_counted;
  rest = f.rest;
  beginning = f.beginning;
  flowing = λ h. absurd cc;
}
Step-IsFaithful (writes p (b ∷ bs) rest true go e) f =
    let flow = met p.queue (b ∷ bs) rest e (f.flowing go) in
    record {
      listening = f.listening;
      up_counted = f.up_counted;
      rest = flatten rest ++ flow.lost;
      beginning = next_written p.read p.receiver.written flow.lost (b ∷ bs) rest flow.whole;
      flowing = λ h.
          after_write p.sender.running b bs p.read p.receiver.written rest p.receiver.down flow;
    }
Step-IsFaithful (writes p (b ∷ bs) rest false go e) f = record {
  listening = f.listening;
  up_counted = f.up_counted;
  rest = f.rest;
  beginning = f.beginning;
  flowing = λ h. absurd cc;
}

Reach-IsFaithful : {p q : Pipe} → Reach p q → IsFaithful p → IsFaithful q
Reach-IsFaithful here f = f
Reach-IsFaithful (next r s) f = Step-IsFaithful s (Reach-IsFaithful r f)

opened-IsFaithful : IsFaithful (opened true)
opened-IsFaithful = record {
  listening = refl;
  up_counted = refl;
  rest = [];
  beginning = refl;
  flowing = λ h. record {
    lost = [];
    whole = refl;
    counted = refl;
    going_on = λ g. (refl, tt);
    ending = inl tt;
  };
}

-- Where the sign of the end is next, it is the last sample and nothing is missing.
ended :
    {going : Bool} {read written : Bytes} {down : ℕ} (rest : List Bytes)
    → Flowing going read written ([] ∷ rest) down
    → (rest ≡ []) × (read ≡ written) × (going ≡ false)
ended {going} {read} {written} rest f = elim f.ending [
  | inl (filled, _) ↦ absurd (filled refl)
  | inr ([], e, _, nothing, stopped) ↦
      let over = tail_eq [] [] rest [] e in
      (
        over,
        f.whole
            ∙ ap (λ l. written ++ (l ++ f.lost)) (ap flatten over)
            ∙ ap (λ l. written ++ l) nothing
            ∙ append-nil written,
        stopped,
      )
  | inr (c ∷ chunks, e, (filled, _), _, _) ↦
      absurd (filled (sym (head_eq [] c rest (chunks ++ [] ∷ []) e)))
]

-- With the receiving end subscribed before the bridge starts, in every state that the two loops and
-- the network can reach in any order, what the far end has written is the beginning of what this end
-- has read, and this end has counted the bytes it read, modulo 2^64.
pub Reach-Begins :
    (p : Pipe)
    → Reach (opened true) p
    → ((left : Bytes) × (p.read ≡ p.receiver.written ++ left))
      × (p.sender.up ≡ length p.read % 18446744073709551616)
Reach-Begins p r =
    let f = Reach-IsFaithful r opened-IsFaithful in ((f.rest, f.beginning), f.up_counted)

-- With the receiving end subscribed before the bridge starts, in every reachable state where the far
-- end still goes on and the sign of the end is the next sample: no sample follows it, all that was
-- read has been written and nothing else, both ends counted the same number of bytes, and this end no
-- longer reads.
pub Reach-Ended :
    (p : Pipe) (rest : List Bytes)
    → Reach (opened true) p
    → p.receiver.running ≡ true
    → p.queue ≡ [] ∷ rest
    → (rest ≡ [])
      × (p.read ≡ p.receiver.written)
      × (p.sender.up ≡ p.receiver.down)
      × (p.sender.running ≡ false)
Reach-Ended p rest r go e =
    let f = Reach-IsFaithful r opened-IsFaithful in
    let flow = met p.queue [] rest e (f.flowing go) in
    let (over, same, stopped) = ended rest flow in
    (
      over,
      same,
      f.up_counted ∙ ap (λ l. length l % 18446744073709551616) same ∙ sym flow.counted,
      stopped,
    )
