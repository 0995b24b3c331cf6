-- ===== src/Events/Receive/Section.antt =====
-- aotbot/events.py: the event section of a packet as it is sent, and what the manager is to do with it.
use aot_headless_client.Base.{
  ℕ, ◌%◌, ◌<◌, ◌≡◌, refl, Bool, true, false, ◌&&◌, Option, none, some, List, [], ◌∷◌, ◌++◌, arith,
  ltb, ◌==◌, length, if◌then◌else◌,
}
use mathlib.Core.Path.{subst}
use native.Mathlib.Nat.{mod-eq_of_lt}
use aot_headless_client.Base.Values.{int_bits}
use aot_headless_client.BitStream.{BitStream, M, read_int}
use aot_headless_client.BitStream.View.{
  upcoming, skip, with_strings, Reads, Reads-bind, upcoming-skip,
}
use aot_headless_client.BitStream.Flags.{Reads-flag}
use aot_headless_client.BitStream.Ints.{Reads-int_bits}
use aot_headless_client.Events.Incoming.{Event, read_one_event}
use aot_headless_client.Events.Receive.{
  EventReader, Outcome, finished, gap, decode_error, perform, raised, ahead, consume, read_seq,
}

-- The bits of ordered events, each with its number, up to the bit that ends the section.
pub data Section (w : Option ℕ) : Option (List ℕ) → List (ℕ × Event) → List Bool → Type 0 where
  last : {sb : Option (List ℕ)} → Section w sb [] (false ∷ [])
  next :
      {sb sb' : Option (List ℕ)} {seq classid : ℕ} {event : Event} {payload bits : List Bool}
      {rest : List (ℕ × Event)}
      → seq < 128
      → classid < 16
      → Reads sb (read_one_event w classid) payload event sb'
      → Section w sb' rest bits
      → Section w sb
          ((seq, event) ∷ rest)
          (true ∷ ((false ∷ int_bits 7 seq) ++ (int_bits 4 classid ++ (payload ++ bits))))

abbrev pub unless_raised : Option ℕ → EventReader → Outcome × EventReader → Outcome × EventReader
unless_raised (some classid) r more = (decode_error classid, r)
unless_raised none r more = more

-- The events in turn: the one that is expected is dispatched, one that is behind is not, and one that is
-- ahead ends the section.
unfoldable pub accept : List (ℕ × Event) → EventReader → Outcome × EventReader
accept [] r = (finished, r)
accept ((seq, event) ∷ rest) r =
    let rel = ahead (r.next_recv_event_seq % 128) seq in
    let done = perform event (rel == 0) r in
    let more = accept rest (consume (rel == 0) done) in
    if ltb 0 rel && ltb rel 64
    then (gap (r.next_recv_event_seq % 128) seq, r)
    else unless_raised (raised event) done more

pub Reads-seq :
    (sb : Option (List ℕ)) (prev seq : ℕ)
    → seq < 128
    → Reads sb (read_seq prev) (false ∷ int_bits 7 seq) seq sb
unfolding read_seq
Reads-seq sb prev seq small = Reads-bind _ (Reads-flag sb false) (
    subst (λ v. Reads sb (read_int 7) (int_bits 7 seq) v sb) (mod-eq_of_lt small)
      (Reads-int_bits sb 7 seq (omega arith)))

pub Reads-class :
    (sb : Option (List ℕ)) (classid : ℕ)
    → classid < 16
    → Reads sb (read_int 4) (int_bits 4 classid) classid sb
Reads-class sb classid small =
    subst (λ v. Reads sb (read_int 4) (int_bits 4 classid) v sb) (mod-eq_of_lt small)
      (Reads-int_bits sb 4 classid (omega arith))

-- A stream on which such a section comes next, behind the bit that ends the unordered events.
pub record Holds (w : Option ℕ) (arrivals : List (ℕ × Event)) (s : BitStream) : Type 0 where
  pub bits : List Bool
  pub rest : List Bool
  pub section : Section w s.string_buffer arrivals bits
  pub few : length arrivals < 4096
  pub no_error : s.error ≡ false
  pub content : upcoming s ≡ false ∷ (bits ++ rest)

-- Where a reader stops, with what it has read.
pub record Ran {A : Type 0} (m : M A) (s : BitStream) (v : A) (sb : Option (List ℕ))
    (rest : List Bool) : Type 0 where
  pub there : BitStream
  pub ran : m s ≡ (v, there)
  pub clear : there.error ≡ false
  pub strings : there.string_buffer ≡ sb
  pub left : upcoming there ≡ rest

pub run_on :
    {A : Type 0} {sb sb' : Option (List ℕ)} {m : M A} {bits : List Bool} {v : A} (s : BitStream)
    (rest : List Bool)
    → Reads sb m bits v sb'
    → s.error ≡ false
    → s.string_buffer ≡ sb
    → upcoming s ≡ bits ++ rest
    → Ran m s v sb' rest
run_on {sb' = sb'} {bits = bits} s rest r e b u = record {
  there = with_strings sb' (skip (length bits) s);
  ran = r.run s rest b u;
  clear = e;
  strings = refl;
  left = upcoming-skip s bits rest u;
}
