-- ===== src/Events/Receive/Transport.antt =====
-- aotbot/events.py: from the queue of the one side through a packet to the calls of the other.
use aot_headless_client.Base.{
  ℕ, suc, ◌+◌, ◌%◌, ◌^◌, ◌<◌, ◌≤◌, ◌≡◌, refl, sym, ap, ◌∙◌, Bool, true, false, Option, none, List,
  [], ◌∷◌, ◌++◌, append_assoc, arith, length, All,
}
use mathlib.Core.Path.{subst}
use native.Mathlib.Nat.{mod-lt}
use aot_headless_client.Base.Int.{pos}
use aot_headless_client.Base.Values.{int_bits}
use aot_headless_client.BitStream.{BitStream, M, new, open_on, get_bytes, write_flag, write_int}
use aot_headless_client.BitStream.View.{
  upcoming, with_strings, emit, emit-append, emit_keeps, Reads, Writes, Writes-bind,
}
use aot_headless_client.BitStream.Flags.{Writes-flag}
use aot_headless_client.BitStream.Ints.{written_small, Writes-int}
use aot_headless_client.BitStream.Appended.{
  padding, emit-IsAppended, new-IsAppended, upcoming-open_on,
}
use aot_headless_client.Events.{
  PendingEvent, SendQueue, write_event, assign, write_queue, write_events,
}
use aot_headless_client.Events.Incoming.{Event, read_one_event}
use aot_headless_client.Events.Receive.{EventReader, finished, read_events}
use aot_headless_client.Events.Receive.Section.{Section, last, next}
use aot_headless_client.Events.Receive.Accepted.{read_events-accept}
use aot_headless_client.Events.Receive.Order.{
  numbered, dispatch_all, IsDecodable, accept-dispatch_all,
}

-- An event as `_enqueue` appends it.
abbrev pub fresh : ℕ → M (Unit {0}) → PendingEvent
fresh classid writer = record {
  classid = classid;
  payload_writer = writer;
  seq = none;
  sent_in_packet = none;
}

-- The queue's payloads are read back as the events.
pub data Sendable (w : Option ℕ) : List PendingEvent → List Event → Type 0 where
  nothing : Sendable w [] []
  followed :
      {classid : ℕ} {writer : M (Unit {0})} {event : Event} {payload : List Bool}
      {evs : List PendingEvent} {events : List Event}
      → classid < 16
      → Writes none writer payload tt none
      → Reads none (read_one_event w classid) payload event none
      → Sendable w evs events
      → Sendable w (fresh classid writer ∷ evs) (event ∷ events)

event_bits : ℕ → ℕ → List Bool → List Bool
event_bits seq classid payload =
    true ∷ (false ∷ (int_bits 7 seq ++ (int_bits 4 classid ++ payload)))

Writes-small :
    (n v : ℕ) → n ≤ 32 → v < 2 ^ n → Writes none (write_int (pos v) n) (int_bits n v) tt none
Writes-small n v h small =
    subst (λ k. Writes none (write_int (pos v) n) (int_bits n k) tt none)
      (written_small n v h small) (Writes-int none (pos v) n)

Writes-event :
    (seq classid : ℕ) (writer : M (Unit {0})) (payload : List Bool)
    → seq < 128
    → classid < 16
    → Writes none writer payload tt none
    → Writes none (write_event seq (fresh classid writer)) (event_bits seq classid payload) tt none
unfolding write_event event_bits
Writes-event seq classid writer payload small known writes = Writes-bind _ (Writes-flag none true) (
    Writes-bind _ (Writes-flag none false) (
      Writes-bind _ (Writes-small 7 seq (omega arith) small)
        (Writes-bind _ (Writes-small 4 classid (omega arith) known) writes)))

without : (s : BitStream) → s.string_buffer ≡ none → with_strings none s ≡ s
without s e = ap (λ b. with_strings b s) (sym e)

-- The queue writes a section.
record Sent (w : Option ℕ) (current : ℕ) (evs : List PendingEvent) (n following : ℕ)
    (events : List Event) : Type 0 where
  bits : List Bool
  emits :
      (s : BitStream)
      → s.string_buffer ≡ none
      → (write_queue current evs following s).1 ≡ emit bits s
  section : Section w none (numbered n events) (bits ++ (false ∷ []))

sent :
    {w : Option ℕ} {evs : List PendingEvent} {events : List Event} (current n following : ℕ)
    → following % 128 ≡ n % 128
    → Sendable w evs events
    → Sent w current evs n following events
unfolding write_queue assign numbered emit event_bits
sent current n following h nothing = record { bits = []; emits = λ s e. refl; section = last }
sent {w = w} current n following h
      (followed {classid = classid} {writer = writer} {event = event} {payload = payload}
        {evs = evs} {events = events} known writes reads more) =
    let after =
      sent {w = w} {evs = evs} {events = events} current (n + 1) ((following + 1) % 128)
        (omega (arith, h)) more in
    let small : n % 128 < 128 = mod-lt n (omega arith) in
    let one = Writes-event (n % 128) classid writer payload small known writes in
    let bs = event_bits (n % 128) classid payload in
    record {
      bits = event_bits (n % 128) classid payload ++ after.bits;
      emits = λ s e.
          ap
            (λ k.
              (write_queue current evs ((following + 1) % 128)
                (write_event k (fresh classid writer) s).1).1)
            h
          ∙ ap (λ p. (write_queue current evs ((following + 1) % 128) p.1).1) (one.run s e)
          ∙ after.emits (with_strings none (emit bs s)) refl
          ∙ ap (λ t. emit after.bits t) (without (emit bs s) (emit_keeps bs s ∙ e))
          ∙ sym (emit-append bs after.bits s);
      section =
          subst
            (λ t.
              Section w none ((n % 128, event) ∷ numbered (n + 1) events)
                (true ∷ ((false ∷ int_bits 7 (n % 128)) ++ (int_bits 4 classid ++ t))))
            (sym (append_assoc payload after.bits (false ∷ [])))
            (next small known reads after.section);
    }

-- The section begins with the bit that ends the unordered events, and one more bit follows it.
framed : List Bool → List Bool
framed bits = false ∷ (bits ++ (false ∷ (false ∷ [])))

new_strings : new.string_buffer ≡ none
unfolding new
new_strings = refl

framed_sent :
    {w : Option ℕ} {events : List Event} (current : ℕ) (q : SendQueue)
    (x : Sent w current q.out_queue q.next_send_seq q.next_send_seq events)
    → (write_events current q new).1 ≡ emit (framed x.bits) new
unfolding write_events emit framed
framed_sent current q x =
    let begun = (write_flag false new).1 in
    ap (λ s. (write_flag false (write_flag false s).1).1)
      (x.emits begun (emit_keeps (false ∷ []) new ∙ new_strings))
    ∙ sym (emit-append x.bits (false ∷ (false ∷ [])) begun)

framed_split :
    (bits rest : List Bool)
    → framed bits ++ rest ≡ false ∷ ((bits ++ (false ∷ [])) ++ (false ∷ rest))
unfolding framed
framed_split bits rest =
    ap (λ t. false ∷ t)
      (append_assoc bits (false ∷ (false ∷ [])) rest
        ∙ sym (append_assoc bits (false ∷ []) (false ∷ rest)))

length-numbered : (n : ℕ) (events : List Event) → length (numbered n events) ≡ length events
unfolding numbered
length-numbered n [] = refl
length-numbered n (event ∷ events) = ap suc (length-numbered (n + 1) events)

-- A queue of events that were just queued is written into a packet, and the other side, which waits
-- for the number of the first of them, reads the packet: `read_events` ends at the end of the section,
-- and has dispatched each event once and in order, and nothing else. Conditions: each payload is below
-- class id 16 and is read back as its event by the reader of its class, without a string buffer, no
-- event raises, and there are fewer than 4096.
pub read_events-write_events :
    {wheel_count : Option ℕ} {events : List Event} (current : ℕ) (q : SendQueue) (r : EventReader)
    → Sendable wheel_count q.out_queue events
    → All IsDecodable events
    → length events < 4096
    → r.next_recv_event_seq ≡ q.next_send_seq % 128
    → (read_events wheel_count r (open_on (get_bytes (write_events current q new).1))).0
      ≡ (finished, dispatch_all events r)
unfolding open_on read_events
read_events-write_events {wheel_count = w} {events = events} current q r sendable all few h =
    let x = sent current q.next_send_seq q.next_send_seq refl sendable in
    let packet = emit (framed x.bits) new in
    let rest = padding (length packet.buf) (length (framed x.bits)) in
    let here : upcoming (open_on (get_bytes packet))
        ≡ false ∷ ((x.bits ++ (false ∷ [])) ++ (false ∷ rest)) =
      upcoming-open_on (framed x.bits) packet
        (emit-IsAppended [] (framed x.bits) new new-IsAppended)
      ∙ framed_split x.bits rest in
    ap (λ s. (read_events w r (open_on (get_bytes s))).0) (framed_sent current q x)
    ∙ read_events-accept r (open_on (get_bytes packet)) (false ∷ rest) x.section
        (omega (arith, few, length-numbered q.next_send_seq events)) refl refl here
    ∙ accept-dispatch_all q.next_send_seq events r h all
