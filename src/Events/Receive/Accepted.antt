-- ===== src/Events/Receive/Accepted.antt =====
-- aotbot/events.py: `read_events` on a stream that holds a section, against its events as a list.
use aot_headless_client.Base.{
  ℕ, zero, suc, ◌%◌, ◌<◌, ◌≡◌, refl, ap, ◌∙◌, inl, inr, Bool, true, false, ◌&&◌, Option, none, some,
  List, ◌∷◌, ◌++◌, append_assoc, arith, ltb, ◌==◌, length, Bool-cases,
}
use aot_headless_client.Base.Values.{int_bits}
use aot_headless_client.BitStream.{BitStream, M, pure, ◌>>=◌}
use aot_headless_client.BitStream.View.{upcoming, Reads}
use aot_headless_client.BitStream.Flags.{Reads-flag}
use aot_headless_client.Events.Incoming.{Event, read_one_event}
use aot_headless_client.Events.Receive.{
  EventReader, Outcome, perform, raised, get_error, ahead, consume, after_event, take_event, filter,
  ordered_event, ordered_round, unordered_round, read_loop, read_events,
}
use aot_headless_client.Events.Receive.Section.{
  Section, last, next, unless_raised, accept, Reads-seq, Reads-class, run_on,
}

settled :
    (more : M (Outcome × EventReader)) (t : BitStream) (done : EventReader)
    {res : Outcome × EventReader} (o : Option ℕ)
    → (more t).0 ≡ res
    → (after_event o false done more t).0 ≡ unless_raised o done res
unfolding after_event pure
settled more t done (some classid) h = refl
settled more t done none h = h

-- The event that the stream holds is performed, and the loop goes on behind it unless the event raises.
taken :
    {sb sb' : Option (List ℕ)} {classid : ℕ} {event : Event} {payload : List Bool} (w : Option ℕ)
    (dispatch counted : Bool) (r : EventReader) (more : EventReader → M (Outcome × EventReader))
    (s : BitStream) (rest : List Bool) (result : Outcome × EventReader)
    → classid < 16
    → Reads sb (read_one_event w classid) payload event sb'
    → s.error ≡ false
    → s.string_buffer ≡ sb
    → upcoming s ≡ int_bits 4 classid ++ (payload ++ rest)
    → ((t : BitStream)
        → t.error ≡ false
        → t.string_buffer ≡ sb'
        → upcoming t ≡ rest
        → (more (consume counted (perform event dispatch r)) t).0 ≡ result)
    → (take_event w dispatch counted r more s).0
      ≡ unless_raised (raised event) (perform event dispatch r) result
unfolding take_event get_error ◌>>=◌
taken {sb = sb} {classid = classid} {event = event} {payload = payload} w dispatch counted r more s
      rest result small reads e b u go =
    let p = run_on s (payload ++ rest) (Reads-class sb classid small) e b u in
    let q = run_on p.there rest reads p.clear p.strings p.left in
    rw (p.ran, q.ran, q.clear)
      (settled (more (consume counted (perform event dispatch r))) q.there
        (perform event dispatch r) (raised event) (go q.there q.clear q.strings q.left))

-- An ordered event, behind its number.
filtered :
    {sb sb' : Option (List ℕ)} {classid : ℕ} {event : Event} {payload : List Bool} (w : Option ℕ)
    (seq : ℕ) (r : EventReader) (more : EventReader → M (Outcome × EventReader)) (s : BitStream)
    (rest : List Bool) (arrivals : List (ℕ × Event))
    → classid < 16
    → Reads sb (read_one_event w classid) payload event sb'
    → s.error ≡ false
    → s.string_buffer ≡ sb
    → upcoming s ≡ int_bits 4 classid ++ (payload ++ rest)
    → ((t : BitStream) (done : EventReader)
        → t.error ≡ false
        → t.string_buffer ≡ sb'
        → upcoming t ≡ rest
        → (more done t).0 ≡ accept arrivals done)
    → (filter w seq r more s).0 ≡ accept ((seq, event) ∷ arrivals) r
unfolding filter accept pure
filtered {event = event} w seq r more s rest arrivals small reads e b u go =
    let rel = ahead (r.next_recv_event_seq % 128) seq in
    let done = perform event (rel == 0) r in
    elim (Bool-cases (ltb 0 rel && ltb rel 64)) [
      | inl t ↦ rw t refl
      | inr t ↦ rw t (
          taken w (rel == 0) (rel == 0) r more s rest (accept arrivals (consume (rel == 0) done))
            small reads e b u (λ t. go t (consume (rel == 0) done)))
    ]

-- On a stream that holds a section of ordered events, with their numbers written out, the loop of
-- `read_events` ends and leaves the manager as `accept` says: each event that is expected is
-- dispatched, one that is behind is performed without dispatch, one that is ahead ends the section.
-- Conditions: more rounds are left than there are events, the stream has no error, and its string
-- buffer is the one that the section was written with.
pub read_loop-accept :
    {wheel_count : Option ℕ} {sb : Option (List ℕ)} {arrivals : List (ℕ × Event)} {bits : List Bool}
    (left prev : ℕ) (r : EventReader) (s : BitStream) (rest : List Bool)
    → Section wheel_count sb arrivals bits
    → length arrivals < left
    → s.error ≡ false
    → s.string_buffer ≡ sb
    → upcoming s ≡ bits ++ rest
    → (read_loop wheel_count left false prev r s).0 ≡ accept arrivals r
unfolding read_loop ordered_round ordered_event get_error ◌>>=◌ pure accept
read_loop-accept zero prev r s rest section few e b u = absurd (omega (arith, few))
read_loop-accept {sb = sb} (suc left) prev r s rest last few e b u =
    let p = run_on s rest (Reads-flag sb false) e b u in rw (p.ran, p.clear) refl
read_loop-accept {wheel_count = w} {sb = sb} (suc left) prev r s rest
      (next {sb' = sb'} {seq = seq} {classid = classid} {payload = payload} {bits = bits}
        {rest = arrivals} small known reads section)
      few e b u =
    let body = int_bits 4 classid ++ (payload ++ bits) in
    let p = run_on s (((false ∷ int_bits 7 seq) ++ body) ++ rest) (Reads-flag sb true) e b u in
    let q =
      run_on p.there (body ++ rest) (Reads-seq sb prev seq small) p.clear p.strings
        (p.left ∙ append_assoc (false ∷ int_bits 7 seq) body rest) in
    let here : upcoming q.there ≡ int_bits 4 classid ++ (payload ++ (bits ++ rest)) =
      q.left
      ∙ append_assoc (int_bits 4 classid) (payload ++ bits) rest
      ∙ ap (λ t. int_bits 4 classid ++ t) (append_assoc payload bits rest) in
    rw (p.ran, p.clear, q.ran, q.clear)
      (filtered w seq r (read_loop w left false seq) q.there (bits ++ rest) arrivals known reads
        q.clear q.strings here
        (λ t done e' b' u'.
          read_loop-accept {sb = sb'} left seq done t rest section (omega (arith, few)) e' b' u'))

-- The bit that ends the unordered events, and then the ordered ones.
first_round :
    {w : Option ℕ} {sb : Option (List ℕ)} {arrivals : List (ℕ × Event)} {bits : List Bool}
    (left : ℕ) (r : EventReader) (s : BitStream) (rest : List Bool)
    → Section w sb arrivals bits
    → length arrivals < suc left
    → s.error ≡ false
    → s.string_buffer ≡ sb
    → upcoming s ≡ false ∷ (bits ++ rest)
    → (read_loop w (suc left) true 127 r s).0 ≡ accept arrivals r
unfolding read_loop unordered_round get_error ◌>>=◌
first_round {sb = sb} {bits = bits} left r s rest section few e b u =
    let p = run_on s (bits ++ rest) (Reads-flag sb false) e b u in
    rw (p.ran, p.clear)
      (read_loop-accept (suc left) 127 r p.there rest section few p.clear p.strings p.left)

pub read_events-accept :
    {w : Option ℕ} {sb : Option (List ℕ)} {arrivals : List (ℕ × Event)} {bits : List Bool}
    (r : EventReader) (s : BitStream) (rest : List Bool)
    → Section w sb arrivals bits
    → length arrivals < 4096
    → s.error ≡ false
    → s.string_buffer ≡ sb
    → upcoming s ≡ false ∷ (bits ++ rest)
    → (read_events w r s).0 ≡ accept arrivals r
unfolding read_events
read_events-accept r s rest section few e b u = first_round 4095 r s rest section few e b u
