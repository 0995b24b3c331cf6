-- ===== src/Events/Receive/Fuel.antt =====
-- aotbot/events.py: the bound of 4096 rounds of `read_events`, against the length of the stream.
use aot_headless_client.Base.{
  ℕ, zero, suc, ◌+◌, ◌%◌, ◌*◌, ◌<◌, ◌≤◌, ◌≡◌, refl, ap, ◌∙◌, inl, inr, Bool, true, false, ◌&&◌,
  Option, none, some, arith, ltb, ◌==◌, length, Bool-cases, if◌then◌else◌,
}
use aot_headless_client.BitStream.{BitStream, M, pure, ◌>>=◌, read_flag, read_int}
use aot_headless_client.BitStream.Bounds.{read_flag_error, read_int_error}
use aot_headless_client.Events.{event_seq_bits, net_class_bits_event}
use aot_headless_client.Events.Incoming.{read_one_event}
use aot_headless_client.Events.Incoming.Decoded.{Decodes-read_one_event}
use aot_headless_client.Decoder.Decodes.{Decodes, Decodes-bind, Decodes-pure, Decodes-flag}
use aot_headless_client.Decoder.Rules.{Decodes-int, Decodes-if}
use aot_headless_client.Events.Receive.{
  EventReader, Outcome, finished, overrun, spent, gap, perform, raised, get_error, ahead, consume,
  Rest, after_event, take_event, read_seq, filter, ordered_event, ordered_round, unordered_round,
  read_loop, read_events,
}

-- The loop went on from a place that is at least `bits` further.
record WentOn (bits : ℕ) (s : BitStream) (more : EventReader → M (Outcome × EventReader))
    : Type 0 where
  there : BitStream
  with_reader : EventReader
  spends : (more with_reader there).0.0 ≡ spent
  kept : there.buf ≡ s.buf
  moved : s.bit_num + bits ≤ there.bit_num

after_spent :
    (o : Option ℕ) (e : Bool) (r : EventReader) (m : M (Outcome × EventReader)) (s : BitStream)
    → (after_event o e r m s).0.0 ≡ spent
    → (m s).0.0 ≡ spent
unfolding after_event pure
after_spent (some classid) e r m s h = cc
after_spent none true r m s h = cc
after_spent none false r m s h = h

take_spent :
    (w : Option ℕ) (dispatch counted : Bool) (r : EventReader)
    (more : EventReader → M (Outcome × EventReader)) (s : BitStream)
    → (take_event w dispatch counted r more s).0.0 ≡ spent
    → WentOn 4 s more
unfolding take_event get_error ◌>>=◌
take_spent w dispatch counted r more s h =
    let t = (read_int net_class_bits_event s).1 in
    let classid = (read_int net_class_bits_event s).0 in
    let d = Decodes-read_one_event w classid in
    let got = (read_one_event w classid t).0 in
    record {
      there = (read_one_event w classid t).1;
      with_reader = consume counted (perform got dispatch r);
      spends =
          after_spent (raised got) (read_one_event w classid t).1.error (perform got dispatch r)
            (more (consume counted (perform got dispatch r))) (read_one_event w classid t).1 h;
      kept = d.kept t ∙ (read_int_error net_class_bits_event s).2;
      moved = omega (arith, d.onward t, (read_int_error net_class_bits_event s).1);
    }

filter_spent :
    (w : Option ℕ) (seq : ℕ) (r : EventReader) (more : EventReader → M (Outcome × EventReader))
    (s : BitStream)
    → (filter w seq r more s).0.0 ≡ spent
    → WentOn 4 s more
unfolding filter pure
filter_spent w seq r more s h =
    let rel = ahead (r.next_recv_event_seq % 128) seq in
    elim (Bool-cases (ltb 0 rel && ltb rel 64)) [
      | inl t ↦ let no : gap (r.next_recv_event_seq % 128) seq ≡ spent = rw t at h in cc
      | inr t ↦ take_spent w (rel == 0) (rel == 0) r more s (rw t at h)
    ]

if_spent :
    (e : Bool) (r : EventReader) (m : M (Outcome × EventReader)) (s : BitStream)
    → ((if e then pure (overrun, r) else m) s).0.0 ≡ spent
    → (e ≡ false) × ((m s).0.0 ≡ spent)
unfolding pure
if_spent true r m s h = cc
if_spent false r m s h = (refl, h)

-- The round began inside the stream, and the loop went on behind the event.
record NextRound (s : BitStream) (more : Rest) : Type 0 where
  inside : s.bit_num + 1 ≤ 8 * length s.buf
  phase : Bool
  prev : ℕ
  with_reader : EventReader
  there : BitStream
  spends : (more phase prev with_reader there).0.0 ≡ spent
  kept : there.buf ≡ s.buf
  moved : s.bit_num + 5 ≤ there.bit_num

flag_inside : (s : BitStream) → (read_flag s).1.error ≡ false → s.bit_num + 1 ≤ 8 * length s.buf
flag_inside s e = ground (arith, (read_flag_error s).0, e)

Decodes-read_seq : (prev : ℕ) → Decodes (read_seq prev)
unfolding read_seq
Decodes-read_seq prev =
    Decodes-bind Decodes-flag (λ b. Decodes-if b (Decodes-pure _) (Decodes-int event_seq_bits))

ordered_spent :
    (w : Option ℕ) (prev : ℕ) (r : EventReader) (more : Rest) (s : BitStream)
    → (ordered_event w prev r more (read_flag s).1).0.0 ≡ spent
    → (read_flag s).1.error ≡ false
    → NextRound s more
unfolding ordered_event get_error ◌>>=◌
ordered_spent w prev r more s h fine =
    let t = (read_flag s).1 in
    let seq = (read_seq prev t).0 in
    let u = (read_seq prev t).1 in
    let (clear, h2) = if_spent u.error r (filter w seq r (more false seq)) u h in
    let on = filter_spent w seq r (more false seq) u h2 in
    let d = Decodes-read_seq prev in
    record {
      inside = flag_inside s fine;
      phase = false;
      prev = seq;
      with_reader = on.with_reader;
      there = on.there;
      spends = on.spends;
      kept = on.kept ∙ d.kept t ∙ (read_flag_error s).2;
      moved = omega (arith, on.moved, d.onward t, (read_flag_error s).1);
    }

ordered_round_spent :
    (w : Option ℕ) (prev : ℕ) (r : EventReader) (more : Rest) (s : BitStream)
    → (ordered_round w prev r more s).0.0 ≡ spent
    → NextRound s more
unfolding ordered_round get_error ◌>>=◌ pure
ordered_round_spent w prev r more s h =
    let t = (read_flag s).1 in
    let m = if (read_flag s).0 then ordered_event w prev r more else pure (finished, r) in
    let (fine, h2) = if_spent t.error r m t h in
    elim (Bool-cases (read_flag s).0) [
      | inl b ↦ ordered_spent w prev r more s (rw b at h2) fine
      | inr b ↦ let no : finished ≡ spent = rw b at h2 in cc
    ]

unordered_round_spent :
    (w : Option ℕ) (prev : ℕ) (r : EventReader) (more : Rest) (s : BitStream)
    → (unordered_round w prev r more s).0.0 ≡ spent
    → NextRound s more
unfolding unordered_round get_error ◌>>=◌
unordered_round_spent w prev r more s h =
    let t = (read_flag s).1 in
    let m =
      if (read_flag s).0
      then take_event w true false r (more true prev)
      else ordered_round w prev r more in
    let (fine, h2) = if_spent t.error r m t h in
    let moved = (read_flag_error s).1 in
    elim (Bool-cases (read_flag s).0) [
      | inl b ↦
          let on = take_spent w true false r (more true prev) t (rw b at h2) in
          record {
            inside = flag_inside s fine;
            phase = true;
            prev = prev;
            with_reader = on.with_reader;
            there = on.there;
            spends = on.spends;
            kept = on.kept ∙ (read_flag_error s).2;
            moved = omega (arith, on.moved, moved);
          }
      | inr b ↦
          let on = ordered_round_spent w prev r more t (rw b at h2) in
          record {
            inside = flag_inside s fine;
            phase = on.phase;
            prev = on.prev;
            with_reader = on.with_reader;
            there = on.there;
            spends = on.spends;
            kept = on.kept ∙ (read_flag_error s).2;
            moved = omega (arith, on.moved, moved);
          }
    ]

round_spent :
    (w : Option ℕ) (left : ℕ) (phase : Bool) (prev : ℕ) (r : EventReader) (s : BitStream)
    → (read_loop w (suc left) phase prev r s).0.0 ≡ spent
    → NextRound s (read_loop w left)
unfolding read_loop
round_spent w left true prev r s h = unordered_round_spent w prev r (read_loop w left) s h
round_spent w left false prev r s h = ordered_round_spent w prev r (read_loop w left) s h

-- All the rounds fit into the stream.
rounds_fit :
    (w : Option ℕ) (left : ℕ) (phase : Bool) (prev : ℕ) (r : EventReader) (s : BitStream)
    → (read_loop w (suc left) phase prev r s).0.0 ≡ spent
    → s.bit_num + 5 * left + 1 ≤ 8 * length s.buf
rounds_fit w zero phase prev r s h =
    let on = round_spent w zero phase prev r s h in omega (arith, on.inside)
rounds_fit w (suc left) phase prev r s h =
    let on = round_spent w (suc left) phase prev r s h in
    let fits = rounds_fit w left on.phase on.prev on.with_reader on.there on.spends in
    omega (arith, fits, on.moved, ap length on.kept)

-- On a datagram of fewer than 2560 bytes, whatever it holds, `read_events` does not end by its bound
-- of 4096 rounds.
pub read_events_suffices :
    (wheel_count : Option ℕ) (r : EventReader) (s : BitStream)
    → length s.buf < 2560
    → ¬ ((read_events wheel_count r s).0.0 ≡ spent)
unfolding read_events
read_events_suffices wheel_count r s small h =
    let fits = rounds_fit wheel_count 4095 true 127 r s h in absurd (omega (arith, fits, small))
