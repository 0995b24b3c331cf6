-- ===== src/Events/Receive/Redelivery.antt =====
-- aotbot/events.py: events that come again, and events that come too early.
use aot_headless_client.Base.{
  ℕ, ◌+◌, ◌-◌, ◌%◌, ◌<◌, ◌≤◌, ◌≡◌, refl, ap, ◌∙◌, true, false, List, [], ◌∷◌, ◌++◌, arith, ltb,
  ◌==◌, length, All, Option,
}
use aot_headless_client.Events.Incoming.{
  Event, net_string, remote_command, connection_message, ghost_always, datablock, discarded,
  undecodable,
}
use aot_headless_client.Events.Receive.{
  Call, EventReader, finished, gap, perform, command, message_call, ahead, consume,
  dispatch_command, on_connection_message, on_ghost_scoped, read_events,
}
use aot_headless_client.BitStream.{BitStream}
use aot_headless_client.Events.Receive.Section.{Holds, accept}
use aot_headless_client.Events.Receive.Accepted.{read_events-accept}
use aot_headless_client.Events.Receive.Order.{
  numbered, dispatch_all, IsDecodable, perform_next, accept_nothing, accept-dispatch_all,
  dispatched_next,
}

-- The calls that may be made once only: those of commands and of connection messages.
unfoldable pub once_only : List Call → List Call
once_only [] = []
once_only (dispatch_command verb args table ∷ calls) =
    dispatch_command verb args table ∷ once_only calls
once_only (on_connection_message message sequence ghost_count ∷ calls) =
    on_connection_message message sequence ghost_count ∷ once_only calls
once_only (on_ghost_scoped ghost_id class_id ∷ calls) = once_only calls

once_only_scoped :
    (calls : List Call) (ghost_id class_id : ℕ)
    → once_only (calls ++ (on_ghost_scoped ghost_id class_id ∷ [])) ≡ once_only calls
unfolding once_only
once_only_scoped [] ghost_id class_id = refl
once_only_scoped (dispatch_command verb args table ∷ calls) ghost_id class_id =
    ap (λ l. dispatch_command verb args table ∷ l) (once_only_scoped calls ghost_id class_id)
once_only_scoped (on_connection_message message sequence ghost_count ∷ calls) ghost_id class_id =
    ap (λ l. on_connection_message message sequence ghost_count ∷ l)
      (once_only_scoped calls ghost_id class_id)
once_only_scoped (on_ghost_scoped id class ∷ calls) ghost_id class_id =
    once_only_scoped calls ghost_id class_id

perform_again :
    (event : Event) (r : EventReader) → once_only (perform event false r).calls ≡ once_only r.calls
unfolding perform command message_call
perform_again (net_string index text) r = refl
perform_again (remote_command argv) r = refl
perform_again (connection_message message sequence ghost_count) r = refl
perform_again (ghost_always ghost_id class_id decoded) r =
    once_only_scoped r.calls ghost_id class_id
perform_again (datablock db_id class_id decoded) r = refl
perform_again discarded r = refl
perform_again (undecodable classid) r = refl

behind : (m n : ℕ) → m < n → n ≤ m + 64 → ahead (n % 128 % 128) (m % 128) ≡ m + 128 - n
unfolding ahead
behind m n lo hi = omega (arith, lo, hi)

accept_behind :
    (m n : ℕ) (event : Event) (rest : List (ℕ × Event)) (r : EventReader)
    → m < n
    → n ≤ m + 64
    → r.next_recv_event_seq ≡ n % 128
    → IsDecodable event
    → accept ((m % 128, event) ∷ rest) r ≡ accept rest (perform event false r)
unfolding accept consume
accept_behind m n event rest r lo hi h d =
    let zero_no : (m + 128 - n == 0) ≡ false = ground (arith, lo, hi) in
    let far : ltb (m + 128 - n) 64 ≡ false = ground (arith, lo, hi) in
    let some_way : ltb 0 (m + 128 - n) ≡ true = ground (arith, lo, hi) in
    rw (h, behind m n lo hi, zero_no, far, some_way, d) refl

accept-redelivered :
    (m n : ℕ) (events : List Event) (r : EventReader)
    → m + length events ≤ n
    → n ≤ m + 64
    → r.next_recv_event_seq ≡ n % 128
    → All IsDecodable events
    → ((accept (numbered m events) r).0 ≡ finished)
      × ((accept (numbered m events) r).1.next_recv_event_seq ≡ r.next_recv_event_seq)
      × (once_only (accept (numbered m events) r).1.calls ≡ once_only r.calls)
unfolding numbered
accept-redelivered m n [] r lo hi h all = rw (accept_nothing r) (refl, refl, refl)
accept-redelivered m n (event ∷ events) r lo hi h (d, all) =
    let same = perform_next event false r in
    let (fine, still, calls) =
      accept-redelivered (m + 1) n events (perform event false r) (omega (arith, lo))
        (omega (arith, hi)) (same ∙ h) all in
    let step = accept_behind m n event (numbered (m + 1) events) r (omega (arith, lo)) hi h d in
    rw step (fine, still ∙ same, calls ∙ perform_again event r)

early : (n k : ℕ) → k < 64 → ahead (n % 128 % 128) ((n + k) % 128) ≡ k
unfolding ahead
early n k h = omega (arith, h)

accept_early :
    (n k : ℕ) (event : Event) (rest : List (ℕ × Event)) (r : EventReader)
    → 0 < k
    → k < 64
    → r.next_recv_event_seq ≡ n % 128
    → accept (((n + k) % 128, event) ∷ rest) r ≡ (gap (n % 128) ((n + k) % 128), r)
unfolding accept
accept_early n k event rest r pos small h =
    let some_way : ltb 0 k ≡ true = ground (arith, pos) in
    let near : ltb k 64 ≡ true = ground (arith, small) in
    let twice : n % 128 % 128 ≡ n % 128 = omega arith in
    rw (h, early n k small, some_way, near, twice) refl

accept-lost :
    (n : ℕ) (lost : List Event) (event : Event) (events : List Event) (r : EventReader)
    → 0 < length lost
    → length lost < 64
    → r.next_recv_event_seq ≡ n % 128
    → All IsDecodable lost
    → All IsDecodable (event ∷ events)
    → (accept (numbered (n + length lost) (event ∷ events)) r
        ≡ (gap (n % 128) ((n + length lost) % 128), r))
      × (accept (numbered (n + length lost) (event ∷ events)) (accept (numbered n lost) r).1
          ≡ (finished, dispatch_all (event ∷ events) (dispatch_all lost r)))
unfolding numbered
accept-lost n lost event events r pos small h all all' = (
  accept_early n (length lost) event (numbered (n + length lost + 1) events) r pos small h,
  ap (λ p. accept (numbered (n + length lost) (event ∷ events)) p.1)
        (accept-dispatch_all n lost r h all)
      ∙ accept-dispatch_all (n + length lost) (event ∷ events) (dispatch_all lost r)
          (dispatched_next n lost r h) all',
)

held :
    (w : Option ℕ) (arrivals : List (ℕ × Event)) (r : EventReader) (s : BitStream)
    → Holds w arrivals s
    → (read_events w r s).0 ≡ accept arrivals r
held w arrivals r s h = read_events-accept r s h.rest h.section h.few h.no_error refl h.content

-- `read_events` on a packet of ordered events that come again, all within 64 numbers before the
-- expected one, reads the section to its end without a change of the expected number, and dispatches
-- no command and no connection message a second time. Conditions: the stream holds the section, of
-- fewer than 4096 events, and no event raises.
pub read_events-redelivered :
    (w : Option ℕ) (m n : ℕ) (events : List Event) (r : EventReader) (s : BitStream)
    → Holds w (numbered m events) s
    → m + length events ≤ n
    → n ≤ m + 64
    → r.next_recv_event_seq ≡ n % 128
    → All IsDecodable events
    → ((read_events w r s).0.0 ≡ finished)
      × ((read_events w r s).0.1.next_recv_event_seq ≡ r.next_recv_event_seq)
      × (once_only (read_events w r s).0.1.calls ≡ once_only r.calls)
read_events-redelivered w m n events r s holds lo hi h all =
    rw (held w (numbered m events) r s holds) (accept-redelivered m n events r lo hi h all)

-- A packet of 1 to 63 events is lost, and the packet of the events after them comes first:
-- `read_events` raises the gap error on it and changes nothing. Once the packet of the lost events has
-- been read, the later events, sent again, are read to the end of the section, and all events have
-- been dispatched in their order. Conditions: the streams hold the sections, no event raises, and the
-- manager waits for the first of the lost events.
pub read_events-lost :
    (w : Option ℕ) (n : ℕ) (lost : List Event) (event : Event) (events : List Event)
    (r : EventReader) (later first again : BitStream)
    → Holds w (numbered (n + length lost) (event ∷ events)) later
    → Holds w (numbered n lost) first
    → Holds w (numbered (n + length lost) (event ∷ events)) again
    → 0 < length lost
    → length lost < 64
    → r.next_recv_event_seq ≡ n % 128
    → All IsDecodable lost
    → All IsDecodable (event ∷ events)
    → ((read_events w r later).0 ≡ (gap (n % 128) ((n + length lost) % 128), r))
      × ((read_events w (read_events w (read_events w r later).0.1 first).0.1 again).0
          ≡ (finished, dispatch_all (event ∷ events) (dispatch_all lost r)))
read_events-lost w n lost event events r later first again here there back pos small h all all' =
    let (early_gap, in_order) = accept-lost n lost event events r pos small h all all' in
    let gone = held w _ r later here ∙ early_gap in
    (
      gone,
      ap (λ p. (read_events w (read_events w p.1 first).0.1 again).0) gone
          ∙ ap (λ p. (read_events w p.1 again).0) (held w _ r first there)
          ∙ held w _ _ again back
          ∙ in_order,
    )
