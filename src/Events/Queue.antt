-- ===== src/Events/Queue.antt =====
-- aotbot/events.py: what `write_events` and `notify_event_delivered` do to the queue of outgoing events.
use aot_headless_client.Base.{
  ℕ, ◌≡◌, refl, ap, ◌∙◌, inl, inr, true, false, Option, none, some, List, [], ◌∷◌, map,
  if◌then◌else◌, All, Bool-cases,
}
use aot_headless_client.Base.Tests.{==-refl}
use aot_headless_client.BitStream.{BitStream, M, write_flag}
use aot_headless_client.Events.{
  PendingEvent, SendQueue, unsent, is_unsent, any_unsent, has_pending_events, assign, write_event,
  write_queue, write_events, sent_in, rode, settle, notify_event_delivered,
}

-- What an event says, apart from its marks.
abbrev pub content : PendingEvent → ℕ × M (Unit {0})
content ev = (ev.classid, ev.payload_writer)

-- The queue once it was written into packet `current`.
written_queue : ℕ → List PendingEvent → ℕ → BitStream → List PendingEvent
written_queue current evs next s = (write_queue current evs next s).0.0

marked-unsent :
    (current : ℕ) (mark : Option ℕ) → unsent (if unsent mark then some current else mark) ≡ false
marked-unsent current none = refl
marked-unsent current (some n) = refl

any_unsent-written :
    (current : ℕ) (evs : List PendingEvent) (next : ℕ) (s : BitStream)
    → any_unsent (written_queue current evs next s) ≡ false
unfolding written_queue write_queue any_unsent
any_unsent-written current [] next s = refl
any_unsent-written current (ev ∷ evs) next s =
    let s1 = if is_unsent ev then (write_event (assign ev.seq next).0 ev s).1 else s in
    rw (marked-unsent current ev.sent_in_packet)
      (any_unsent-written current evs (assign ev.seq next).1 s1)

-- After `write_events` no event of the queue waits to be sent.
pub write_events-all :
    (current : ℕ) (q : SendQueue) (s : BitStream)
    → has_pending_events (write_events current q s).0 ≡ false
unfolding write_events has_pending_events written_queue
write_events-all current q s =
    any_unsent-written current q.out_queue q.next_send_seq (write_flag false s).1

content-written :
    (current : ℕ) (evs : List PendingEvent) (next : ℕ) (s : BitStream)
    → map content (written_queue current evs next s) ≡ map content evs
unfolding written_queue write_queue
content-written current [] next s = refl
content-written current (ev ∷ evs) next s =
    let s1 = if is_unsent ev then (write_event (assign ev.seq next).0 ev s).1 else s in
    ap (λ t. content ev ∷ t) (content-written current evs (assign ev.seq next).1 s1)

content-settle :
    (n : ℕ) (evs : List PendingEvent) → map content (settle n false evs) ≡ map content evs
unfolding settle
content-settle n [] = refl
content-settle n (ev ∷ evs) = elim (Bool-cases (rode n ev)) [
  | inl t ↦ rw t (ap (λ t. content ev ∷ t) (content-settle n evs))
  | inr t ↦ rw t (ap (λ t. content ev ∷ t) (content-settle n evs))
]

-- Writing a packet and then losing any packet takes no event out of the queue, and changes neither the
-- order nor what the events say.
pub events_kept :
    (current n : ℕ) (q : SendQueue) (s : BitStream)
    → map content (notify_event_delivered n false (write_events current q s).0).out_queue
      ≡ map content q.out_queue
unfolding write_events notify_event_delivered written_queue
events_kept current n q s =
    content-settle n (written_queue current q.out_queue q.next_send_seq (write_flag false s).1)
    ∙ content-written current q.out_queue q.next_send_seq (write_flag false s).1

-- The events that an earlier packet carries.
unfoldable pub flying : List PendingEvent → List PendingEvent
flying [] = []
flying (ev ∷ evs) = if is_unsent ev then flying evs else ev ∷ flying evs

-- One event: written into packet `current` it rode it exactly if it waited.
marked-rode :
    (current : ℕ) (mark : Option ℕ)
    → sent_in current mark ≡ false
    → sent_in current (if unsent mark then some current else mark) ≡ unsent mark
marked-rode current none h = ==-refl current
marked-rode current (some n) h = h

content-delivered :
    (current : ℕ) (evs : List PendingEvent) (next : ℕ) (s : BitStream)
    → All (λ ev. rode current ev ≡ false) evs
    → map content (settle current true (written_queue current evs next s))
      ≡ map content (flying evs)
unfolding written_queue write_queue settle flying
content-delivered current [] next s h = refl
content-delivered current (ev ∷ evs) next s (h, hs) =
    let (seq, after) = assign ev.seq next in
    rw (marked-rode current ev.sent_in_packet h) (elim (Bool-cases (is_unsent ev)) [
      | inl t ↦ rw t (content-delivered current evs after (write_event seq ev s).1 hs)
      | inr t ↦ rw t (ap (λ t. content ev ∷ t) (content-delivered current evs after s hs))
    ])

-- If the packet that took the waiting events is delivered, exactly these events leave the queue; those
-- that an earlier packet carries stay, in their order. Condition: no event of the queue was marked
-- with the packet's number before.
pub delivered_leave :
    (current : ℕ) (q : SendQueue) (s : BitStream)
    → All (λ ev. rode current ev ≡ false) q.out_queue
    → map content (notify_event_delivered current true (write_events current q s).0).out_queue
      ≡ map content (flying q.out_queue)
unfolding write_events notify_event_delivered written_queue
delivered_leave current q s h =
    content-delivered current q.out_queue q.next_send_seq (write_flag false s).1 h

-- One event of `resent`, by its mark; `rest` is the statement for the events behind it.
resent_step :
    (current later : ℕ) (ev : PendingEvent) (mark : Option ℕ) (evs : List PendingEvent)
    (next next' : ℕ) (s t : BitStream)
    → sent_in current mark ≡ false
    → ((s' t' : BitStream)
        → (write_queue later
            (settle current false (written_queue current evs (assign ev.seq next).1 s'))
            next'
            t').1
          ≡ (write_queue current evs (assign ev.seq next).1 t').1)
    → (write_queue later
        (settle current false
          (written_queue current (record ev { sent_in_packet = mark } ∷ evs) next s))
        next'
        t).1
      ≡ (write_queue current (record ev { sent_in_packet = mark } ∷ evs) next t).1
unfolding written_queue write_queue settle assign
resent_step current later ev none evs next next' s t h rest =
    let seq = (assign ev.seq next).0 in
    rw (==-refl current) (rest (write_event seq ev s).1 (write_event seq ev t).1)
resent_step current later ev (some n) evs next next' s t h rest = rw h (rest s t)

resent :
    (current later : ℕ) (evs : List PendingEvent) (next next' : ℕ) (s t : BitStream)
    → All (λ ev. rode current ev ≡ false) evs
    → (write_queue later (settle current false (written_queue current evs next s)) next' t).1
      ≡ (write_queue current evs next t).1
unfolding written_queue write_queue settle assign
resent current later [] next next' s t h = refl
resent current later (ev ∷ evs) next next' s t (h, hs) =
    resent_step current later ev ev.sent_in_packet evs next next' s t h
      (λ s' t'. resent current later evs (assign ev.seq next).1 next' s' t' hs)

-- If the packet that took the waiting events is lost, the next packet's event section is bit for bit
-- the one of the lost packet, written on the same stream, so that each event keeps its number.
-- Condition: no event of the queue was marked with the number of the lost packet before.
pub write_events-again :
    (current later : ℕ) (q : SendQueue) (s t : BitStream)
    → All (λ ev. rode current ev ≡ false) q.out_queue
    → (write_events later (notify_event_delivered current false (write_events current q s).0) t).1
      ≡ (write_events current q t).1
unfolding write_events notify_event_delivered written_queue
write_events-again current later q s t h =
    ap (λ (o : BitStream). (write_flag false (write_flag false o).1).1)
      (resent current later q.out_queue q.next_send_seq
        (write_queue current q.out_queue q.next_send_seq (write_flag false s).1).0.1
        (write_flag false s).1 (write_flag false t).1 h)
