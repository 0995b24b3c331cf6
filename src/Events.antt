-- ===== src/Events.antt =====
-- aotbot/events.py: the queue of outgoing events of `EventManager`, and the packed integers of a remote
-- command. A payload writer is a writer of the bit stream; one that queues events while it writes (a
-- tagged argument) is not modelled.
pub mod Teaching
pub mod Queue
pub mod Packed
pub mod StringTable
pub mod Incoming
pub mod Receive
pub mod Tests
use aot_headless_client.Base.{
  ℕ, zero, suc, ◌+◌, ◌%◌, Bool, true, false, not, ◌||◌, Option, none, some, List, [], ◌∷◌, ◌++◌,
  ltb, ◌==◌, if◌then◌else◌,
}
use aot_headless_client.Base.Int.{ℤ, pos, negsuc, neg, is_neg}
use aot_headless_client.BitStream.{
  BitStream, M, pure, ◌>>=◌, ◌>>◌, write_flag, read_flag, write_int, read_int,
}
use aot_headless_client.BitStream.Signed.{magnitude}
use aot_headless_client.BitStream.Strings.{read_string}

-- `seq` and `sent_in_packet` are -1 in the source where they are `none` here.
pub record PendingEvent : Type 0 where
  pub classid : ℕ
  pub payload_writer : M (Unit {0})
  pub seq : Option ℕ
  pub sent_in_packet : Option ℕ

pub record SendQueue : Type 0 where
  pub out_queue : List PendingEvent
  pub next_send_seq : ℕ

abbrev pub event_seq_bits : ℕ
event_seq_bits = 7

abbrev pub net_class_bits_event : ℕ
net_class_bits_event = 4

-- `_enqueue`, without the request to send.
unfoldable pub enqueue : ℕ → M (Unit {0}) → SendQueue → SendQueue
enqueue classid payload_writer q = record q {
  out_queue =
      q.out_queue
      ++ (record {
        classid = classid;
        payload_writer = payload_writer;
        seq = none;
        sent_in_packet = none;
      }
          ∷ []);
}

abbrev pub unsent : Option ℕ → Bool
unsent none = true
unsent (some n) = false

abbrev pub is_unsent : PendingEvent → Bool
is_unsent ev = unsent ev.sent_in_packet

unfoldable pub any_unsent : List PendingEvent → Bool
any_unsent [] = false
any_unsent (ev ∷ evs) = is_unsent ev || any_unsent evs

unfoldable pub has_pending_events : SendQueue → Bool
unfolding any_unsent
has_pending_events q = any_unsent q.out_queue

-- The number that an event has, or gets, and the next number to give out.
unfoldable pub assign : Option ℕ → ℕ → ℕ × ℕ
assign none next = (next % 128, (next + 1) % 128)
assign (some seq) next = (seq, next)

-- One event on the wire: present, no shortcut, the number, the class and the payload.
unfoldable pub write_event : ℕ → PendingEvent → M (Unit {0})
write_event seq ev = do
  write_flag true
  write_flag false
  write_int (pos seq) event_seq_bits
  write_int (pos ev.classid) net_class_bits_event
  ev.payload_writer

-- `for ev in self._out_queue`: the events with their marks, the next number, and the stream.
unfoldable pub write_queue :
    ℕ → List PendingEvent → ℕ → BitStream → (List PendingEvent × ℕ) × BitStream
unfolding assign write_event
write_queue current [] next s = (([], next), s)
write_queue current (ev ∷ evs) next s =
    let (seq, after) = assign ev.seq next in
    let s1 = if is_unsent ev then (write_event seq ev s).1 else s in
    let ((rest, last), s2) = write_queue current evs after s1 in
    let kept = if is_unsent ev then some current else ev.sent_in_packet in
    ((record ev { seq = some seq; sent_in_packet = kept } ∷ rest, last), s2)

unfoldable pub write_events : ℕ → SendQueue → BitStream → SendQueue × BitStream
unfolding write_queue
write_events current q s =
    let ((evs, next), s1) =
      write_queue current q.out_queue q.next_send_seq (write_flag false s).1 in
    (record { out_queue = evs; next_send_seq = next }, (write_flag false (write_flag false s1).1).1)

abbrev pub sent_in : ℕ → Option ℕ → Bool
sent_in send_seq none = false
sent_in send_seq (some n) = n == send_seq

abbrev pub rode : ℕ → PendingEvent → Bool
rode send_seq ev = sent_in send_seq ev.sent_in_packet

-- On delivery the events that rode the packet go; on loss they are to be sent again.
unfoldable pub settle : ℕ → Bool → List PendingEvent → List PendingEvent
settle send_seq delivered [] = []
settle send_seq delivered (ev ∷ evs) =
    let rest = settle send_seq delivered evs in
    if rode send_seq ev
    then (if delivered then rest else record ev { sent_in_packet = none } ∷ rest)
    else ev ∷ rest

unfoldable pub notify_event_delivered : ℕ → Bool → SendQueue → SendQueue
unfolding settle
notify_event_delivered send_seq delivered q = record q {
  out_queue = settle send_seq delivered q.out_queue;
}

-- `_write_integer`: the tag 3, the sign and the least of three widths.
unfoldable pub write_magnitude : ℕ → M (Unit {0})
write_magnitude mag = write_flag (ltb mag 128) >>= λ small.
    if small
    then write_int (pos mag) 7
    else write_flag (ltb mag 32768) >>= λ middle.
        if middle then write_int (pos mag) 15 else write_int (pos mag) 31

unfoldable pub write_integer : ℤ → M (Unit {0})
unfolding write_magnitude
write_integer num = do write_int (pos 3) 2; write_flag (is_neg num); write_magnitude (magnitude num)

-- What `unpack_string` returns: the empty string, a string, a tagged literal by its slot, or a number.
pub data Unpacked : Type 0 where
  empty_string : Unpacked
  cstring : List ℕ → Unpacked
  tag_string : ℕ → Unpacked
  integer : ℤ → Unpacked

unfoldable pub read_magnitude : M ℕ
read_magnitude = read_flag >>= λ small.
    if small
    then read_int 7
    else read_flag >>= λ middle. if middle then read_int 15 else read_int 31

unfoldable pub unpack_string : M Unpacked
unfolding read_magnitude
unpack_string = read_int 2 >>= λ tag.
    if tag == 0
    then pure empty_string
    else if tag == 1
    then (read_string >>= λ bytes. pure (cstring bytes))
    else if tag == 2
    then (read_int 5 >>= λ slot. pure (tag_string slot))
    else read_flag >>= λ negative.
        read_magnitude >>= λ mag. pure (integer (if negative then neg (pos mag) else pos mag))
