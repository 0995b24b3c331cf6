-- ===== src/Events/Receive.antt =====
-- aotbot/events.py: `read_events`, which reads the event section of a packet and filters the ordered events.
-- The manager's state is the next ordered number, the table of received strings and the calls that it has
-- made out. A handler that raises is caught by the source, so a call is only recorded here, as if each hook
-- were set; what `detag` makes of the arguments depends on the table that a call records. `detag` itself is left
-- out, and with it the `ValueError` that it raises before the call for a tag of non-decimal digits.
pub mod Section
pub mod Fuel
pub mod Accepted
pub mod Order
pub mod Redelivery
pub mod Transport
pub mod Tests
use aot_headless_client.Base.{
  ℕ, zero, suc, ◌+◌, ◌-◌, ◌%◌, Bool, true, false, not, ◌&&◌, Option, none, some, List, [], ◌∷◌,
  ◌++◌, ltb, ◌==◌, if◌then◌else◌,
}
use aot_headless_client.BitStream.{BitStream, M, pure, ◌>>=◌, read_flag, read_int}
use aot_headless_client.Events.{Unpacked, event_seq_bits, net_class_bits_event}
use aot_headless_client.Events.StringTable.{StringTable, map_string}
use aot_headless_client.Events.Incoming.{
  Event, net_string, remote_command, connection_message, ghost_always, datablock, discarded,
  undecodable, read_one_event,
}

-- What the manager calls: a command's handler, the hook of connection messages, the hook of scoped ghosts.
pub data Call : Type 0 where
  dispatch_command : Unpacked → List Unpacked → StringTable → Call
  on_connection_message : ℕ → ℕ → ℕ → Call
  on_ghost_scoped : ℕ → ℕ → Call

pub record EventReader : Type 0 where
  pub next_recv_event_seq : ℕ
  pub recv_table : StringTable
  pub calls : List Call

-- How `read_events` ends: at the end of the section, past the end of the stream, after 4096 rounds, by
-- `EventSequenceGapError`, or by `EventDecodeError`.
pub data Outcome : Type 0 where
  finished : Outcome
  overrun : Outcome
  spent : Outcome
  gap : ℕ → ℕ → Outcome
  decode_error : ℕ → Outcome

abbrev pub call : Call → EventReader → EventReader
call c r = record r { calls = r.calls ++ (c ∷ []) }

command : Bool → List Unpacked → EventReader → EventReader
command true (verb ∷ args) r = call (dispatch_command verb args r.recv_table) r
command true [] r = r
command false argv r = r

message_call : Bool → ℕ → ℕ → ℕ → EventReader → EventReader
message_call true message sequence ghost_count r =
    call (on_connection_message message sequence ghost_count) r
message_call false message sequence ghost_count r = r

-- What is done with an event; with `dispatch` off it is only what may run twice.
unfoldable pub perform : Event → Bool → EventReader → EventReader
unfolding command message_call
perform (net_string index text) dispatch r = record r {
  recv_table = map_string index text r.recv_table;
}
perform (remote_command argv) dispatch r = command dispatch argv r
perform (connection_message message sequence ghost_count) dispatch r =
    message_call dispatch message sequence ghost_count r
perform (ghost_always ghost_id class_id decoded) dispatch r =
    call (on_ghost_scoped ghost_id class_id) r
perform (datablock db_id class_id decoded) dispatch r = r
perform discarded dispatch r = r
perform (undecodable classid) dispatch r = r

-- The class id of the `EventDecodeError` that the event raises, if it does.
unfoldable pub raised : Event → Option ℕ
raised (ghost_always ghost_id class_id decoded) = if decoded then none else some 3
raised (datablock db_id class_id decoded) = if decoded then none else some 11
raised (undecodable classid) = some classid
raised (net_string index text) = none
raised (remote_command argv) = none
raised (connection_message message sequence ghost_count) = none
raised discarded = none

get_error : M Bool
get_error s = (s.error, s)

-- `(seq - expected) & EVENT_SEQ_MASK`, for numbers below 128.
unfoldable pub ahead : ℕ → ℕ → ℕ
ahead expected seq = (seq + 128 - expected) % 128

-- The number is counted as consumed once the payload is read.
unfoldable pub consume : Bool → EventReader → EventReader
consume true r = record r { next_recv_event_seq = (r.next_recv_event_seq + 1) % 128 }
consume false r = r

-- The rest of the section, in the phase, after the number before, with the manager as it then is.
abbrev pub Rest : Type 0
Rest = Bool → ℕ → EventReader → M (Outcome × EventReader)

after_event : Option ℕ → Bool → EventReader → M (Outcome × EventReader) → M (Outcome × EventReader)
after_event (some classid) error r more = pure (decode_error classid, r)
after_event none error r more = if error then pure (overrun, r) else more

-- The class id and the payload of an event; `counted` is whether the number is then consumed.
unfoldable pub take_event :
    Option ℕ
    → Bool
    → Bool
    → EventReader
    → (EventReader → M (Outcome × EventReader))
    → M (Outcome × EventReader)
unfolding perform raised get_error consume after_event
take_event wheel_count dispatch counted r more = do
  classid ← read_int net_class_bits_event
  event ← read_one_event wheel_count classid
  error ← get_error
  after_event (raised event) error (perform event dispatch r)
      (more (consume counted (perform event dispatch r)))

-- The number of an ordered event: one more than the one before, or 7 bits.
unfoldable pub read_seq : ℕ → M ℕ
read_seq prev = do
  shortcut ← read_flag
  if shortcut then pure ((prev + 1) % 128) else read_int event_seq_bits

-- The filter of ordered events, for a number `rel` ahead of the expected one.
unfoldable pub filter :
    Option ℕ
    → ℕ
    → EventReader
    → (EventReader → M (Outcome × EventReader))
    → M (Outcome × EventReader)
unfolding take_event ahead
filter wheel_count seq r more =
    let rel = ahead (r.next_recv_event_seq % 128) seq in
    if ltb 0 rel && ltb rel 64
    then pure (gap (r.next_recv_event_seq % 128) seq, r)
    else take_event wheel_count (rel == 0) (rel == 0) r more

unfoldable pub ordered_event : Option ℕ → ℕ → EventReader → Rest → M (Outcome × EventReader)
unfolding read_seq filter get_error
ordered_event wheel_count prev r more = do
  seq ← read_seq prev
  error ← get_error
  if error then pure (overrun, r) else filter wheel_count seq r (more false seq)

-- The second half of a round, in the ordered phase.
unfoldable pub ordered_round : Option ℕ → ℕ → EventReader → Rest → M (Outcome × EventReader)
unfolding ordered_event get_error
ordered_round wheel_count prev r more = do
  bit ← read_flag
  error ← get_error
  if error
      then pure (overrun, r)
      else if bit
      then ordered_event wheel_count prev r more
      else pure (finished, r)

unfoldable pub unordered_round : Option ℕ → ℕ → EventReader → Rest → M (Outcome × EventReader)
unfolding ordered_round take_event get_error
unordered_round wheel_count prev r more = do
  bit ← read_flag
  error ← get_error
  if error
      then pure (overrun, r)
      else if bit
      then take_event wheel_count true false r (more true prev)
      else ordered_round wheel_count prev r more

-- `for _ in range(4096)`, with `left` rounds to go; `prev` is the number before, 127 at first.
unfoldable pub read_loop : Option ℕ → ℕ → Bool → ℕ → EventReader → M (Outcome × EventReader)
unfolding ordered_round unordered_round
read_loop wheel_count zero phase prev r = pure (spent, r)
read_loop wheel_count (suc left) true prev r =
    unordered_round wheel_count prev r (read_loop wheel_count left)
read_loop wheel_count (suc left) false prev r =
    ordered_round wheel_count prev r (read_loop wheel_count left)

unfoldable pub read_events : Option ℕ → EventReader → M (Outcome × EventReader)
unfolding read_loop
read_events wheel_count r = read_loop wheel_count 4096 true 127 r
