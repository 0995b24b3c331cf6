-- ===== src/Phases/Messages.antt =====
-- aotbot/phases.py: the payload that `_send_connection_message` queues, and the reader that takes it.
use aot_headless_client.Base.{ℕ, ◌%◌, ◌^◌, ◌≡◌, Bool, false, Option, none, List, ◌++◌, arith}
use aot_headless_client.Base.Int.{pos}
use aot_headless_client.BitStream.{M, ◌>>◌, new, open_on, get_bytes, write_int}
use aot_headless_client.BitStream.View.{Reads, Writes, Reads-bind, Reads-return, Writes-bind}
use aot_headless_client.BitStream.Appended.{transmit}
use aot_headless_client.BitStream.Fields.{field_bits, Writes-field, Reads-field}
use aot_headless_client.Events.Incoming.{
  connection_message, read_connection_message_event, read_one_event,
}

unfoldable pub write_connection_message : ℕ → ℕ → ℕ → M (Unit {0})
write_connection_message message sequence ghost_count = do
  write_int (pos sequence) 32
  write_int (pos message) 3
  write_int (pos ghost_count) 15

message_bits : ℕ → ℕ → ℕ → List Bool
message_bits message sequence ghost_count =
    field_bits 32 sequence ++ (field_bits 3 message ++ field_bits 15 ghost_count)

Writes-connection_message :
    (message sequence ghost_count : ℕ)
    → Writes none
        (write_connection_message message sequence ghost_count)
        (message_bits message sequence ghost_count)
        tt
        none
unfolding write_connection_message message_bits
Writes-connection_message message sequence ghost_count =
    Writes-bind _ (Writes-field 32 sequence)
      (Writes-bind _ (Writes-field 3 message) (Writes-field 15 ghost_count))

Reads-connection_message :
    (w : Option ℕ) (message sequence ghost_count : ℕ)
    → Reads none
        (read_one_event w 0)
        (message_bits message sequence ghost_count)
        (connection_message (message % 2 ^ 3) (sequence % 2 ^ 32) (ghost_count % 2 ^ 15))
        none
unfolding read_one_event read_connection_message_event message_bits
Reads-connection_message w message sequence ghost_count =
    Reads-bind _ (Reads-field 32 sequence (omega arith)) (
      Reads-bind _ (Reads-field 3 message (omega arith))
        (Reads-return _ (Reads-field 15 ghost_count (omega arith))))

-- The reader of events takes the payload that is written for a connection message as this message,
-- without an error: the low 3 bits of its kind, the low 32 of the sequence and the low 15 of the count
-- of ghosts.
pub read_one_event-write_connection_message :
    (w : Option ℕ) (message sequence ghost_count : ℕ)
    → ((read_one_event w 0
          (open_on (get_bytes (write_connection_message message sequence ghost_count new).1))).0
        ≡ connection_message (message % 2 ^ 3) (sequence % 2 ^ 32) (ghost_count % 2 ^ 15))
      × ((read_one_event w 0 (
            open_on
              (get_bytes (write_connection_message message sequence ghost_count new).1))).1.error
          ≡ false)
read_one_event-write_connection_message w message sequence ghost_count =
    let (got, moved, fine) =
      transmit (Writes-connection_message message sequence ghost_count)
        (Reads-connection_message w message sequence ghost_count) in
    (got, fine)
