-- ===== src/Events/Receive/Tests.antt =====
-- aotbot/events.py: a queue with a connection message and a mission checksum, and the theorems at it.
use aot_headless_client.Base.{
  ℕ, ◌≡◌, refl, Bool, true, false, none, List, [], ◌∷◌, ◌++◌, arith, All,
}
use aot_headless_client.Base.Int.{pos}
use aot_headless_client.Base.Bytes.{bits_of}
use aot_headless_client.Base.Values.{int_bits}
use aot_headless_client.BitStream.{
  M, pure, ◌>>=◌, ◌>>◌, BitStream, new, open_on, get_bytes, write_flag, write_int, read_flag,
  read_int,
}
use aot_headless_client.BitStream.View.{Reads, Writes, Reads-bind, Reads-return, Writes-bind}
use aot_headless_client.BitStream.Ints.{Writes-int, Reads-int_bits}
use aot_headless_client.Events.{SendQueue, write_events}
use aot_headless_client.Events.StringTable.{empty_table}
use aot_headless_client.Events.Incoming.{
  Event, connection_message, discarded, read_one_event, read_connection_message_event,
  read_set_mission_crc_event,
}
use aot_headless_client.Events.Receive.{
  EventReader, finished, spent, gap, on_connection_message, raised, read_loop, read_events,
}
use aot_headless_client.Events.Receive.Section.{Section, Holds, last, next, accept}
use aot_headless_client.Events.Receive.Accepted.{read_loop-accept}
use aot_headless_client.Events.Receive.Order.{numbered, dispatch_all, IsDecodable}
use aot_headless_client.Events.Receive.Redelivery.{
  once_only, read_events-redelivered, read_events-lost,
}
use aot_headless_client.Events.Receive.Fuel.{read_events_suffices}
use aot_headless_client.Events.Receive.Transport.{
  fresh, Sendable, nothing, followed, read_events-write_events,
}

abbrev reader : EventReader
reader = record { next_recv_event_seq = 126; recv_table = empty_table; calls = [] }

abbrev message_writer : M (Unit {0})
message_writer = do write_int (pos 900) 32; write_int (pos 2) 3; write_int (pos 77) 15

abbrev queue : SendQueue
queue = record {
  out_queue = fresh 0 message_writer ∷ fresh 8 (write_int (pos 5) 32) ∷ [];
  next_send_seq = 126;
}

abbrev events : List Event
events = connection_message 2 900 77 ∷ discarded ∷ []

abbrev checksum : List Bool
checksum = int_bits 32 5

message_out :
    Writes none message_writer (int_bits 32 900 ++ (int_bits 3 2 ++ int_bits 15 77)) tt none
message_out =
    Writes-bind _ (Writes-int none (pos 900) 32)
      (Writes-bind _ (Writes-int none (pos 2) 3) (Writes-int none (pos 77) 15))

message_in :
    Reads none
      (read_one_event none 0)
      (int_bits 32 900 ++ (int_bits 3 2 ++ int_bits 15 77))
      (connection_message 2 900 77)
      none
unfolding read_one_event read_connection_message_event
message_in = Reads-bind _ (Reads-int_bits none 32 900 (omega arith)) (
    Reads-bind _ (Reads-int_bits none 3 2 (omega arith))
      (Reads-return _ (Reads-int_bits none 15 77 (omega arith))))

checksum_in : Reads none (read_one_event none 8) checksum discarded none
unfolding read_one_event read_set_mission_crc_event
checksum_in = Reads-return (λ v. discarded) (Reads-int_bits none 32 5 (omega arith))

sendable : Sendable none queue.out_queue events
sendable =
    followed (omega arith) message_out message_in
      (followed (omega arith) (Writes-int none (pos 5) 32) checksum_in nothing)

decodable : All IsDecodable events
unfolding raised
decodable = (refl, (refl, tt))

read_events-write_events_example :
    (read_events none reader (open_on (get_bytes (write_events 3 queue new).1))).0
    ≡ (finished, dispatch_all events reader)
read_events-write_events_example =
    read_events-write_events 3 queue reader sendable decodable (omega arith) refl

abbrev wire : List Bool
wire = true ∷ ((false ∷ int_bits 7 126) ++ (int_bits 4 8 ++ (checksum ++ (false ∷ []))))

section : Section none none ((126, discarded) ∷ []) wire
section = next (omega arith) (omega arith) checksum_in last

abbrev packet : BitStream
packet = open_on (249 ∷ 177 ∷ 0 ∷ 0 ∷ 0 ∷ 0 ∷ [])

read_loop-accept_example :
    (read_loop none 9 false 127 reader packet).0 ≡ accept ((126, discarded) ∷ []) reader
unfolding open_on bits_of
read_loop-accept_example =
    read_loop-accept 9 127 reader packet (false ∷ false ∷ []) section (omega arith) refl refl refl

-- Packets with one event each, numbered 126 and 127.
abbrev first_packet : BitStream
first_packet = open_on (242 ∷ 99 ∷ 1 ∷ 0 ∷ 0 ∷ 0 ∷ [])

abbrev next_packet : BitStream
next_packet = open_on (250 ∷ 99 ∷ 1 ∷ 0 ∷ 0 ∷ 0 ∷ [])

abbrev wire_of : ℕ → List Bool
wire_of seq = true ∷ ((false ∷ int_bits 7 seq) ++ (int_bits 4 8 ++ (checksum ++ (false ∷ []))))

abbrev waiting : ℕ → EventReader
waiting seq = record { next_recv_event_seq = seq; recv_table = empty_table; calls = [] }

first-Holds : Holds none (numbered 126 (discarded ∷ [])) first_packet
unfolding numbered open_on bits_of
first-Holds = record {
  bits = wire_of 126;
  rest = false ∷ [];
  section = next (omega arith) (omega arith) checksum_in last;
  few = omega arith;
  no_error = refl;
  content = refl;
}

next-Holds : Holds none (numbered 127 (discarded ∷ [])) next_packet
unfolding numbered open_on bits_of
next-Holds = record {
  bits = wire_of 127;
  rest = false ∷ [];
  section = next (omega arith) (omega arith) checksum_in last;
  few = omega arith;
  no_error = refl;
  content = refl;
}

-- A packet with a connection message, numbered 127.
abbrev message_packet : BitStream
message_packet = open_on (250 ∷ 3 ∷ 225 ∷ 0 ∷ 0 ∷ 128 ∷ 154 ∷ 0 ∷ 0 ∷ [])

abbrev message : Event
message = connection_message 2 900 77

message-Holds : Holds none (numbered 127 (message ∷ [])) message_packet
unfolding numbered open_on bits_of
message-Holds = record {
  bits =
      true
      ∷ ((false ∷ int_bits 7 127)
          ++ (int_bits 4 0
              ++ ((int_bits 32 900 ++ (int_bits 3 2 ++ int_bits 15 77)) ++ (false ∷ []))));
  rest = false ∷ false ∷ false ∷ false ∷ false ∷ false ∷ false ∷ [];
  section = next (omega arith) (omega arith) message_in last;
  few = omega arith;
  no_error = refl;
  content = refl;
}

read_events-redelivered_example :
    ((read_events none (waiting 0) message_packet).0.0 ≡ finished)
    × ((read_events none (waiting 0) message_packet).0.1.next_recv_event_seq ≡ 0)
    × (once_only (read_events none (waiting 0) message_packet).0.1.calls ≡ once_only [])
unfolding raised
read_events-redelivered_example =
    read_events-redelivered none 127 128 (message ∷ []) (waiting 0) message_packet message-Holds
      (omega arith) (omega arith) refl (refl, tt)

read_events-lost_example :
    ((read_events none (waiting 126) next_packet).0 ≡ (gap 126 127, waiting 126))
    × ((read_events none
          (read_events none (read_events none (waiting 126) next_packet).0.1 first_packet).0.1
          next_packet).0
        ≡ (finished, dispatch_all (discarded ∷ []) (dispatch_all (discarded ∷ []) (waiting 126))))
unfolding raised
read_events-lost_example =
    read_events-lost none 126 (discarded ∷ []) discarded [] (waiting 126) next_packet first_packet
      next_packet next-Holds first-Holds next-Holds (omega arith) (omega arith) refl (refl, tt)
      (refl, tt)

read_events_suffices_example : ¬ ((read_events none reader packet).0.0 ≡ spent)
unfolding open_on
read_events_suffices_example = read_events_suffices none reader packet (omega arith)

-- A connection message goes from the queue to the hook.
message_arrives :
    (read_events none reader (open_on (get_bytes (write_events 3 queue new).1))).0.1.calls
    ≡ on_connection_message 2 900 77 ∷ []
unfolding read_events ◌>>=◌ read_flag open_on get_bytes write_events write_flag write_int new
    read_int pure read_one_event read_connection_message_event read_set_mission_crc_event
message_arrives = refl
