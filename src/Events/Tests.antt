-- ===== src/Events/Tests.antt =====
-- aotbot/events.py: a queue with one event in flight and one that waits, and the theorems at it.
use aot_headless_client.Base.{some, replicate, take, false}
use aot_headless_client.BitStream.{◌>>◌, open_on, get_bytes}
use aot_headless_client.BitStream.Strings.{set_string_buffer, latin1}
use aot_headless_client.Events.Incoming.{net_string, read_one_event}
use aot_headless_client.Events.Teaching.{write_net_string, read_one_event-write_net_string}
use aot_headless_client.Base.{◌≡◌, refl, true, false, none, some, [], ◌∷◌, map, arith, All}
use aot_headless_client.Base.Int.{pos, negsuc}
use aot_headless_client.BitStream.{
  pure, ◌>>=◌, new, open_on, get_bytes, write_flag, read_flag, write_int, read_int,
}
use aot_headless_client.Events.{
  SendQueue, write_events, rode, notify_event_delivered, write_integer, unpack_string, integer,
}
use aot_headless_client.Events.Packed.{unpack_string-write_integer}
use aot_headless_client.Events.Queue.{
  content, flying, events_kept, delivered_leave, write_events-again,
}
use aot_headless_client.Events.StringTable.{empty_table, map_string, get_send_id}
use aot_headless_client.Events.StringTable.Agreement.{
  IsBounded, empty-IsBounded, IsAgreed, taught, get_send_id-IsAgreed,
}
use aot_headless_client.Events.StringTable.Mapping.{
  IsMapping, empty-IsMapping, map_string-IsMapping, get_send_id-IsMapping,
}

abbrev sample : SendQueue
sample = record {
  out_queue =
      record {
        classid = 11;
        payload_writer = write_int (pos 9) 5;
        seq = some 0;
        sent_in_packet = some 4;
      }
      ∷ record {
        classid = 14;
        payload_writer = write_int (pos 3) 5;
        seq = none;
        sent_in_packet = none;
      }
      ∷ [];
  next_send_seq = 1;
}

sample-new : All (λ ev. rode 5 ev ≡ false) sample.out_queue
sample-new = (refl, (refl, tt))

events_kept_example :
    map content (notify_event_delivered 5 false (write_events 5 sample new).0).out_queue
    ≡ map content sample.out_queue
events_kept_example = events_kept 5 5 sample new

delivered_leave_example :
    map content (notify_event_delivered 5 true (write_events 5 sample new).0).out_queue
    ≡ map content (flying sample.out_queue)
delivered_leave_example = delivered_leave 5 sample new sample-new

write_events-again_example :
    (write_events 6 (notify_event_delivered 5 false (write_events 5 sample new).0) new).1
    ≡ (write_events 5 sample new).1
write_events-again_example = write_events-again 5 6 sample new new sample-new

unpack_string-write_integer_example :
    ((unpack_string (open_on (get_bytes (write_integer (negsuc 299) new).1))).0
      ≡ integer (negsuc 299))
    × ((unpack_string (open_on (get_bytes (write_integer (negsuc 299) new).1))).1.error ≡ false)
unpack_string-write_integer_example = unpack_string-write_integer (negsuc 299) (omega arith)

-- The least integer that `pack_string` sends in this form does not come back: its magnitude has 32 bits.
least_integer :
    (unpack_string (open_on (get_bytes (write_integer (negsuc 2147483647) new).1))).0
    ≡ integer (pos 0)
unfolding unpack_string write_integer new open_on get_bytes pure ◌>>=◌ write_flag read_flag
    write_int read_int
least_integer = refl

map_string-IsMapping_example : IsMapping (map_string 37 (1 ∷ 2 ∷ []) empty_table)
map_string-IsMapping_example = map_string-IsMapping 37 (1 ∷ 2 ∷ []) empty_table empty-IsMapping

get_send_id-IsMapping_example :
    IsMapping (get_send_id (5 ∷ []) empty_table).1
    × ((get_send_id (5 ∷ []) empty_table).1.slot_to_str (get_send_id (5 ∷ []) empty_table).0.0
        ≡ some (5 ∷ []))
get_send_id-IsMapping_example = get_send_id-IsMapping (5 ∷ []) empty_table empty-IsMapping

get_send_id-IsAgreed_example :
    IsBounded (get_send_id (5 ∷ []) empty_table).1
    × IsAgreed
        (get_send_id (5 ∷ []) empty_table).1
        (taught (get_send_id (5 ∷ []) empty_table).0 (5 ∷ []) empty_table)
get_send_id-IsAgreed_example =
    get_send_id-IsAgreed (5 ∷ []) empty_table empty_table empty-IsBounded
      (record { same = λ k. refl })

read_one_event-write_net_string_example :
    (((set_string_buffer (some (replicate 256 0)) >> read_one_event none 5) (
        open_on (
          get_bytes
            ((set_string_buffer (some (replicate 256 0)) >> write_net_string 9 (104 ∷ 105 ∷ []))
              new).1))).0
      ≡ net_string 9 (take 255 (latin1 (104 ∷ 105 ∷ []))))
    × (((set_string_buffer (some (replicate 256 0)) >> read_one_event none 5) (
          open_on (
            get_bytes
              ((set_string_buffer (some (replicate 256 0)) >> write_net_string 9 (104 ∷ 105 ∷ []))
                new).1))).1.error
        ≡ false)
read_one_event-write_net_string_example =
    read_one_event-write_net_string none (some (replicate 256 0)) 9 (104 ∷ 105 ∷ []) (omega arith)
