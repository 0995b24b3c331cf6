-- ===== src/NetConnection/Tests.antt =====
-- aotbot/netconn.py: a connection with three packets in flight, and the theorems at it.
use aot_headless_client.Base.{
  ℕ, ◌+◌, ◌-◌, ◌*◌, ◌%◌, ◌≤◌, ◌≡◌, refl, Bool, true, false, none, some, List, [], ◌∷◌, ◌++◌, arith,
  ltb, ◌==◌, if◌then◌else◌, replicate, take,
}
use aot_headless_client.BitStream.{
  pure, ◌>>=◌, new, open_on, get_bytes, write_flag, read_flag, write_int, read_int, read_u8,
}
use aot_headless_client.BitStream.Strings.{latin1}
use aot_headless_client.NetConnection.{
  Connection, Hooks, connected, disconnected, data_packet, send_data_packet, write_header_fields,
  read_header, notify_loop, capped_ack_bytes, compute_ack_byte_count, unwrap, is_connected,
}
use aot_headless_client.NetConnection.Receive.{accept, acknowledge, process_raw_packet}
use aot_headless_client.NetConnection.Window.{unwrap-mod}
use aot_headless_client.NetConnection.Valid.{
  zeros_small, IsValid, ack_bytes_cover, send_data_packet-IsValid,
}
use aot_headless_client.NetConnection.Valid.Received.{process_raw_packet-IsValid}
use aot_headless_client.NetConnection.Wire.{header_of, read_header-write_header_fields}
use aot_headless_client.NetConnection.Notify.{KeepsLog, notices, accept-log}
use aot_headless_client.NetConnection.Notify.Once.{IsLogged, process_raw_packet-IsLogged}
use aot_headless_client.NetConnection.Acks.{reports}
use aot_headless_client.NetConnection.Acks.Reports.{decodes, accept-reports, accept-duplicate}
use aot_headless_client.NetConnection.Handshake.{
  accepted, disconnecting, read_oob, build_disconnect, dispatch,
}
use aot_headless_client.NetConnection.Handshake.Safe.{dispatch-connected}
use aot_headless_client.NetConnection.Handshake.Leave.{read_oob-build_disconnect}

abbrev Log : Type 0
Log = List (ℕ × Bool)

-- An owner that only logs; a body of its packets never decodes.
abbrev logging : Hooks Log
logging = record {
  write_packet_body = λ seq log bs. (log, bs);
  read_packet_body = λ log bs. (log, false);
  on_notify = λ log i delivered. log ++ ((i, delivered) ∷ []);
  has_pending_data = λ log. false;
}

abbrev log_of : Log → List (ℕ × Bool)
log_of log = log

logging-KeepsLog : KeepsLog logging log_of
logging-KeepsLog = record {
  notified = λ log i delivered. refl;
  sent = λ i log bs. refl;
  received = λ log bs. refl;
}

abbrev live : Connection Log
live = record {
  state = connected;
  connect_sequence = 7;
  address_digest = none;
  server_protocol_version = some 12;
  reject_reason = none;
  disconnect_reason = none;
  last_seq_recvd = 0;
  highest_acked_seq = 0;
  last_send_seq = 3;
  ack_mask = 0;
  last_recv_ack_ack = 0;
  last_seq_recvd_at_send = replicate 32 0;
  connection_established = false;
  rate_changed = false;
  max_rate_changed = false;
  send_requested = false;
  connected_event = true;
  done_event = false;
  body = [];
  sent = [];
}

live-IsValid : IsValid live
live-IsValid = record {
  acked = omega arith;
  in_flight = omega arith;
  heard = omega arith;
  unheard = omega arith;
  mask = omega arith;
  slot_count = refl;
  slots = zeros_small 32 0;
}

-- The other end: it has sent one packet, and received the packets 1 and 3 of `live`.
abbrev server : Connection Log
server = record live { last_send_seq = 1; last_seq_recvd = 3; ack_mask = 5 }

abbrev datagram : List ℕ
datagram = get_bytes (write_header_fields server data_packet new).1

-- The log after the datagram: 1 and 3 were delivered, 2 was lost.
log_after_datagram :
    (process_raw_packet logging datagram live).body ≡ (1, true) ∷ (2, false) ∷ (3, true) ∷ []
unfolding process_raw_packet get_bytes write_header_fields new open_on read_header capped_ack_bytes
    ◌>>=◌ pure read_int read_flag write_int write_flag unwrap notify_loop
log_after_datagram = refl

process_raw_packet-IsLogged_example : IsLogged log_of (process_raw_packet logging datagram live)
unfolding IsLogged
process_raw_packet-IsLogged_example =
    process_raw_packet-IsLogged logging log_of datagram live logging-KeepsLog (omega arith) refl

process_raw_packet-IsValid_example : IsValid (process_raw_packet logging datagram live)
process_raw_packet-IsValid_example =
    process_raw_packet-IsValid logging datagram live (omega arith) live-IsValid

accept-reports_example : reports (accept logging new data_packet 2 3 5 live) 1 ≡ (
    if 1 == 2
    then decodes logging new data_packet 2 3 5 live
    else if ltb 0 1
    then false
    else reports live 1)
accept-reports_example =
    accept-reports logging new 2 3 5 1 live live-IsValid (omega arith) (omega arith) (omega arith)

read_header-write_header_fields_example :
    ((read_header (open_on (get_bytes (write_header_fields server data_packet new).1))).0
      ≡ header_of server data_packet)
    × ((read_header (open_on (get_bytes (write_header_fields server data_packet new).1))).1.error
        ≡ false)
read_header-write_header_fields_example = read_header-write_header_fields server data_packet

unwrap-mod_example : unwrap 1000 (1030 % 512) ≡ 1030
unwrap-mod_example = unwrap-mod 1000 1030 (omega arith) (omega arith) (omega arith)

accept-log_example :
    log_of (accept logging new data_packet 1 3 5 live).body
    ≡ log_of live.body ++ notices (3 - live.highest_acked_seq) (live.highest_acked_seq + 1) 3 5
accept-log_example = accept-log logging-KeepsLog new data_packet 1 3 5 live

send_data_packet-IsValid_example : IsValid (send_data_packet logging live)
send_data_packet-IsValid_example = send_data_packet-IsValid logging live live-IsValid

ack_bytes_cover_example :
    (capped_ack_bytes live ≡ compute_ack_byte_count live)
    × (live.last_seq_recvd ≤ live.last_recv_ack_ack + 8 * capped_ack_bytes live)
ack_bytes_cover_example = ack_bytes_cover live live-IsValid

abbrev waiting : Connection Log
waiting = record live { state = disconnected }

-- ConnectAccept for the connection 7, in the server's protocol version 12.
abbrev accept_datagram : List ℕ
accept_datagram = 36 ∷ 7 ∷ 0 ∷ 0 ∷ 0 ∷ 12 ∷ 0 ∷ 0 ∷ 0 ∷ []

connects : is_connected (dispatch logging accept_datagram waiting).state ≡ true
unfolding dispatch open_on ◌>>=◌ read_u8 pure read_flag
connects = refl

dispatch-connected_example :
    (version : ℕ) × ((read_oob (open_on accept_datagram)).0 ≡ some (accepted 7 version))
dispatch-connected_example = dispatch-connected logging accept_datagram waiting refl connects

read_oob-build_disconnect_example :
    (read_oob (open_on (build_disconnect 7 (b'b' ∷ b'y' ∷ b'e' ∷ [])))).0
    ≡ some (disconnecting 7 (take 255 (latin1 (b'b' ∷ b'y' ∷ b'e' ∷ []))))
read_oob-build_disconnect_example =
    read_oob-build_disconnect 7 (b'b' ∷ b'y' ∷ b'e' ∷ []) (omega arith)

accept-duplicate_example :
    (reports (accept logging new data_packet 0 3 5 live) 0 ≡ true)
    × (accept logging new data_packet 0 3 5 live ≡ acknowledge logging data_packet 0 3 5 live)
accept-duplicate_example = accept-duplicate logging new 0 3 5 live live-IsValid refl
