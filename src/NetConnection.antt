-- ===== src/NetConnection.antt =====
-- aotbot/netconn.py: `NetConnection`, its connectionless handshake packets and the connected
-- packet/notify layer. A method takes the connection and returns it changed; the datagrams that it
-- hands to the transport are appended to `sent`.
pub mod Window
pub mod Valid
pub mod Wire
pub mod Receive
pub mod Accepted
pub mod Notify
pub mod Acks
pub mod Handshake
pub mod Tests
use aot_headless_client.Base.{
  ℕ, zero, suc, ◌+◌, ◌-◌, ◌*◌, ◌/◌, ◌%◌, ◌^◌, Bool, true, false, not, ◌&&◌, ◌||◌, Option, none,
  some, List, [], ◌∷◌, ◌++◌, bit_and, bit_or, ltb, leb, ◌==◌, if◌then◌else◌, length, get_or, set,
  replicate,
}
use aot_headless_client.Base.Int.{pos}
use aot_headless_client.Base.Bytes.{odd, test_bit}
use aot_headless_client.BitStream.{
  BitStream, M, pure, ◌>>=◌, ◌>>◌, new, open_on, get_bytes, write_flag, read_flag, write_int,
  read_int, write_u8, read_u8, write_bytes, read_bytes,
}
use aot_headless_client.BitStream.Strings.{StringArg, text, write_string, read_string}

pub data ConnState : Type 0 where
  disconnected awaiting_challenge_response awaiting_connect_response connected rejected timed_out :
      ConnState

pub data PacketType : Type 0 where
  data_packet ping_packet ack_packet : PacketType

abbrev pub type_code : PacketType → ℕ
type_code data_packet = 0
type_code ping_packet = 1
type_code ack_packet = 2

-- The field of two bits; 3 is no packet type.
abbrev pub type_of : ℕ → Option PacketType
type_of zero = some data_packet
type_of (suc zero) = some ping_packet
type_of (suc (suc zero)) = some ack_packet
type_of (suc (suc (suc n))) = none

abbrev pub is_data : PacketType → Bool
is_data data_packet = true
is_data ping_packet = false
is_data ack_packet = false

-- What the owner of the connection installs, over the owner's own state `B`. A hook that raises is
-- caught: `read_packet_body` answers whether the body was decoded to its end, and the stream that
-- `write_packet_body` returns is what it had written.
pub record Hooks (B : Type 0) : Type 0 where
  pub write_packet_body : ℕ → B → BitStream → B × BitStream
  pub read_packet_body : B → BitStream → B × Bool
  pub on_notify : B → ℕ → Bool → B
  pub has_pending_data : B → Bool

pub record Connection (B : Type 0) : Type 0 where
  pub state : ConnState
  pub connect_sequence : ℕ
  pub address_digest : Option (List ℕ)
  pub server_protocol_version : Option ℕ
  pub reject_reason : Option (List ℕ)
  pub disconnect_reason : Option (List ℕ)
  pub last_seq_recvd : ℕ
  pub highest_acked_seq : ℕ
  pub last_send_seq : ℕ
  pub ack_mask : ℕ
  pub last_recv_ack_ack : ℕ
  pub last_seq_recvd_at_send : List ℕ
  pub connection_established : Bool
  pub rate_changed : Bool
  pub max_rate_changed : Bool
  pub send_requested : Bool
  pub connected_event : Bool
  pub done_event : Bool
  pub body : B
  pub sent : List (List ℕ)

abbrev pub rate_update_delay : ℕ
rate_update_delay = 32

abbrev pub rate_packet_size : ℕ
rate_packet_size = 450

abbrev pub max_ack_byte_count : ℕ
max_ack_byte_count = 4

abbrev pub seq_number_wrap : ℕ
seq_number_wrap = 0x200

abbrev pub seq_window_slack : ℕ
seq_window_slack = 31

abbrev pub is_connected : ConnState → Bool
is_connected connected = true
is_connected _ = false

-- A rate goes out once: the flag, then the two fields if it is set.
unfoldable pub write_rate : Bool → M (Unit {0})
write_rate changed = write_flag changed >>= λ present.
    if present
    then (write_int (pos rate_update_delay) 10 >> write_int (pos rate_packet_size) 10)
    else pure tt

module _ {B : Type 0} where
  -- `__init__`
  unfoldable pub initial : ℕ → B → Connection B
  initial connect_sequence body = record {
    state = disconnected;
    connect_sequence = connect_sequence;
    address_digest = none;
    server_protocol_version = none;
    reject_reason = none;
    disconnect_reason = none;
    last_seq_recvd = 0;
    highest_acked_seq = 0;
    last_send_seq = 0;
    ack_mask = 0;
    last_recv_ack_ack = 0;
    last_seq_recvd_at_send = replicate 32 0;
    connection_established = false;
    rate_changed = true;
    max_rate_changed = true;
    send_requested = false;
    connected_event = false;
    done_event = false;
    body = body;
    sent = [];
  }

  unfoldable pub request_send : Connection B → Connection B
  request_send c = record c { send_requested = true }

  -- Subtractions of this layer are of a number that is no larger (`Valid.IsValid`).
  unfoldable pub compute_ack_byte_count : Connection B → ℕ
  compute_ack_byte_count c = (c.last_seq_recvd - c.last_recv_ack_ack + 7) / 8

  unfoldable pub window_full : Connection B → Bool
  window_full c = leb 30 (c.last_send_seq - c.highest_acked_seq)

  -- The count that goes into a header.
  unfoldable pub capped_ack_bytes : Connection B → ℕ
  unfolding compute_ack_byte_count
  capped_ack_bytes c =
      if ltb max_ack_byte_count (compute_ack_byte_count c)
      then max_ack_byte_count
      else compute_ack_byte_count c

  -- `_write_header`: what it does to the counters, and what it writes.
  unfoldable pub count_packet : PacketType → Connection B → Connection B
  count_packet data_packet c = record c {
    last_send_seq = c.last_send_seq + 1;
    last_seq_recvd_at_send =
        set c.last_seq_recvd_at_send ((c.last_send_seq + 1) % 32) c.last_seq_recvd;
  }
  count_packet ping_packet c = c
  count_packet ack_packet c = c

  unfoldable pub write_header_fields : Connection B → PacketType → M (Unit {0})
  write_header_fields c packet_type = do
    write_flag true
    write_int (pos (c.connect_sequence % 2)) 1
    write_int (pos c.last_send_seq) 9
    write_int (pos c.last_seq_recvd) 9
    write_int (pos (type_code packet_type)) 2
    write_int (pos (capped_ack_bytes c)) 3
    write_int (pos c.ack_mask) (capped_ack_bytes c * 8)

  abbrev pub hand_over : BitStream → Connection B → Connection B
  hand_over bs c = record c { sent = c.sent ++ (get_bytes bs ∷ []) }

  unfoldable pub send_data_packet : Hooks B → Connection B → Connection B
  unfolding count_packet write_header_fields write_rate window_full
  send_data_packet hooks c =
      if not (is_connected c.state)
      then c
      else if window_full c
      then c
      else (let c1 = count_packet data_packet c in
          let header = (write_header_fields c1 data_packet new).1 in
          let rates = (write_rate c1.max_rate_changed (write_rate c1.rate_changed header).1).1 in
          let (body, bs) = hooks.write_packet_body c1.last_send_seq c1.body rates in
          hand_over bs (record c1 {
            rate_changed = false;
            max_rate_changed = false;
            body = body;
            send_requested = false;
          }))

  -- `send_ping_packet` and `send_ack_packet`
  unfoldable pub send_bare_packet : PacketType → Connection B → Connection B
  unfolding count_packet write_header_fields
  send_bare_packet packet_type c =
      if not (is_connected c.state)
      then c
      else (let c1 = count_packet packet_type c in
          hand_over (write_header_fields c1 packet_type new).1 c1)

  unfoldable pub send_ping_packet : Connection B → Connection B
  unfolding send_bare_packet
  send_ping_packet c = send_bare_packet ping_packet c

  unfoldable pub send_ack_packet : Connection B → Connection B
  unfolding send_bare_packet
  send_ack_packet c = send_bare_packet ack_packet c

  -- One round of the notify loop, for packet `i`.
  unfoldable pub notify_one : Hooks B → ℕ → Bool → Connection B → Connection B
  notify_one hooks i delivered c = record c {
    connection_established = c.connection_established || delivered;
    body = hooks.on_notify c.body i delivered;
    last_recv_ack_ack =
        if delivered then get_or c.last_seq_recvd_at_send (i % 32) 0 else c.last_recv_ack_ack;
  }

  -- `while i <= pk_highest_ack`, with `left` rounds to go.
  unfoldable pub notify_loop : Hooks B → ℕ → ℕ → ℕ → ℕ → Connection B → Connection B
  unfolding notify_one
  notify_loop hooks zero i highest mask c = c
  notify_loop hooks (suc left) i highest mask c =
      notify_loop hooks left (i + 1) highest mask
        (notify_one hooks i (test_bit mask (highest - i)) c)

-- The rate blocks of a received body are skipped.
unfoldable pub read_rate : M (Unit {0})
read_rate =
    read_flag >>= λ changed. if changed then (read_int 10 >> read_int 10 >> pure tt) else pure tt

-- A 9-bit field against the full number that it continues.
unfoldable pub unwrap : ℕ → ℕ → ℕ
unwrap last field =
    let seq = bit_or field (bit_and last 0xFFFFFE00) in
    if ltb seq last then seq + seq_number_wrap else seq

pub record Header : Type 0 where
  pub parity : ℕ
  pub seq : ℕ
  pub highest_ack : ℕ
  pub packet_type : ℕ
  pub ack_byte_count : ℕ
  pub ack_mask : ℕ

-- The fields in their order, as `_process_raw_packet` reads them; no mask is read for a bad count.
unfoldable pub read_header : M Header
read_header = do
  read_flag
  parity ← read_int 1
  seq ← read_int 9
  highest_ack ← read_int 9
  packet_type ← read_int 2
  ack_byte_count ← read_int 3
  ack_mask ← read_int (if ltb max_ack_byte_count ack_byte_count then 0 else 8 * ack_byte_count)
  pure (record {
    parity = parity;
    seq = seq;
    highest_ack = highest_ack;
    packet_type = packet_type;
    ack_byte_count = ack_byte_count;
    ack_mask = ack_mask;
  })

abbrev pub set_low : ℕ → ℕ
set_low mask = mask / 2 * 2 + 1

abbrev pub clear_low : ℕ → ℕ
clear_low mask = mask / 2 * 2
