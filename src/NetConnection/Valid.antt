-- ===== src/NetConnection/Valid.antt =====
-- aotbot/netconn.py: when the counters of the packet layer are well formed, and what is sent.
pub mod Received
use aot_headless_client.Base.{
  ℕ, zero, suc, ◌+◌, ◌-◌, ◌*◌, ◌/◌, ◌%◌, ◌^◌, ◌≤◌, ◌<◌, ◌≡◌, refl, sym, ap, ◌∙◌, inl, inr, Bool,
  true, false, not, ◌&&◌, ◌||◌, Option, none, some, List, [], ◌∷◌, arith, ltb, leb, ◌==◌,
  if◌then◌else◌, length, get_or, set, replicate, All, All-set, All-get_or, length-set,
  length-replicate, Bool-cases,
}
use native.Mathlib.Nat.{mod-lt, le_trans}
use aot_headless_client.Base.Bytes.{test_bit}
use aot_headless_client.BitStream.{BitStream, open_on}
use aot_headless_client.NetConnection.{
  Connection, Hooks, PacketType, data_packet, ping_packet, ack_packet, is_data, is_connected,
  initial, request_send, count_packet, window_full, capped_ack_bytes, compute_ack_byte_count,
  send_data_packet, send_bare_packet, send_ack_packet, notify_one, notify_loop, unwrap, set_low,
  clear_low, Header, read_header, type_of,
}
use aot_headless_client.NetConnection.Receive.{
  handle_packet_body, nack, flush, process_body, shift_mask, close_window, answer_ping, acknowledge,
  accept, in_window, process_header, process_typed, process_raw_packet,
}

pub zeros_small : (k n : ℕ) → All (λ m. m ≤ n) (replicate k 0)
zeros_small zero n = tt
zeros_small (suc k) n = (omega arith, zeros_small k n)

module _ {B : Type 0} where
  -- The counters of a connection: acknowledged packets were sent, at most 30 packets are in flight, at
  -- most 32 received packets wait for the server to hear of them, and every slot holds a number that
  -- was received.
  pub record IsValid (c : Connection B) : Type 0 where
    pub acked : c.highest_acked_seq ≤ c.last_send_seq
    pub in_flight : c.last_send_seq ≤ c.highest_acked_seq + 30
    pub heard : c.last_recv_ack_ack ≤ c.last_seq_recvd
    pub unheard : c.last_seq_recvd ≤ c.last_recv_ack_ack + 32
    pub mask : c.ack_mask < 2 ^ 32
    pub slot_count : length c.last_seq_recvd_at_send ≡ 32
    pub slots : All (λ n. n ≤ c.last_seq_recvd) c.last_seq_recvd_at_send

  pub initial-IsValid : (connect_sequence : ℕ) (body : B) → IsValid (initial connect_sequence body)
  unfolding initial
  initial-IsValid connect_sequence body = record {
    acked = omega arith;
    in_flight = omega arith;
    heard = omega arith;
    unheard = omega arith;
    mask = omega arith;
    slot_count = length-replicate 32 (let z : ℕ = 0 in z);
    slots = zeros_small 32 0;
  }

  -- On a well-formed connection the cap of four ack bytes changes nothing, and the ack bytes of a
  -- header cover every received packet that the server has not heard of.
  pub ack_bytes_cover :
      (c : Connection B)
      → IsValid c
      → (capped_ack_bytes c ≡ compute_ack_byte_count c)
        × (c.last_seq_recvd ≤ c.last_recv_ack_ack + 8 * capped_ack_bytes c)
  unfolding capped_ack_bytes compute_ack_byte_count
  ack_bytes_cover c v = ground arith

  pub count_packet-IsValid :
      (packet_type : PacketType) (c : Connection B)
      → window_full c ≡ false
      → IsValid c
      → IsValid (count_packet packet_type c)
  unfolding count_packet window_full
  count_packet-IsValid data_packet c room v = record {
    acked = ground arith;
    in_flight = ground arith;
    heard = v.heard;
    unheard = v.unheard;
    mask = v.mask;
    slot_count =
        length-set c.last_seq_recvd_at_send ((c.last_send_seq + 1) % 32) c.last_seq_recvd
        ∙ v.slot_count;
    slots =
        All-set (λ n. n ≤ c.last_seq_recvd) c.last_seq_recvd_at_send ((c.last_send_seq + 1) % 32)
          c.last_seq_recvd (omega arith) v.slots;
  }
  count_packet-IsValid ping_packet c room v = v
  count_packet-IsValid ack_packet c room v = v

  -- `send_data_packet` keeps a well-formed connection well formed, in every state and with a full
  -- window too.
  pub send_data_packet-IsValid :
      (hooks : Hooks B) (c : Connection B) → IsValid c → IsValid (send_data_packet hooks c)
  unfolding send_data_packet
  send_data_packet-IsValid hooks c v = elim (Bool-cases (is_connected c.state)) [
    | inr t ↦ rw t v
    | inl t ↦ elim (Bool-cases (window_full c)) [
      | inl full ↦ rw (t, full) v
      | inr room ↦
          let w = count_packet-IsValid data_packet c room v in
          rw (t, room)
            (record {
              acked = w.acked;
              in_flight = w.in_flight;
              heard = w.heard;
              unheard = w.unheard;
              mask = w.mask;
              slot_count = w.slot_count;
              slots = w.slots;
            })
    ]
  ]

  pub request_send-IsValid : (c : Connection B) → IsValid c → IsValid (request_send c)
  unfolding request_send
  request_send-IsValid c v = record {
    acked = v.acked;
    in_flight = v.in_flight;
    heard = v.heard;
    unheard = v.unheard;
    mask = v.mask;
    slot_count = v.slot_count;
    slots = v.slots;
  }

  -- A packet without a body changes no counter.
  pub record SameCounters (c d : Connection B) : Type 0 where
    pub recvd : d.last_seq_recvd ≡ c.last_seq_recvd
    pub acked : d.highest_acked_seq ≡ c.highest_acked_seq
    pub sends : d.last_send_seq ≡ c.last_send_seq
    pub mask : d.ack_mask ≡ c.ack_mask
    pub heard : d.last_recv_ack_ack ≡ c.last_recv_ack_ack
    pub slots : d.last_seq_recvd_at_send ≡ c.last_seq_recvd_at_send

  same_counters : (c : Connection B) → SameCounters c c
  same_counters c = record {
    recvd = refl;
    acked = refl;
    sends = refl;
    mask = refl;
    heard = refl;
    slots = refl;
  }

  pub answer_ping-SameCounters :
      (packet_type : PacketType) (c : Connection B) → SameCounters c (answer_ping packet_type c)
  unfolding answer_ping send_ack_packet count_packet
  answer_ping-SameCounters data_packet c = same_counters c
  answer_ping-SameCounters ack_packet c = same_counters c
  answer_ping-SameCounters ping_packet c = elim (Bool-cases (is_connected c.state)) [
    | inr t ↦ rw t (same_counters c)
    | inl t ↦ rw t (record {
      recvd = refl;
      acked = refl;
      sends = refl;
      mask = refl;
      heard = refl;
      slots = refl;
    })
  ]

  -- The notify loop moves `last_recv_ack_ack` only, to a number that was received.
  pub record IsNotified (c d : Connection B) : Type 0 where
    pub recvd : d.last_seq_recvd ≡ c.last_seq_recvd
    pub sends : d.last_send_seq ≡ c.last_send_seq
    pub mask : d.ack_mask ≡ c.ack_mask
    pub slots : d.last_seq_recvd_at_send ≡ c.last_seq_recvd_at_send
    pub heard : d.last_recv_ack_ack ≤ c.last_seq_recvd

  notify_one-heard :
      (hooks : Hooks B) (i : ℕ) (delivered : Bool) (c : Connection B)
      → c.last_recv_ack_ack ≤ c.last_seq_recvd
      → All (λ n. n ≤ c.last_seq_recvd) c.last_seq_recvd_at_send
      → (notify_one hooks i delivered c).last_recv_ack_ack ≤ c.last_seq_recvd
  unfolding notify_one
  notify_one-heard hooks i true c h a =
      All-get_or (λ n. n ≤ c.last_seq_recvd) c.last_seq_recvd_at_send (i % 32) 0 (omega arith) a
  notify_one-heard hooks i false c h a = h

  pub notify_loop-IsNotified :
      (hooks : Hooks B) (left i highest mask : ℕ) (c : Connection B)
      → c.last_recv_ack_ack ≤ c.last_seq_recvd
      → All (λ n. n ≤ c.last_seq_recvd) c.last_seq_recvd_at_send
      → IsNotified c (notify_loop hooks left i highest mask c)
  unfolding notify_loop
  notify_loop-IsNotified hooks zero i highest mask c h a = record {
    recvd = refl;
    sends = refl;
    mask = refl;
    slots = refl;
    heard = h;
  }
  notify_loop-IsNotified hooks (suc left) i highest mask c h a =
      let c1 = notify_one hooks i (test_bit mask (highest - i)) c in
      let r =
        notify_loop-IsNotified hooks left (i + 1) highest mask c1
          (notify_one-heard hooks i (test_bit mask (highest - i)) c h a) a in
      record { recvd = r.recvd; sends = r.sends; mask = r.mask; slots = r.slots; heard = r.heard }
