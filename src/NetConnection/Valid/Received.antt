-- ===== src/NetConnection/Valid/Received.antt =====
-- aotbot/netconn.py: received packets, and the well-formedness of the counters.
use aot_headless_client.Base.{
  ℕ, ◌+◌, ◌-◌, ◌*◌, ◌^◌, ◌≤◌, ◌<◌, ◌≡◌, refl, ap, ◌∙◌, inl, inr, Bool, true, false, not, ◌&&◌, ◌||◌,
  List, [], ◌∷◌, arith, ltb, ◌==◌, if◌then◌else◌, length, All, Bool-cases,
}
use native.Mathlib.Nat.{mod-lt}
use aot_headless_client.BitStream.{BitStream}
use aot_headless_client.NetConnection.Accepted.{process_raw_packet_cases}
use aot_headless_client.NetConnection.{
  Connection, Hooks, PacketType, data_packet, ping_packet, ack_packet, is_data, window_full,
  notify_loop,
}
use aot_headless_client.NetConnection.Receive.{
  handle_packet_body, nack, flush, process_body, shift_mask, close_window, acknowledge, accept,
  in_window, process_raw_packet,
}
use aot_headless_client.NetConnection.Valid.{
  IsValid, answer_ping-SameCounters, notify_loop-IsNotified, send_data_packet-IsValid,
}

All-le : (a b : ℕ) (xs : List ℕ) → a ≤ b → All (λ n. n ≤ a) xs → All (λ n. n ≤ b) xs
All-le a b [] h p = tt
All-le a b (x ∷ xs) h (p, ps) = (omega arith, All-le a b xs h ps)

closed_heard :
    (a seq last : ℕ)
    → a ≤ last
    → last ≤ seq
    → ((if ltb (a + 32) seq then seq - 32 else a) ≤ seq)
      × (seq ≤ (if ltb (a + 32) seq then seq - 32 else a) + 32)
closed_heard a seq last h k = ground arith

module _ {B : Type 0} where
  shift_mask-lt :
      (packet_type : PacketType) (seq : ℕ) (c : Connection B)
      → (shift_mask packet_type seq c).ack_mask < 2 ^ 32
  unfolding shift_mask
  shift_mask-lt data_packet seq c =
      omega (arith, mod-lt (c.ack_mask * 2 ^ (seq - c.last_seq_recvd)) {m = 2 ^ 32} (omega arith))
  shift_mask-lt ping_packet seq c = mod-lt (c.ack_mask * 2 ^ (seq - c.last_seq_recvd)) (omega arith)
  shift_mask-lt ack_packet seq c = mod-lt (c.ack_mask * 2 ^ (seq - c.last_seq_recvd)) (omega arith)

  -- What an accepted packet makes of the counters.
  pub record IsAcknowledged (seq highest : ℕ) (packet_type : PacketType) (c d : Connection B)
      : Type 0 where
    pub recvd : d.last_seq_recvd ≡ seq
    pub acked : d.highest_acked_seq ≡ highest
    pub sends : d.last_send_seq ≡ c.last_send_seq
    pub mask : d.ack_mask ≡ (shift_mask packet_type seq c).ack_mask
    pub slots : d.last_seq_recvd_at_send ≡ c.last_seq_recvd_at_send
    pub heard : d.last_recv_ack_ack ≤ seq
    pub unheard : seq ≤ d.last_recv_ack_ack + 32

  pub acknowledge-IsAcknowledged :
      (hooks : Hooks B) (packet_type : PacketType) (seq highest mask : ℕ) (c : Connection B)
      → c.last_seq_recvd ≤ seq
      → IsValid c
      → IsAcknowledged seq highest packet_type c (acknowledge hooks packet_type seq highest mask c)
  unfolding acknowledge close_window shift_mask
  acknowledge-IsAcknowledged hooks packet_type seq highest mask c ahead v =
      let c1 = shift_mask packet_type seq c in
      let left = highest - c.highest_acked_seq in
      let c2 = notify_loop hooks left (c.highest_acked_seq + 1) highest mask c1 in
      let n =
        notify_loop-IsNotified hooks left (c.highest_acked_seq + 1) highest mask c1 v.heard
          v.slots in
      let p = answer_ping-SameCounters packet_type (close_window seq highest c2) in
      let (low, high) = closed_heard c2.last_recv_ack_ack seq c.last_seq_recvd n.heard ahead in
      record {
        recvd = refl;
        acked = p.acked;
        sends = p.sends ∙ n.sends;
        mask = p.mask ∙ n.mask;
        slots = p.slots ∙ n.slots;
        heard = rw (p.heard) low;
        unheard = rw (p.heard) high;
      }

  pub acknowledge-IsValid :
      (hooks : Hooks B) (packet_type : PacketType) (seq highest mask : ℕ) (c : Connection B)
      → in_window seq highest c ≡ true
      → c.highest_acked_seq ≤ highest
      → IsValid c
      → IsValid (acknowledge hooks packet_type seq highest mask c)
  unfolding in_window
  acknowledge-IsValid hooks packet_type seq highest mask c window ahead v =
      let low : c.last_seq_recvd ≤ seq = ground arith in
      let d = acknowledge hooks packet_type seq highest mask c in
      let a = acknowledge-IsAcknowledged hooks packet_type seq highest mask c low v in
      record {
        acked = rw (a.acked, a.sends) (ground arith);
        in_flight = rw (a.acked, a.sends) (omega (arith, v.in_flight));
        heard = rw a.recvd a.heard;
        unheard = rw a.recvd a.unheard;
        mask = rw a.mask (shift_mask-lt packet_type seq c);
        slot_count = ap length a.slots ∙ v.slot_count;
        slots =
            rw (a.slots, a.recvd)
              (All-le c.last_seq_recvd seq c.last_seq_recvd_at_send low v.slots);
      }

  pub with_body-IsValid :
      (c : Connection B) (body : B) → IsValid c → IsValid (record c { body = body })
  with_body-IsValid c body v = record {
    acked = v.acked;
    in_flight = v.in_flight;
    heard = v.heard;
    unheard = v.unheard;
    mask = v.mask;
    slot_count = v.slot_count;
    slots = v.slots;
  }

  nack-IsValid : (ok : Bool) (c : Connection B) → IsValid c → IsValid (nack ok c)
  unfolding nack
  nack-IsValid true c v = v
  nack-IsValid false c v = record {
    acked = v.acked;
    in_flight = v.in_flight;
    heard = v.heard;
    unheard = v.unheard;
    mask = omega (arith, v.mask);
    slot_count = v.slot_count;
    slots = v.slots;
  }

  flush-IsValid : (hooks : Hooks B) (c : Connection B) → IsValid c → IsValid (flush hooks c)
  unfolding flush
  flush-IsValid hooks c v =
      elim (Bool-cases
        ((hooks.has_pending_data c.body || c.send_requested) && not (window_full c))) [
          | inl t ↦ rw t (send_data_packet-IsValid hooks c v)
          | inr t ↦ rw t v
        ]

  pub process_body-IsValid :
      (hooks : Hooks B) (bs : BitStream) (c : Connection B)
      → IsValid c
      → IsValid (process_body hooks bs c)
  unfolding process_body handle_packet_body
  process_body-IsValid hooks bs c v =
      let (c1, ok) = handle_packet_body hooks bs c in
      let w = with_body-IsValid c c1.body v in
      flush-IsValid hooks (nack ok c1) (nack-IsValid ok c1 w)

  accept-IsValid :
      (hooks : Hooks B) (bs : BitStream) (packet_type : PacketType) (seq highest mask : ℕ)
      (c : Connection B)
      → in_window seq highest c ≡ true
      → c.highest_acked_seq ≤ highest
      → IsValid c
      → IsValid (accept hooks bs packet_type seq highest mask c)
  unfolding accept
  accept-IsValid hooks bs packet_type seq highest mask c window ahead v =
      let w = acknowledge-IsValid hooks packet_type seq highest mask c window ahead v in
      elim (Bool-cases (not (c.last_seq_recvd == seq) && is_data packet_type)) [
        | inl t ↦ rw t (process_body-IsValid hooks bs _ w)
        | inr t ↦ rw t w
      ]

-- Any datagram, however it is formed, leaves a well-formed connection well formed, as long as fewer
-- than 2 ^ 32 packets have been sent.
pub process_raw_packet-IsValid :
    {B : Type 0} (hooks : Hooks B) (bytes : List ℕ) (c : Connection B)
    → c.last_send_seq < 2 ^ 32
    → IsValid c
    → IsValid (process_raw_packet hooks bytes c)
process_raw_packet-IsValid hooks bytes c few v =
    process_raw_packet_cases hooks IsValid c (omega (arith, v.acked)) v
      (λ bs packet_type seq highest mask window ahead.
        accept-IsValid hooks bs packet_type seq highest mask c window ahead v)
      bytes
