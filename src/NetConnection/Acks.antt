-- ===== src/NetConnection/Acks.antt =====
-- aotbot/netconn.py: `ack_mask` as a report on the last 32 packets of the server.
pub mod Reports
use aot_headless_client.Base.{
  ℕ, zero, suc, ◌+◌, ◌-◌, ◌*◌, ◌/◌, ◌%◌, ◌^◌, ◌≤◌, ◌<◌, ◌≡◌, refl, sym, ap, ◌∙◌, inl, inr, Bool,
  true, false, not, ◌&&◌, ◌||◌, List, arith, ltb, leb, ◌==◌, if◌then◌else◌, Bool-cases,
}
use aot_headless_client.Base.Tests.{==-refl}
use aot_headless_client.Base.Bytes.{test_bit}
use aot_headless_client.Base.Shifts.{test_bit-mod, test_bit-shift, test_bit-low}
use aot_headless_client.BitStream.{BitStream}
use aot_headless_client.NetConnection.{
  Connection, Hooks, PacketType, data_packet, ping_packet, ack_packet, is_data, is_connected,
  count_packet, window_full, send_data_packet, set_low, clear_low,
}
use aot_headless_client.NetConnection.Receive.{
  handle_packet_body, nack, flush, process_body, shift_mask, acknowledge, accept,
}
use aot_headless_client.NetConnection.Valid.{IsValid}
use aot_headless_client.NetConnection.Valid.Received.{acknowledge-IsAcknowledged}

-- Whether the next header reports the server's packet `n` as received; `n` is one of the last 32.
unfoldable pub reports : {B : Type 0} → Connection B → ℕ → Bool
reports c n = test_bit c.ack_mask (c.last_seq_recvd - n)

shifted_bit :
    (m d k : ℕ)
    → k < 32
    → test_bit (m * 2 ^ d % 2 ^ 32) k ≡ (if ltb k d then false else test_bit m (k - d))
shifted_bit m d k h = test_bit-mod 32 k (m * 2 ^ d) h ∙ test_bit-shift d k m

module _ {B : Type 0} where
  -- Bit `k` of the mask once it has moved up to `seq`.
  shift_mask-bit :
      (packet_type : PacketType) (seq k : ℕ) (c : Connection B)
      → k < 32
      → test_bit (shift_mask packet_type seq c).ack_mask k ≡ (
          if (k == 0) && is_data packet_type
          then true
          else if ltb k (seq - c.last_seq_recvd)
          then false
          else test_bit c.ack_mask (k - (seq - c.last_seq_recvd)))
  unfolding shift_mask
  shift_mask-bit data_packet seq k c h =
      let m = c.ack_mask * 2 ^ (seq - c.last_seq_recvd) % 2 ^ 32 in
      test_bit-low m k 1 (omega arith) ∙ elim (Bool-cases (k == 0)) [
        | inl t ↦ rw t refl
        | inr t ↦ rw t (shifted_bit c.ack_mask (seq - c.last_seq_recvd) k h)
      ]
  shift_mask-bit ping_packet seq k c h = elim (Bool-cases (k == 0)) [
    | inl t ↦ rw t (shifted_bit c.ack_mask (seq - c.last_seq_recvd) k h)
    | inr t ↦ rw t (shifted_bit c.ack_mask (seq - c.last_seq_recvd) k h)
  ]
  shift_mask-bit ack_packet seq k c h = elim (Bool-cases (k == 0)) [
    | inl t ↦ rw t (shifted_bit c.ack_mask (seq - c.last_seq_recvd) k h)
    | inr t ↦ rw t (shifted_bit c.ack_mask (seq - c.last_seq_recvd) k h)
  ]

  -- The other packets keep their report, those that the number jumped over are reported lost.
  pub older : ℕ → Connection B → Bool
  older n c = if ltb c.last_seq_recvd n then false else reports c n

  older-bit :
      (seq n : ℕ) (c : Connection B)
      → c.last_seq_recvd ≤ seq
      → n ≤ seq
      → (if ltb (seq - n) (seq - c.last_seq_recvd)
          then false
          else test_bit c.ack_mask (seq - n - (seq - c.last_seq_recvd)))
        ≡ older n c
  unfolding older reports
  older-bit seq n c h k =
      let same : ltb (seq - n) (seq - c.last_seq_recvd) ≡ ltb c.last_seq_recvd n = ground arith in
      rw same (elim (Bool-cases (ltb c.last_seq_recvd n)) [
        | inl t ↦ rw t refl
        | inr t ↦
            let d : seq - n - (seq - c.last_seq_recvd) ≡ c.last_seq_recvd - n = ground arith in
            rw (t, d) refl
      ])

  pub acknowledge-reports :
      (hooks : Hooks B) (packet_type : PacketType) (seq highest mask n : ℕ) (c : Connection B)
      → IsValid c
      → c.last_seq_recvd ≤ seq
      → n ≤ seq
      → seq < n + 32
      → reports (acknowledge hooks packet_type seq highest mask c) n
        ≡ (if (seq - n == 0) && is_data packet_type then true else older n c)
  unfolding reports
  acknowledge-reports hooks packet_type seq highest mask n c v low h recent =
      let a = acknowledge-IsAcknowledged hooks packet_type seq highest mask c low v in
      rw (a.mask, a.recvd)
        (shift_mask-bit packet_type seq (seq - n) c (omega arith)
          ∙ ap (λ (b : Bool). if (seq - n == 0) && is_data packet_type then true else b)
              (older-bit seq n c low h))
