-- ===== src/NetConnection/Acks/Reports.antt =====
-- aotbot/netconn.py: what the client reports of a packet once `_process_raw_packet` is through with it.
use aot_headless_client.Base.{
  ℕ, ◌+◌, ◌-◌, ◌*◌, ◌/◌, ◌≤◌, ◌<◌, ◌≡◌, refl, ap, ◌∙◌, inl, inr, Bool, true, false, not, ◌&&◌, ◌||◌,
  arith, ltb, ◌==◌, if◌then◌else◌, Bool-cases,
}
use aot_headless_client.Base.Bytes.{test_bit}
use aot_headless_client.Base.Shifts.{test_bit-low}
use aot_headless_client.BitStream.{BitStream}
use aot_headless_client.NetConnection.{
  Connection, Hooks, PacketType, data_packet, is_connected, count_packet, window_full,
  send_data_packet,
}
use aot_headless_client.NetConnection.Receive.{
  handle_packet_body, nack, flush, process_body, acknowledge, accept,
}
use aot_headless_client.NetConnection.Valid.{IsValid}
use aot_headless_client.NetConnection.Valid.Received.{acknowledge-IsAcknowledged}
use aot_headless_client.NetConnection.Acks.{reports, older, acknowledge-reports}

module _ {B : Type 0} (hooks : Hooks B) where
  send_data_packet-reports :
      (c : Connection B) (n : ℕ) → reports (send_data_packet hooks c) n ≡ reports c n
  unfolding send_data_packet count_packet reports
  send_data_packet-reports c n = elim (Bool-cases (is_connected c.state)) [
    | inr t ↦ rw t refl
    | inl t ↦ elim (Bool-cases (window_full c)) [
      | inl full ↦ rw (t, full) refl
      | inr room ↦ rw (t, room) refl
    ]
  ]

  flush-reports : (c : Connection B) (n : ℕ) → reports (flush hooks c) n ≡ reports c n
  unfolding flush
  flush-reports c n =
      elim (Bool-cases
        ((hooks.has_pending_data c.body || c.send_requested) && not (window_full c))) [
          | inl t ↦ rw t (send_data_packet-reports c n)
          | inr t ↦ rw t refl
        ]

  -- A body that did not decode takes back the report on the last packet, and on no other.
  nack-reports :
      (ok : Bool) (c : Connection B) (n : ℕ)
      → reports (nack ok c) n
        ≡ (if (c.last_seq_recvd - n == 0) && not ok then false else reports c n)
  unfolding nack reports
  nack-reports true c n = elim (Bool-cases (c.last_seq_recvd - n == 0)) [
    | inl t ↦ rw t refl
    | inr t ↦ rw t refl
  ]
  nack-reports false c n =
      let cleared : c.ack_mask / 2 * 2 ≡ c.ack_mask / 2 * 2 + 0 = omega arith in
      ap (λ (m : ℕ). test_bit m (c.last_seq_recvd - n)) cleared
      ∙ test_bit-low c.ack_mask (c.last_seq_recvd - n) 0 (omega arith)
      ∙ elim (Bool-cases (c.last_seq_recvd - n == 0)) [ inl t ↦ rw t refl | inr t ↦ rw t refl ]

  process_body-reports :
      (bs : BitStream) (c : Connection B) (n : ℕ)
      → reports (process_body hooks bs c) n ≡ (
          if (c.last_seq_recvd - n == 0) && not (handle_packet_body hooks bs c).1
          then false
          else reports c n)
  unfolding process_body handle_packet_body reports
  process_body-reports bs c n =
      let (c1, ok) = handle_packet_body hooks bs c in
      flush-reports (nack ok c1) n ∙ nack-reports ok c1 n

  -- Whether the body of the accepted packet decodes.
  abbrev pub decodes : BitStream → PacketType → ℕ → ℕ → ℕ → Connection B → Bool
  decodes bs packet_type seq highest mask c =
      (handle_packet_body hooks bs (acknowledge hooks packet_type seq highest mask c)).1

  -- After a new data packet `seq` on a well-formed connection, for each `n` of the last 32 numbers:
  -- `seq` itself is reported received exactly if its body decoded, the numbers that it jumped over are
  -- reported lost, and the older ones are reported as before.
  pub accept-reports :
      (bs : BitStream) (seq highest mask n : ℕ) (c : Connection B)
      → IsValid c
      → c.last_seq_recvd < seq
      → n ≤ seq
      → seq < n + 32
      → reports (accept hooks bs data_packet seq highest mask c) n ≡ (
          if n == seq
          then decodes bs data_packet seq highest mask c
          else if ltb c.last_seq_recvd n
          then false
          else reports c n)
  unfolding accept older
  accept-reports bs seq highest mask n c v new h recent =
      let c1 = acknowledge hooks data_packet seq highest mask c in
      let ok = (handle_packet_body hooks bs c1).1 in
      let fresh : (c.last_seq_recvd == seq) ≡ false = ground arith in
      let a = acknowledge-IsAcknowledged hooks data_packet seq highest mask c (omega arith) v in
      let same : (seq - n == 0) ≡ (n == seq) = ground arith in
      rw fresh (
        process_body-reports bs c1 n
        ∙ ap (λ (l : ℕ). if (l - n == 0) && not ok then false else reports c1 n) a.recvd
        ∙ ap (λ (b : Bool). if (seq - n == 0) && not ok then false else b)
            (acknowledge-reports hooks data_packet seq highest mask n c v (omega arith) h recent)
        ∙ rw same (settle (n == seq) ok (older n c)))
    where
      settle :
          (here ok old : Bool)
          → (if here && not ok then false else if here && true then true else old)
            ≡ (if here then ok else old)
      settle true true old = refl
      settle true false old = refl
      settle false ok old = refl

  -- On a well-formed connection, a data packet with the number of the last received packet is reported
  -- received, whatever the report was before, and nothing is done beyond the acknowledgement: its body
  -- is not looked at.
  pub accept-duplicate :
      (bs : BitStream) (seq highest mask : ℕ) (c : Connection B)
      → IsValid c
      → c.last_seq_recvd ≡ seq
      → (reports (accept hooks bs data_packet seq highest mask c) seq ≡ true)
        × (accept hooks bs data_packet seq highest mask c
            ≡ acknowledge hooks data_packet seq highest mask c)
  unfolding accept
  accept-duplicate bs seq highest mask c v last =
      let again : (c.last_seq_recvd == seq) ≡ true = ground (arith, last) in
      let first : (seq - seq == 0) ≡ true = ground arith in
      rw again (
        acknowledge-reports hooks data_packet seq highest mask seq c v (omega (arith, last))
              (omega arith) (omega arith)
            ∙ rw first refl,
        refl,
      )
