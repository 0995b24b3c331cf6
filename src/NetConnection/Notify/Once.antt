-- ===== src/NetConnection/Notify/Once.antt =====
-- aotbot/netconn.py: the notifications over the life of a connection.
use aot_headless_client.Base.{
  ℕ, ◌+◌, ◌-◌, ◌^◌, ◌<◌, ◌≡◌, refl, sym, ap, ◌∙◌, inl, inr, Bool, true, false, not, ◌&&◌, ◌||◌,
  List, ◌++◌, arith, ◌==◌, Bool-cases,
}
use mathlib.Core.List.{map, map-append}
use aot_headless_client.BitStream.{BitStream}
use aot_headless_client.NetConnection.{
  Connection, Hooks, PacketType, is_data, is_connected, count_packet, window_full, send_data_packet,
}
use aot_headless_client.NetConnection.Receive.{
  handle_packet_body, nack, flush, process_body, acknowledge, accept, process_raw_packet,
}
use aot_headless_client.NetConnection.Accepted.{process_raw_packet_cases}
use aot_headless_client.NetConnection.Notify.{
  KeepsLog, notices, numbers, notices-numbers, numbers-add, accept-log,
}
use aot_headless_client.NetConnection.Valid.{answer_ping-SameCounters}

module _ {B : Type 0} (hooks : Hooks B) where
  send_data_packet-acked :
      (c : Connection B) → (send_data_packet hooks c).highest_acked_seq ≡ c.highest_acked_seq
  unfolding send_data_packet count_packet
  send_data_packet-acked c = elim (Bool-cases (is_connected c.state)) [
    | inr t ↦ rw t refl
    | inl t ↦ elim (Bool-cases (window_full c)) [
      | inl full ↦ rw (t, full) refl
      | inr room ↦ rw (t, room) refl
    ]
  ]

  nack-acked : (ok : Bool) (c : Connection B) → (nack ok c).highest_acked_seq ≡ c.highest_acked_seq
  unfolding nack
  nack-acked true c = refl
  nack-acked false c = refl

  process_body-acked :
      (bs : BitStream) (c : Connection B)
      → (process_body hooks bs c).highest_acked_seq ≡ c.highest_acked_seq
  unfolding process_body handle_packet_body flush
  process_body-acked bs c =
      let (c1, ok) = handle_packet_body hooks bs c in
      let c2 = nack ok c1 in
      elim (Bool-cases
        ((hooks.has_pending_data c2.body || c2.send_requested) && not (window_full c2))) [
          | inl t ↦ rw t (send_data_packet-acked c2 ∙ nack-acked ok c1)
          | inr t ↦ rw t (nack-acked ok c1)
        ]

  accept-acked :
      (bs : BitStream) (packet_type : PacketType) (seq highest mask : ℕ) (c : Connection B)
      → (accept hooks bs packet_type seq highest mask c).highest_acked_seq ≡ highest
  unfolding accept acknowledge
  accept-acked bs packet_type seq highest mask c =
      let c1 = acknowledge hooks packet_type seq highest mask c in
      let here : c1.highest_acked_seq ≡ highest = (answer_ping-SameCounters packet_type _).acked in
      elim (Bool-cases (not (c.last_seq_recvd == seq) && is_data packet_type)) [
        | inl t ↦ rw t (process_body-acked bs c1 ∙ here)
        | inr t ↦ rw t here
      ]

-- The owner has heard of the packets 1, 2, ..., `highest_acked_seq`, in this order and of no other.
unfoldable pub IsLogged : {B : Type 0} → (B → List (ℕ × Bool)) → Connection B → Type 0
IsLogged log c = map (λ p. p.0) (log c.body) ≡ numbers c.highest_acked_seq 1

-- If an owner's log of notifications lists exactly the packets 1, 2, ..., `highest_acked_seq`, in this
-- order and each once, it does so again after any datagram. Conditions: no hook but `on_notify`
-- touches the log, and `highest_acked_seq` is below 2 ^ 32.
pub process_raw_packet-IsLogged :
    {B : Type 0} (hooks : Hooks B) (log : B → List (ℕ × Bool)) (bytes : List ℕ) (c : Connection B)
    → KeepsLog hooks log
    → c.highest_acked_seq < 2 ^ 32
    → IsLogged log c
    → IsLogged log (process_raw_packet hooks bytes c)
unfolding IsLogged
process_raw_packet-IsLogged {B = B} hooks log bytes c keeps few logged =
    process_raw_packet_cases hooks (IsLogged log) c few logged
      (λ bs packet_type seq highest mask window ahead.
        let left = highest - c.highest_acked_seq in
        let start : c.highest_acked_seq + 1 ≡ 1 + c.highest_acked_seq = omega arith in
        let all : c.highest_acked_seq + left ≡ highest = omega arith in
        ap (map (λ p. p.0)) (accept-log keeps bs packet_type seq highest mask c)
        ∙ map-append (λ p. p.0) (log c.body) _
        ∙ ap (λ t. t ++ map (λ p. p.0) (notices left (c.highest_acked_seq + 1) highest mask)) logged
        ∙ ap (λ t. numbers c.highest_acked_seq 1 ++ t)
            (notices-numbers left (c.highest_acked_seq + 1) highest mask
              ∙ ap (λ (n : ℕ). numbers left n) start)
        ∙ numbers-add c.highest_acked_seq left 1
        ∙ ap (λ (n : ℕ). numbers n 1)
            (all ∙ sym (accept-acked hooks bs packet_type seq highest mask c)))
      bytes
