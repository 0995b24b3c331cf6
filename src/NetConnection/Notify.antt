-- ===== src/NetConnection/Notify.antt =====
-- aotbot/netconn.py: the notify loop of `_process_raw_packet`, seen by the owner of the connection.
pub mod Once
use aot_headless_client.Base.{
  ℕ, zero, suc, ◌+◌, ◌-◌, ◌*◌, ◌%◌, ◌^◌, ◌≤◌, ◌<◌, ◌≡◌, refl, sym, ap, ◌∙◌, inl, inr, Bool, true,
  false, not, ◌&&◌, ◌||◌, List, [], ◌∷◌, ◌++◌, append_assoc, append-nil, arith, ltb, ◌==◌,
  if◌then◌else◌, Bool-cases,
}
use mathlib.Core.List.{map, map-append}
use aot_headless_client.Base.Bytes.{test_bit}
use aot_headless_client.BitStream.{BitStream}
use aot_headless_client.NetConnection.{
  Connection, Hooks, PacketType, data_packet, ping_packet, ack_packet, is_data, is_connected,
  count_packet, window_full, send_data_packet, send_ack_packet, notify_one, notify_loop,
}
use aot_headless_client.NetConnection.Receive.{
  handle_packet_body, nack, flush, process_body, shift_mask, close_window, answer_ping, acknowledge,
  accept, in_window, process_raw_packet,
}
use aot_headless_client.NetConnection.Accepted.{process_raw_packet_cases}

-- An owner that keeps a log of the notifications, which no other hook touches.
pub record KeepsLog {B : Type 0} (hooks : Hooks B) (log : B → List (ℕ × Bool)) : Type 0 where
  pub notified :
      (b : B) (i : ℕ) (delivered : Bool)
      → log (hooks.on_notify b i delivered) ≡ log b ++ ((i, delivered) ∷ [])
  pub sent : (i : ℕ) (b : B) (bs : BitStream) → log (hooks.write_packet_body i b bs).0 ≡ log b
  pub received : (b : B) (bs : BitStream) → log (hooks.read_packet_body b bs).0 ≡ log b

-- The packets `i` to `i + left - 1`, each with its bit of the peer's mask.
abbrev pub notices : ℕ → ℕ → ℕ → ℕ → List (ℕ × Bool)
notices zero i highest mask = []
notices (suc left) i highest mask =
    (i, test_bit mask (highest - i)) ∷ notices left (i + 1) highest mask

-- `i`, `i + 1`, ..., `i + left - 1`
abbrev pub numbers : ℕ → ℕ → List ℕ
numbers zero i = []
numbers (suc left) i = i ∷ numbers left (i + 1)

pub notices-numbers :
    (left i highest mask : ℕ) → map (λ p. p.0) (notices left i highest mask) ≡ numbers left i
notices-numbers zero i highest mask = refl
notices-numbers (suc left) i highest mask =
    ap (λ t. i ∷ t) (notices-numbers left (i + 1) highest mask)

pub numbers-add : (n k i : ℕ) → numbers n i ++ numbers k (i + n) ≡ numbers (n + k) i
numbers-add zero k i =
    let here : i + 0 ≡ i = omega arith in
    let none_more : 0 + k ≡ k = omega arith in rw (here, none_more) refl
numbers-add (suc n) k i =
    let moved : i + suc n ≡ i + 1 + n = omega arith in
    let longer : suc n + k ≡ suc (n + k) = omega arith in
    rw (moved, longer) (ap (λ t. i ∷ t) (numbers-add n k (i + 1)))

module _ {B : Type 0} {hooks : Hooks B} {log : B → List (ℕ × Bool)}
    (keeps : KeepsLog hooks log) where
  notify_loop-log :
      (left i highest mask : ℕ) (c : Connection B)
      → log (notify_loop hooks left i highest mask c).body
        ≡ log c.body ++ notices left i highest mask
  unfolding notify_loop notify_one
  notify_loop-log zero i highest mask c = sym (append-nil (log c.body))
  notify_loop-log (suc left) i highest mask c =
      notify_loop-log left (i + 1) highest mask (notify_one hooks i (test_bit mask (highest - i)) c)
      ∙ ap (λ t. t ++ notices left (i + 1) highest mask)
          (keeps.notified c.body i (test_bit mask (highest - i)))
      ∙ append_assoc (log c.body) ((i, test_bit mask (highest - i)) ∷ [])
          (notices left (i + 1) highest mask)

  answer_ping-body :
      (packet_type : PacketType) (c : Connection B) → (answer_ping packet_type c).body ≡ c.body
  unfolding answer_ping send_ack_packet count_packet
  answer_ping-body data_packet c = refl
  answer_ping-body ack_packet c = refl
  answer_ping-body ping_packet c = elim (Bool-cases (is_connected c.state)) [
    | inr t ↦ rw t refl
    | inl t ↦ rw t refl
  ]

  acknowledge-log :
      (packet_type : PacketType) (seq highest mask : ℕ) (c : Connection B)
      → log (acknowledge hooks packet_type seq highest mask c).body
        ≡ log c.body
          ++ notices (highest - c.highest_acked_seq) (c.highest_acked_seq + 1) highest mask
  unfolding acknowledge close_window shift_mask
  acknowledge-log packet_type seq highest mask c =
      let c1 = shift_mask packet_type seq c in
      let left = highest - c.highest_acked_seq in
      let c2 = notify_loop hooks left (c.highest_acked_seq + 1) highest mask c1 in
      ap log (answer_ping-body packet_type (close_window seq highest c2))
      ∙ notify_loop-log left (c.highest_acked_seq + 1) highest mask c1

  pub send_data_packet-log : (c : Connection B) → log (send_data_packet hooks c).body ≡ log c.body
  unfolding send_data_packet count_packet
  send_data_packet-log c = elim (Bool-cases (is_connected c.state)) [
    | inr t ↦ rw t refl
    | inl t ↦ elim (Bool-cases (window_full c)) [
      | inl full ↦ rw (t, full) refl
      | inr room ↦ rw (t, room) (keeps.sent (c.last_send_seq + 1) c.body _)
    ]
  ]

  flush-log : (c : Connection B) → log (flush hooks c).body ≡ log c.body
  unfolding flush
  flush-log c =
      elim (Bool-cases
        ((hooks.has_pending_data c.body || c.send_requested) && not (window_full c))) [
          | inl t ↦ rw t (send_data_packet-log c)
          | inr t ↦ rw t refl
        ]

  nack-body : (ok : Bool) (c : Connection B) → (nack ok c).body ≡ c.body
  unfolding nack
  nack-body true c = refl
  nack-body false c = refl

  process_body-log :
      (bs : BitStream) (c : Connection B) → log (process_body hooks bs c).body ≡ log c.body
  unfolding process_body handle_packet_body
  process_body-log bs c =
      let (c1, ok) = handle_packet_body hooks bs c in
      flush-log (nack ok c1) ∙ ap log (nack-body ok c1) ∙ keeps.received c.body _

  -- For an owner whose log only `on_notify` touches, an accepted packet appends to the log exactly the
  -- packets from `highest_acked_seq + 1` to the new highest one, in their order, each with the bit
  -- that the peer's mask has for it.
  pub accept-log :
      (bs : BitStream) (packet_type : PacketType) (seq highest mask : ℕ) (c : Connection B)
      → log (accept hooks bs packet_type seq highest mask c).body
        ≡ log c.body
          ++ notices (highest - c.highest_acked_seq) (c.highest_acked_seq + 1) highest mask
  unfolding accept
  accept-log bs packet_type seq highest mask c =
      let c1 = acknowledge hooks packet_type seq highest mask c in
      elim (Bool-cases (not (c.last_seq_recvd == seq) && is_data packet_type)) [
        | inl t ↦ rw t (process_body-log bs c1 ∙ acknowledge-log packet_type seq highest mask c)
        | inr t ↦ rw t (acknowledge-log packet_type seq highest mask c)
      ]
