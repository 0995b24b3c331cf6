-- ===== src/NetConnection/Accepted.antt =====
-- aotbot/netconn.py: the cases of what becomes of a datagram in `_process_raw_packet`.
use aot_headless_client.Base.{
  ℕ, ◌%◌, ◌^◌, ◌≤◌, ◌<◌, ◌≡◌, inl, inr, true, Option, none, some, List, ltb, ◌==◌, Bool-cases,
}
use aot_headless_client.BitStream.{BitStream, pure, ◌>>=◌, open_on}
use aot_headless_client.BitStream.Bounds.{read_int-lt}
use aot_headless_client.NetConnection.{
  Connection, Hooks, PacketType, is_connected, type_of, unwrap, Header, read_header,
  max_ack_byte_count,
}
use aot_headless_client.NetConnection.Window.{unwrap_range}
use aot_headless_client.NetConnection.Receive.{
  in_window, accept, process_header, process_typed, process_raw_packet,
}

-- The 9-bit fields of a header hold less than 512.
read_header-fields :
    (s : BitStream) → ((read_header s).0.seq < 512) × ((read_header s).0.highest_ack < 512)
unfolding read_header pure ◌>>=◌
read_header-fields s = (read_int-lt 9 _, read_int-lt 9 _)

module _ {B : Type 0} (hooks : Hooks B) (P : Connection B → Type 0) (c : Connection B)
    (few : c.highest_acked_seq < 2 ^ 32) (dropped : P c)
    (accepted : (bs : BitStream) (packet_type : PacketType) (seq highest mask : ℕ)
      → in_window seq highest c ≡ true
      → c.highest_acked_seq ≤ highest
      → P (accept hooks bs packet_type seq highest mask c)) where
  header_cases :
      (bs : BitStream) (packet_type : PacketType) (h : Header)
      → h.highest_ack < 512
      → P (process_header hooks bs packet_type h c)
  unfolding process_header
  header_cases bs packet_type h small =
      let seq = unwrap c.last_seq_recvd h.seq in
      let highest = unwrap c.highest_acked_seq h.highest_ack in
      let low : c.highest_acked_seq ≤ highest =
        (unwrap_range c.highest_acked_seq h.highest_ack few small).0 in
      elim (Bool-cases (in_window seq highest c)) [
        | inl t ↦ rw t (accepted bs packet_type seq highest h.ack_mask t low)
        | inr t ↦ rw t dropped
      ]

  typed_cases :
      (bs : BitStream) (packet_type : Option PacketType) (h : Header)
      → h.highest_ack < 512
      → P (process_typed hooks bs packet_type h c)
  unfolding process_typed
  typed_cases bs none h small = dropped
  typed_cases bs (some packet_type) h small =
      elim (Bool-cases (ltb max_ack_byte_count h.ack_byte_count)) [
        | inl t ↦ rw t dropped
        | inr t ↦ rw t (header_cases bs packet_type h small)
      ]

  pub process_raw_packet_cases : (bytes : List ℕ) → P (process_raw_packet hooks bytes c)
  unfolding process_raw_packet
  process_raw_packet_cases bytes =
      let (h, bs) = read_header (open_on bytes) in
      elim (Bool-cases (is_connected c.state)) [
        | inr t ↦ rw t dropped
        | inl t ↦ elim (Bool-cases (h.parity == c.connect_sequence % 2)) [
          | inr p ↦ rw (t, p) dropped
          | inl p ↦
              rw (t, p)
                (typed_cases bs (type_of h.packet_type) h (read_header-fields (open_on bytes)).1)
        ]
      ]
