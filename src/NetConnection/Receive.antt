-- ===== src/NetConnection/Receive.antt =====
-- aotbot/netconn.py: `_process_raw_packet` and `_handle_packet_body`, lines 484 to 622.
use aot_headless_client.Base.{
  ℕ, ◌+◌, ◌-◌, ◌*◌, ◌%◌, ◌^◌, Bool, true, false, not, ◌&&◌, ◌||◌, Option, none, some, List, ltb,
  ◌==◌, if◌then◌else◌,
}
use aot_headless_client.BitStream.{BitStream, ◌>>◌, open_on}
use aot_headless_client.NetConnection.{
  Connection, Hooks, PacketType, data_packet, ping_packet, ack_packet, type_of, is_data,
  is_connected, Header, read_header, read_rate, unwrap, set_low, clear_low, notify_loop,
  send_ack_packet, window_full, send_data_packet, max_ack_byte_count, seq_window_slack,
}

module _ {B : Type 0} where
  -- A body that did not decode is not acknowledged: its bit in the mask is cleared again.
  unfoldable pub nack : Bool → Connection B → Connection B
  nack true c = c
  nack false c = record c { ack_mask = clear_low c.ack_mask }

  -- The ack mask moves up by the packets since the last one; a data packet sets its own bit.
  unfoldable pub shift_mask : PacketType → ℕ → Connection B → Connection B
  shift_mask packet_type seq c =
      let shifted = c.ack_mask * 2 ^ (seq - c.last_seq_recvd) % 2 ^ 32 in
      record c { ack_mask = if is_data packet_type then set_low shifted else shifted }

  -- After the notify loop: at most 32 packets stay to be acknowledged.
  unfoldable pub close_window : ℕ → ℕ → Connection B → Connection B
  close_window seq highest c = record c {
    last_recv_ack_ack =
        if ltb (c.last_recv_ack_ack + 32) seq then seq - 32 else c.last_recv_ack_ack;
    highest_acked_seq = highest;
  }

  unfoldable pub answer_ping : PacketType → Connection B → Connection B
  answer_ping ping_packet c = send_ack_packet c
  answer_ping data_packet c = c
  answer_ping ack_packet c = c

  -- The three window tests. A number below `last_seq_recvd` is a shift by a negative count in the
  -- source: the exception leaves the connection as it was.
  unfoldable pub in_window : ℕ → ℕ → Connection B → Bool
  in_window seq highest c =
      not (ltb (c.last_seq_recvd + seq_window_slack) seq)
      && (not (ltb c.last_send_seq highest) && not (ltb seq c.last_seq_recvd))

module _ {B : Type 0} (hooks : Hooks B) where
  -- Whether the body decoded; a hook that raised says no.
  unfoldable pub handle_packet_body : BitStream → Connection B → Connection B × Bool
  handle_packet_body bs c =
      let (body, ok) = hooks.read_packet_body c.body ((read_rate >> read_rate) bs).1 in
      (record c { body = body }, ok)

  -- Queued events leave at once, if the window has room.
  unfoldable pub flush : Connection B → Connection B
  flush c =
      if (hooks.has_pending_data c.body || c.send_requested) && not (window_full c)
      then send_data_packet hooks c
      else c

  unfoldable pub process_body : BitStream → Connection B → Connection B
  unfolding handle_packet_body nack flush
  process_body bs c = let (c1, ok) = handle_packet_body bs c in flush (nack ok c1)

  -- What an accepted packet does before its body is looked at.
  unfoldable pub acknowledge : PacketType → ℕ → ℕ → ℕ → Connection B → Connection B
  unfolding shift_mask close_window answer_ping
  acknowledge packet_type seq highest mask c =
      let c1 = shift_mask packet_type seq c in
      let c2 =
        notify_loop hooks (highest - c.highest_acked_seq) (c.highest_acked_seq + 1) highest mask
          c1 in
      record (answer_ping packet_type (close_window seq highest c2)) { last_seq_recvd = seq }

  unfoldable pub accept : BitStream → PacketType → ℕ → ℕ → ℕ → Connection B → Connection B
  unfolding acknowledge process_body
  accept bs packet_type seq highest mask c =
      let c1 = acknowledge packet_type seq highest mask c in
      if not (c.last_seq_recvd == seq) && is_data packet_type then process_body bs c1 else c1

  unfoldable pub process_header : BitStream → PacketType → Header → Connection B → Connection B
  unfolding in_window accept
  process_header bs packet_type h c =
      let seq = unwrap c.last_seq_recvd h.seq in
      let highest = unwrap c.highest_acked_seq h.highest_ack in
      if in_window seq highest c then accept bs packet_type seq highest h.ack_mask c else c

  unfoldable pub process_typed :
      BitStream → Option PacketType → Header → Connection B → Connection B
  unfolding process_header
  process_typed bs none h c = c
  process_typed bs (some packet_type) h c =
      if ltb max_ack_byte_count h.ack_byte_count then c else process_header bs packet_type h c

  unfoldable pub process_raw_packet : List ℕ → Connection B → Connection B
  unfolding process_typed
  process_raw_packet bytes c =
      let (h, bs) = read_header (open_on bytes) in
      if not (is_connected c.state)
      then c
      else if not (h.parity == c.connect_sequence % 2)
      then c
      else process_typed bs (type_of h.packet_type) h c
