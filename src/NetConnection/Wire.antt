-- ===== src/NetConnection/Wire.antt =====
-- aotbot/netconn.py: the header of a packet, as `_write_header` writes and `_process_raw_packet` reads it.
use aot_headless_client.Base.{
  ℕ, ◌*◌, ◌%◌, ◌^◌, ◌≤◌, ◌<◌, ◌≡◌, sym, Bool, true, false, none, List, [], ◌∷◌, ◌++◌, arith, ltb,
  if◌then◌else◌,
}
use mathlib.Core.Path.{subst}
use aot_headless_client.BitStream.{new, open_on, get_bytes, read_int}
use aot_headless_client.BitStream.View.{Reads, Writes, Reads-bind, Reads-return, Writes-bind}
use aot_headless_client.BitStream.Appended.{transmit}
use aot_headless_client.BitStream.Flags.{Reads-flag, Writes-flag}
use aot_headless_client.BitStream.Fields.{field_bits, Writes-field, Reads-field, Reads-fit}
use aot_headless_client.NetConnection.{
  Connection, PacketType, data_packet, ping_packet, ack_packet, type_code, write_header_fields,
  capped_ack_bytes, Header, read_header, max_ack_byte_count,
}

-- What the other end is meant to read.
abbrev pub header_of : {B : Type 0} → Connection B → PacketType → Header
header_of c packet_type = record {
  parity = c.connect_sequence % 2;
  seq = c.last_send_seq % 512;
  highest_ack = c.last_seq_recvd % 512;
  packet_type = type_code packet_type;
  ack_byte_count = capped_ack_bytes c;
  ack_mask = c.ack_mask % 2 ^ (8 * capped_ack_bytes c);
}

capped_small : {B : Type 0} (c : Connection B) → capped_ack_bytes c ≤ 4
unfolding capped_ack_bytes
capped_small c = ground arith

type_code_small : (packet_type : PacketType) → type_code packet_type < 4
type_code_small data_packet = omega arith
type_code_small ping_packet = omega arith
type_code_small ack_packet = omega arith

-- The mask's width follows from the count that was read just before it.
Reads-mask :
    (count mask : ℕ)
    → count ≤ 4
    → Reads none
        (read_int (if ltb max_ack_byte_count count then 0 else 8 * count))
        (field_bits (count * 8) mask)
        (mask % 2 ^ (8 * count))
        none
Reads-mask count mask h =
    let width : (if ltb max_ack_byte_count count then 0 else 8 * count) ≡ count * 8 =
      ground arith in
    let bits : count * 8 ≡ 8 * count = omega arith in
    subst
      (λ (k : ℕ).
        Reads none (read_int k) (field_bits (count * 8) mask) (mask % 2 ^ (8 * count)) none)
      (sym width)
      (subst
        (λ (k : ℕ).
          Reads none (read_int (count * 8)) (field_bits (count * 8) mask) (mask % 2 ^ k) none)
        bits (Reads-field (count * 8) mask (omega arith)))

header_bits : {B : Type 0} → Connection B → PacketType → List Bool
header_bits c packet_type =
    (true ∷ [])
    ++ (field_bits 1 (c.connect_sequence % 2)
        ++ (field_bits 9 c.last_send_seq
            ++ (field_bits 9 c.last_seq_recvd
                ++ (field_bits 2 (type_code packet_type)
                    ++ (field_bits 3 (capped_ack_bytes c)
                        ++ field_bits (capped_ack_bytes c * 8) c.ack_mask)))))

Writes-header :
    {B : Type 0} (c : Connection B) (packet_type : PacketType)
    → Writes none (write_header_fields c packet_type) (header_bits c packet_type) tt none
unfolding write_header_fields header_bits
Writes-header c packet_type = Writes-bind _ (Writes-flag none true) (
    Writes-bind _ (Writes-field 1 _) (
      Writes-bind _ (Writes-field 9 _) (
        Writes-bind _ (Writes-field 9 _) (
          Writes-bind _ (Writes-field 2 _) (Writes-bind _ (Writes-field 3 _) (Writes-field _ _))))))

Reads-header :
    {B : Type 0} (c : Connection B) (packet_type : PacketType)
    → Reads none read_header (header_bits c packet_type) (header_of c packet_type) none
unfolding read_header header_bits
Reads-header c packet_type =
    let small = capped_small c in
    Reads-bind _ (Reads-flag none true) (
      Reads-bind _ (Reads-fit 1 (c.connect_sequence % 2) (omega arith) (omega arith)) (
        Reads-bind _ (Reads-field 9 c.last_send_seq (omega arith)) (
          Reads-bind _ (Reads-field 9 c.last_seq_recvd (omega arith)) (
            Reads-bind _
              (Reads-fit 2 (type_code packet_type) (omega arith) (type_code_small packet_type))
              (Reads-bind _ (Reads-fit 3 (capped_ack_bytes c) (omega arith) (omega (arith, small)))
                (Reads-return _ (Reads-mask (capped_ack_bytes c) c.ack_mask small)))))))

-- The header that is written for a packet is read back, without an error: the parity of the connect
-- sequence, both numbers modulo 512, the type, the count of ack bytes and so many bytes of the mask.
pub read_header-write_header_fields :
    {B : Type 0} (c : Connection B) (packet_type : PacketType)
    → ((read_header (open_on (get_bytes (write_header_fields c packet_type new).1))).0
        ≡ header_of c packet_type)
      × ((read_header (open_on (get_bytes (write_header_fields c packet_type new).1))).1.error
          ≡ false)
read_header-write_header_fields c packet_type =
    let (got, moved, fine) = transmit (Writes-header c packet_type) (Reads-header c packet_type) in
    (got, fine)
