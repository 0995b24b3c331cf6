-- ===== src/NetConnection/Handshake.antt =====
-- aotbot/netconn.py: the handshake packets, `_handle_oob` and `_dispatch`. `disconnect` and the retry loops of
-- `_run_handshake` are left out.
pub mod Safe
pub mod Leave
use aot_headless_client.Base.{
  ℕ, zero, suc, ◌+◌, ◌%◌, Bool, true, false, not, ◌&&◌, ◌||◌, Option, none, some, List, [], ◌∷◌,
  ◌++◌, ◌==◌, if◌then◌else◌, length,
}
use aot_headless_client.Base.Int.{pos}
use aot_headless_client.Base.Bytes.{odd}
use aot_headless_client.BitStream.{
  BitStream, M, pure, ◌>>=◌, ◌>>◌, new, open_on, get_bytes, write_int, read_int, write_u8, read_u8,
  write_bytes, read_bytes,
}
use aot_headless_client.BitStream.Strings.{StringArg, text, raw, write_string, read_string}
use aot_headless_client.NetConnection.{
  Connection, Hooks, ConnState, disconnected, awaiting_challenge_response,
  awaiting_connect_response, connected, rejected, timed_out, hand_over,
}
use aot_headless_client.NetConnection.Receive.{process_raw_packet}

-- The types of connectionless packets.
abbrev pub connect_challenge_request : ℕ
connect_challenge_request = 26

abbrev pub connect_challenge_response : ℕ
connect_challenge_response = 30

abbrev pub connect_request : ℕ
connect_request = 32

abbrev pub connect_reject : ℕ
connect_reject = 34

abbrev pub connect_accept : ℕ
connect_accept = 36

abbrev pub disconnect_type : ℕ
disconnect_type = 38

unfoldable pub build_challenge_request : ℕ → List ℕ
build_challenge_request connect_sequence =
    get_bytes
      ((write_u8 (pos connect_challenge_request) >> write_int (pos connect_sequence) 32) new).1

unfoldable pub build_disconnect : ℕ → List ℕ → List ℕ
build_disconnect connect_sequence reason =
    get_bytes
      ((do
        write_u8 (pos disconnect_type)
        write_int (pos connect_sequence) 32
        write_string (text reason) 255)
        new).1

-- A packet of the server, read: `none` for a type that the client ignores.
pub data OobPacket : Type 0 where
  challenge_response : ℕ → List ℕ → OobPacket
  accepted : ℕ → ℕ → OobPacket
  refused : ℕ → List ℕ → OobPacket
  disconnecting : ℕ → List ℕ → OobPacket

unfoldable pub read_oob : M (Option OobPacket)
read_oob = read_u8 >>= λ ptype.
    if ptype == connect_challenge_response
    then (do seq ← read_int 32; digest ← read_bytes 16; pure (some (challenge_response seq digest)))
    else if ptype == connect_accept
    then (do seq ← read_int 32; version ← read_int 32; pure (some (accepted seq version)))
    else if ptype == connect_reject
    then (do seq ← read_int 32; reason ← read_string; pure (some (refused seq reason)))
    else if ptype == disconnect_type
    then (do seq ← read_int 32; reason ← read_string; pure (some (disconnecting seq reason)))
    else pure none

module _ {B : Type 0} where
  -- `_shutdown`, without the tasks.
  unfoldable pub shutdown : ConnState → Connection B → Connection B
  shutdown st c = record c { state = st; connected_event = true; done_event = true }

  -- What a packet for this connection does; one with another connect sequence does nothing.
  unfoldable pub apply_oob : OobPacket → Connection B → Connection B
  unfolding shutdown
  apply_oob (challenge_response seq digest) c =
      if seq == c.connect_sequence
      then record c { address_digest = some digest; state = awaiting_connect_response }
      else c
  apply_oob (accepted seq version) c =
      if seq == c.connect_sequence
      then record c {
        server_protocol_version = some version;
        connection_established = false;
        state = connected;
        connected_event = true;
      }
      else c
  apply_oob (refused seq reason) c =
      if seq == c.connect_sequence
      then record c { reject_reason = some reason; state = rejected; connected_event = true }
      else c
  apply_oob (disconnecting seq reason) c =
      if seq == c.connect_sequence
      then shutdown disconnected (record c { disconnect_reason = some reason })
      else c

  abbrev pub apply_some : Option OobPacket → Connection B → Connection B
  apply_some none c = c
  apply_some (some p) c = apply_oob p c

  unfoldable pub handle_oob : List ℕ → Connection B → Connection B
  unfolding read_oob apply_oob
  handle_oob bytes c = apply_some (read_oob (open_on bytes)).0 c

  -- `_dispatch`: the lowest bit of the first byte tells a packet of the connection.
  unfoldable pub dispatch : Hooks B → List ℕ → Connection B → Connection B
  unfolding handle_oob
  dispatch hooks [] c = c
  dispatch hooks (b ∷ bytes) c =
      if odd b then process_raw_packet hooks (b ∷ bytes) c else handle_oob (b ∷ bytes) c
