-- ===== src/NetConnection/Handshake/Leave.antt =====
-- aotbot/netconn.py: the Disconnect packet, as it is written and as it is taken.
use aot_headless_client.Base.{ℕ, ◌<◌, ◌^◌, ◌≡◌, Bool, none, some, List, ◌++◌, arith, take}
use aot_headless_client.Base.Int.{pos}
use aot_headless_client.Base.Values.{int_bits}
use aot_headless_client.BitStream.{◌>>◌, open_on, write_u8, read_u8, write_int}
use aot_headless_client.BitStream.View.{Reads, Writes, Reads-bind, Reads-return, Writes-bind}
use aot_headless_client.BitStream.Appended.{transmit}
use aot_headless_client.BitStream.Ints.{Writes-int, written}
use aot_headless_client.BitStream.Signed.{Reads-magnitude}
use aot_headless_client.BitStream.Strings.Wire.{latin1-IsByte}
use aot_headless_client.BitStream.Strings.{latin1, string_bytes, text, write_string}
use aot_headless_client.BitStream.Strings.Wire.{string_wire, Writes-string, Reads-string}
use aot_headless_client.NetConnection.Handshake.{build_disconnect, disconnecting, read_oob}

disconnect_bits : ℕ → List ℕ → List Bool
disconnect_bits seq reason =
    int_bits 8 (written (pos 38) 8)
    ++ (int_bits 32 (written (pos seq) 32) ++ string_wire none (latin1 reason) 255)

Writes-disconnect :
    (seq : ℕ) (reason : List ℕ)
    → Writes none
        (do write_u8 (pos 38); write_int (pos seq) 32; write_string (text reason) 255)
        (disconnect_bits seq reason)
        tt
        none
unfolding disconnect_bits write_u8 string_bytes latin1
Writes-disconnect seq reason = Writes-bind _ (Writes-int none (pos 38) 8) (
    Writes-bind _ (Writes-int none (pos seq) 32)
      (Writes-string none (text reason) 255 (latin1-IsByte reason) (omega arith)))

Reads-disconnect :
    (seq : ℕ) (reason : List ℕ)
    → seq < 2 ^ 32
    → Reads none read_oob
        (disconnect_bits seq reason)
        (some (disconnecting seq (take 255 (latin1 reason))))
        none
unfolding read_oob disconnect_bits read_u8
Reads-disconnect seq reason h =
    Reads-bind _ (Reads-magnitude none 8 38 (omega arith) (omega arith)) (
      Reads-bind _ (Reads-magnitude none 32 seq (omega arith) h) (
        Reads-return _
          (Reads-string none (latin1 reason) 255 (latin1-IsByte reason) (omega arith))))

-- A Disconnect that was built for a connect sequence below 2 ^ 32 is read back as a Disconnect with
-- this sequence and the first 255 characters of its reason, in Latin-1.
pub read_oob-build_disconnect :
    (seq : ℕ) (reason : List ℕ)
    → seq < 2 ^ 32
    → (read_oob (open_on (build_disconnect seq reason))).0
      ≡ some (disconnecting seq (take 255 (latin1 reason)))
unfolding read_oob build_disconnect
read_oob-build_disconnect seq reason h =
    (transmit (Writes-disconnect seq reason) (Reads-disconnect seq reason h)).0
