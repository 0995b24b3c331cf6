-- ===== src/BitStream/Strings.antt =====
-- aotbot/bitstream.py, lines 352 to 411: `write_string` and `read_string`, with the string buffer
-- that lets a packet send only what differs from the string before.
pub mod Wire
pub mod Sequence
use aot_headless_client.Base.{
  ℕ, zero, suc, ◌+◌, ◌-◌, Bool, true, false, Option, none, some, List, [], ◌∷◌, ◌++◌, map, ltb,
  ◌==◌, ◌&&◌, not, if◌then◌else◌, length, take, drop, replicate, min,
}
use aot_headless_client.Base.Int.{ℤ, pos}
use aot_headless_client.BitStream.{
  BitStream, M, pure, ◌>>=◌, ◌>>◌, write_flag, read_flag, write_int, read_int,
}
use aot_headless_client.BitStream.Huffman.{write_buffer, read_buffer}

-- The argument of `write_string`: `None`, a `str` as its code points, or `bytes`.
pub data StringArg : Type 0 where
  absent : StringArg
  text : List ℕ → StringArg
  raw : List ℕ → StringArg

-- `encode("latin-1", errors="replace")`
unfoldable pub latin1 : List ℕ → List ℕ
latin1 = map (λ c. if ltb c 256 then c else b'?')

unfoldable pub string_bytes : StringArg → List ℕ
unfolding latin1
string_bytes absent = []
string_bytes (text cs) = latin1 cs
string_bytes (raw bytes) = bytes

-- The length of the common prefix, up to `max_len` and to the first NUL.
unfoldable pub common_prefix : ℕ → List ℕ → List ℕ → ℕ
common_prefix zero sb bytes = 0
common_prefix (suc left) [] bytes = 0
common_prefix (suc left) (c ∷ sb) [] = 0
common_prefix (suc left) (c ∷ sb) (b ∷ bytes) =
    let rest = common_prefix left sb bytes in if (c == b) && not (b == 0) then suc rest else 0

-- `bytearray(256)` with `bytes` copied over its start.
abbrev pub string_slot : List ℕ → List ℕ
string_slot bytes = bytes ++ replicate (256 - length bytes) 0

unfoldable pub set_string_buffer : Option (List ℕ) → M (Unit {0})
set_string_buffer sb s = (tt, record s { string_buffer = sb })

unfoldable pub write_dedup : List ℕ → ℕ → List ℕ → M (Unit {0})
unfolding common_prefix set_string_buffer
write_dedup bytes max_len sb =
    let j = common_prefix max_len sb bytes in
    set_string_buffer (some (string_slot (take max_len bytes))) >> write_flag (ltb 2 j) >>= λ dedup.
    if dedup
    then (write_int (pos j) 8 >> write_buffer (drop j bytes) (max_len - j))
    else write_buffer bytes max_len

-- The two paths, by the string buffer.
unfoldable pub write_with : Option (List ℕ) → List ℕ → ℕ → M (Unit {0})
unfolding write_dedup
write_with none bytes max_len = write_buffer bytes max_len
write_with (some sb) bytes max_len = write_dedup bytes max_len sb

unfoldable pub write_string : StringArg → ℕ → M (Unit {0})
unfolding string_bytes write_with
write_string string max_len s = write_with s.string_buffer (string_bytes string) max_len s

-- Reading into the buffer: at most 256 bytes are kept.
unfoldable pub read_whole : M (List ℕ)
unfolding set_string_buffer
read_whole = do
  bytes ← read_buffer
  set_string_buffer (some (string_slot (take 256 bytes)))
  pure bytes

unfoldable pub read_dedup : List ℕ → M (List ℕ)
unfolding set_string_buffer
read_dedup sb = do
  offset ← read_int 8
  tail ← read_buffer
  set_string_buffer (some (string_slot (take 256 (take offset sb ++ tail))))
  pure (take offset sb ++ tail)

unfoldable pub read_with : Option (List ℕ) → M (List ℕ)
unfolding read_whole read_dedup
read_with none = read_buffer
read_with (some sb) = read_flag >>= λ dedup. if dedup then read_dedup sb else read_whole

unfoldable pub read_string : M (List ℕ)
unfolding read_with
read_string s = read_with s.string_buffer s
