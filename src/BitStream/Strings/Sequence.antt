-- ===== src/BitStream/Strings/Sequence.antt =====
-- aotbot/bitstream.py: several strings of a packet, each of which may lean on the one before.
use aot_headless_client.Base.{
  ℕ, zero, suc, ◌≡◌, Bool, Option, none, List, [], ◌∷◌, ◌++◌, arith, length, take, map, All,
}
use aot_headless_client.Base.Bytes.{IsByte}
use aot_headless_client.BitStream.{M, pure, ◌>>=◌, ◌>>◌, new, open_on, get_bytes}
use aot_headless_client.BitStream.View.{
  Reads, Writes, Reads-bind, Reads-pure, Reads-return, Writes-bind, Writes-pure,
}
use aot_headless_client.BitStream.Appended.{transmit}
use aot_headless_client.BitStream.Strings.{
  raw, string_bytes, set_string_buffer, write_string, read_string,
}
use aot_headless_client.BitStream.Strings.Wire.{
  string_wire, strings_after, Writes-set_strings, Reads-set_strings, Writes-string, Reads-string,
}

-- A packet's strings, written one after the other, and `[bs.read_string() for _ in range(count)]`.
unfoldable pub write_strings : List (List ℕ) → M (Unit {0})
write_strings [] = pure tt
write_strings (x ∷ xs) = write_string (raw x) 255 >> write_strings xs

unfoldable pub read_strings : ℕ → M (List (List ℕ))
read_strings zero = pure []
read_strings (suc count) = read_string >>= λ x. read_strings count >>= λ xs. pure (x ∷ xs)

abbrev pub strings_wire : Option (List ℕ) → List (List ℕ) → List Bool
strings_wire sb [] = []
strings_wire sb (x ∷ xs) = string_wire sb x 255 ++ strings_wire (strings_after sb (take 255 x)) xs

abbrev pub strings_end : Option (List ℕ) → List (List ℕ) → Option (List ℕ)
strings_end sb [] = sb
strings_end sb (x ∷ xs) = strings_end (strings_after sb (take 255 x)) xs

pub Writes-strings :
    (sb : Option (List ℕ)) (xs : List (List ℕ))
    → All (All IsByte) xs
    → Writes sb (write_strings xs) (strings_wire sb xs) tt (strings_end sb xs)
unfolding write_strings string_bytes
Writes-strings sb [] h = Writes-pure sb tt
Writes-strings sb (x ∷ xs) (h, hs) =
    Writes-bind _ (Writes-string sb (raw x) 255 h (omega arith))
      (Writes-strings (strings_after sb (take 255 x)) xs hs)

pub Reads-strings :
    (sb : Option (List ℕ)) (xs : List (List ℕ))
    → All (All IsByte) xs
    → Reads sb
        (read_strings (length xs))
        (strings_wire sb xs)
        (map (take 255) xs)
        (strings_end sb xs)
unfolding read_strings
Reads-strings sb [] h = Reads-pure sb []
Reads-strings sb (x ∷ xs) (h, hs) =
    Reads-bind _ (Reads-string sb x 255 h (omega arith))
      (Reads-return _ (Reads-strings (strings_after sb (take 255 x)) xs hs))

-- A string buffer, or none, is installed on a fresh stream and byte strings are written one after the
-- other: a reader that installs the same buffer reads them all back, each cut to 255 bytes.
pub read_strings-write_strings :
    (sb : Option (List ℕ)) (xs : List (List ℕ))
    → All (All IsByte) xs
    → ((set_string_buffer sb >> read_strings (length xs))
        (open_on (get_bytes ((set_string_buffer sb >> write_strings xs) new).1))).0
      ≡ map (take 255) xs
read_strings-write_strings sb xs h =
    (transmit
      (Writes-bind (λ _. write_strings xs) (Writes-set_strings none sb) (Writes-strings sb xs h))
      (Reads-bind (λ _. read_strings (length xs)) (Reads-set_strings none sb)
        (Reads-strings sb xs h))).0
