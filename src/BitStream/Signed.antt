-- ===== src/BitStream/Signed.antt =====
-- aotbot/bitstream.py: signed integers, written into a datagram and read again.
use aot_headless_client.Base.{
  ℕ, suc, ◌-◌, ◌^◌, ◌≤◌, ◌<◌, ◌≡◌, sym, ◌∙◌, Bool, true, false, Option, none, List, ◌∷◌, arith,
}
use mathlib.Core.Path.{subst}
use native.Mathlib.Nat.{mod-eq_of_lt}
use aot_headless_client.Base.Int.{ℤ, pos, negsuc, is_neg, low_bits}
use aot_headless_client.Base.Values.{int_bits, length-int_bits}
use aot_headless_client.BitStream.{
  new, open_on, get_bytes, write_int, read_int, write_signed_int, read_signed_int,
}
use aot_headless_client.BitStream.View.{Reads, Writes, Reads-bind, Reads-return, Writes-bind}
use aot_headless_client.BitStream.Flags.{Reads-flag, Writes-flag}
use aot_headless_client.BitStream.Ints.{
  written, written_mod, written_small, Writes-int, Reads-int_bits,
}
use aot_headless_client.BitStream.Appended.{transmit}

abbrev pub magnitude : ℤ → ℕ
magnitude (pos v) = v
magnitude (negsuc v) = suc v

abbrev pub signed_bits : ℤ → ℕ → List Bool
signed_bits value n = is_neg value ∷ int_bits (n - 1) (written (pos (magnitude value)) (n - 1))

pub Writes-signed_int :
    (sb : Option (List ℕ)) (value : ℤ) (n : ℕ)
    → Writes sb (write_signed_int value n) (signed_bits value n) tt sb
unfolding write_signed_int
Writes-signed_int sb (pos v) n =
    Writes-bind _ (Writes-flag sb false) (Writes-int sb (pos v) (n - 1))
Writes-signed_int sb (negsuc v) n =
    Writes-bind _ (Writes-flag sb true) (Writes-int sb (pos (suc v)) (n - 1))

pub Reads-magnitude :
    (sb : Option (List ℕ)) (n v : ℕ)
    → n ≤ 32
    → v < 2 ^ n
    → Reads sb (read_int n) (int_bits n (written (pos v) n)) v sb
Reads-magnitude sb n v h small =
    let w : written (pos v) n ≡ v = written_small n v h small in
    subst (λ (t : ℕ). Reads sb (read_int n) (int_bits n t) v sb) (sym w)
      (subst (λ (t : ℕ). Reads sb (read_int n) (int_bits n v) t sb) (mod-eq_of_lt small)
        (Reads-int_bits sb n v h))

pub Reads-signed_int :
    (sb : Option (List ℕ)) (value : ℤ) (n : ℕ)
    → n ≤ 33
    → magnitude value < 2 ^ (n - 1)
    → Reads sb (read_signed_int n) (signed_bits value n) value sb
unfolding read_signed_int
Reads-signed_int sb (pos v) n h small =
    Reads-bind _ (Reads-flag sb false)
      (Reads-return _ (Reads-magnitude sb (n - 1) v (omega arith) small))
Reads-signed_int sb (negsuc v) n h small =
    Reads-bind _ (Reads-flag sb true)
      (Reads-return _ (Reads-magnitude sb (n - 1) (suc v) (omega arith) small))

-- `read_int` of `n` bits gets back the low `n` bits of what `write_int` wrote, for every integer,
-- negative ones in two's complement, and every width up to 32; it moves the cursor by `n` and sets no
-- error.
pub read_int-write_int :
    (value : ℤ) (n : ℕ)
    → n ≤ 32
    → ((read_int n (open_on (get_bytes (write_int value n new).1))).0 ≡ low_bits value n)
      × ((read_int n (open_on (get_bytes (write_int value n new).1))).1.bit_num ≡ n)
      × ((read_int n (open_on (get_bytes (write_int value n new).1))).1.error ≡ false)
read_int-write_int value n h =
    let (got, moved, fine) =
      transmit (Writes-int none value n) (Reads-int_bits none n (written value n) h) in
    (got ∙ written_mod value n h, moved ∙ length-int_bits n _, fine)

-- `read_signed_int` gets back, without an error, every integer whose magnitude fits the width less the
-- sign bit, for widths up to 33.
pub read_signed_int-write_signed_int :
    (value : ℤ) (n : ℕ)
    → n ≤ 33
    → magnitude value < 2 ^ (n - 1)
    → ((read_signed_int n (open_on (get_bytes (write_signed_int value n new).1))).0 ≡ value)
      × ((read_signed_int n (open_on (get_bytes (write_signed_int value n new).1))).1.error ≡ false)
read_signed_int-write_signed_int value n h small =
    let (got, moved, fine) =
      transmit (Writes-signed_int none value n) (Reads-signed_int none value n h small) in
    (got, fine)
