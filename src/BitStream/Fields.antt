-- ===== src/BitStream/Fields.antt =====
-- aotbot/bitstream.py: a natural number in a field of `n` bits.
use aot_headless_client.Base.{ℕ, ◌%◌, ◌^◌, ◌≤◌, ◌<◌, ◌∙◌, Option, Bool, none, List}
use mathlib.Core.Path.{subst}
use native.Mathlib.Nat.{mod-eq_of_lt}
use aot_headless_client.Base.Int.{pos}
use aot_headless_client.Base.Values.{int_bits}
use aot_headless_client.BitStream.{write_int, read_int}
use aot_headless_client.BitStream.View.{Reads, Writes}
use aot_headless_client.BitStream.Ints.{Writes-int, Reads-int_bits, written, written_mod}

-- A field of `n` bits, on the wire and read again.
abbrev pub field_bits : ℕ → ℕ → List Bool
field_bits n v = int_bits n (written (pos v) n)

pub Writes-field : (n v : ℕ) → Writes none (write_int (pos v) n) (field_bits n v) tt none
Writes-field n v = Writes-int none (pos v) n

pub Reads-field : (n v : ℕ) → n ≤ 32 → Reads none (read_int n) (field_bits n v) (v % 2 ^ n) none
Reads-field n v h =
    subst (λ (k : ℕ). Reads none (read_int n) (int_bits n (written (pos v) n)) k none)
      (written_mod (pos v) n h) (Reads-int_bits none n (written (pos v) n) h)

-- The case of a value that fits.
pub Reads-fit : (n v : ℕ) → n ≤ 32 → v < 2 ^ n → Reads none (read_int n) (field_bits n v) v none
Reads-fit n v h small =
    subst (λ (k : ℕ). Reads none (read_int n) (field_bits n v) k none) (mod-eq_of_lt small)
      (Reads-field n v h)

-- The same with any string buffer.
pub Reads-fit_on :
    (sb : Option (List ℕ)) (n v : ℕ)
    → n ≤ 32
    → v < 2 ^ n
    → Reads sb (read_int n) (field_bits n v) v sb
Reads-fit_on sb n v h small =
    subst (λ (k : ℕ). Reads sb (read_int n) (field_bits n v) k sb)
      (written_mod (pos v) n h ∙ mod-eq_of_lt small) (Reads-int_bits sb n (written (pos v) n) h)
