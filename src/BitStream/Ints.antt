-- ===== src/BitStream/Ints.antt =====
-- Integers against the bit view, and their round trips.
use aot_headless_client.Base.{
  ℕ, zero, suc, ◌+◌, ◌-◌, ◌*◌, ◌/◌, ◌%◌, ◌^◌, ◌≤◌, ◌<◌, ◌≡◌, inl, inr, refl, sym, ap, ap₂, ◌∙◌,
  Bool, false, Option, List, [], ◌∷◌, ◌++◌, append-nil, arith, ltb, ◌==◌, if◌then◌else◌, Bool-cases,
  length, get_or, All, get_or_out, ltb→lt,
}
use mathlib.Core.Path.{subst}
use native.Mathlib.Decide.{dec_lt}
use native.Mathlib.Nat.{pow-succ', mod-lt, one-le-pow, mod-eq_of_lt, pow-le-pow_right, le_trans}
use aot_headless_client.Base.Int.{ℤ, pos, negsuc, low_bits}
use aot_headless_client.Base.Bytes.{odd, IsByte, byte_bits, bits_of, get_or-bits_of}
use aot_headless_client.Base.Values.{
  bits_val, int_bits, length-int_bits, bits_val-append_zeros, bits_val-lt, bits_val-int_bits,
  bits_val-byte_append,
}
use aot_headless_client.BitStream.{
  pure, ◌>>=◌, to_bytes, from_bytes, write_bits, read_bits, data_bit, write_int, read_int,
}
use aot_headless_client.BitStream.View.{Reads, Writes, Reads-bind, Reads-pure, Writes-pure}
use aot_headless_client.BitStream.Chunks.{
  bit_run, packed, packed-IsByte, bits_of-packed, Writes-bits, Reads-bits,
}

pub from_bytes-bits_val :
    (bytes : List ℕ) → All IsByte bytes → bits_val (bits_of bytes) ≡ from_bytes bytes
unfolding bits_of from_bytes
from_bytes-bits_val [] h = refl
from_bytes-bits_val (b ∷ bs) (h, hs) =
    bits_val-byte_append b (bits_of bs) h ∙ ap (λ t. b + 256 * t) (from_bytes-bits_val bs hs)

from_bytes-packed : (bs : List Bool) → from_bytes (packed bs) ≡ bits_val bs
from_bytes-packed bs =
    sym (from_bytes-bits_val (packed bs) (packed-IsByte bs))
    ∙ ap bits_val (bits_of-packed bs)
    ∙ bits_val-append_zeros bs (8 * ((length bs + 7) / 8) - length bs)

-- `m` halved `i` times.
abbrev halved : ℕ → ℕ → ℕ
halved zero m = m
halved (suc i) m = halved i m / 2

halved_inner : (i m : ℕ) → halved i (m / 2) ≡ halved i m / 2
halved_inner zero m = refl
halved_inner (suc i) m = ap (λ t. t / 2) (halved_inner i m)

get_or-int_bits : (n i m : ℕ) → i < n → get_or (int_bits n m) i false ≡ odd (halved i m)
get_or-int_bits zero i m h = absurd (omega arith)
get_or-int_bits (suc n) zero m h = refl
get_or-int_bits (suc n) (suc i) m h =
    get_or-int_bits n i (m / 2) (omega arith) ∙ ap odd (halved_inner i m)

abbrev half : ℕ → ℕ
half m = m / 2

same_odd : (a b : ℕ) → a % 2 ≡ b % 2 → odd a ≡ odd b
same_odd a b e = ap (λ t. t == 1) e

byte_bits-int_bits : (m : ℕ) → byte_bits (m % 256) ≡ int_bits 8 m
byte_bits-int_bits m = ap₂ ◌∷◌ (same_odd _ m (omega arith)) (
    ap₂ ◌∷◌ (same_odd _ (m / 2) (omega arith)) (
      ap₂ ◌∷◌ (same_odd _ (m / 2 / 2) (omega arith)) (
        ap₂ ◌∷◌ (same_odd _ (m / 2 / 2 / 2) (omega arith)) (
          ap₂ ◌∷◌ (same_odd _ (m / 2 / 2 / 2 / 2) (omega arith)) (
            ap₂ ◌∷◌ (same_odd _ (m / 2 / 2 / 2 / 2 / 2) (omega arith)) (
              ap₂ ◌∷◌ (same_odd _ (m / 2 / 2 / 2 / 2 / 2 / 2) (omega arith))
                (ap (λ t. t ∷ []) (same_odd _ (m / 2 / 2 / 2 / 2 / 2 / 2 / 2) (omega arith)))))))))

int_bits-add_eight : (n m : ℕ) → int_bits (8 * suc n) m ≡ int_bits 8 m ++ int_bits (8 * n) (m / 256)
int_bits-add_eight n m =
    let e : 8 * suc n ≡ suc (suc (suc (suc (suc (suc (suc (suc (8 * n)))))))) = omega arith in
    let h : m / 256 ≡ m / 2 / 2 / 2 / 2 / 2 / 2 / 2 / 2 = omega arith in rw (e, h) refl

-- The little-endian bytes of a number hold its bits.
bits_of-to_bytes : (n m : ℕ) → bits_of (to_bytes n m) ≡ int_bits (8 * n) m
unfolding bits_of to_bytes
bits_of-to_bytes zero m = refl
bits_of-to_bytes (suc n) m =
    ap₂ ◌++◌ (byte_bits-int_bits m) (bits_of-to_bytes n (m / 256)) ∙ sym (int_bits-add_eight n m)

halved_zero : (i : ℕ) → halved i 0 ≡ 0
halved_zero zero = refl
halved_zero (suc i) = omega (arith, halved_zero i)

halved_small : (k i m : ℕ) → m < 2 ^ k → k ≤ i → halved i m ≡ 0
halved_small zero i m h le = let e : m ≡ 0 = omega arith in rw e (halved_zero i)
halved_small (suc k) zero m h le = absurd (omega arith)
halved_small (suc k) (suc i) m h le =
    sym (halved_inner i m) ∙ halved_small k i (m / 2) (omega (arith, pow-succ' 2 k)) (omega arith)

-- Bit `i` of the four bytes of a 32-bit number, past the fourth byte too.
data_bit-to_bytes : (m i : ℕ) → m < 2 ^ 32 → data_bit (to_bytes 4 m) i ≡ odd (halved i m)
data_bit-to_bytes m i h =
    sym (get_or-bits_of (to_bytes 4 m) i)
    ∙ ap (λ t. get_or t i false) (bits_of-to_bytes 4 m)
    ∙ elim (dec_lt i 32) [
      | yes lt ↦ get_or-int_bits 32 i m lt
      | no ge ↦
          get_or_out (int_bits 32 m) i false (omega (arith, length-int_bits 32 m))
          ∙ ap odd (sym (halved_small 32 i m h (omega arith)))
    ]

pub bit_run-int_bits :
    (n i m : ℕ) → m < 2 ^ 32 → bit_run n i (to_bytes 4 m) ≡ int_bits n (halved i m)
bit_run-int_bits zero i m h = refl
bit_run-int_bits (suc n) i m h =
    let e : i + 1 ≡ suc i = omega arith in
    ap₂ ◌∷◌ (data_bit-to_bytes m i h)
      (bit_run-int_bits n (i + 1) m h ∙ ap (λ k. int_bits n (halved k m)) e)

-- The number whose bits `write_int` emits.
abbrev pub written : ℤ → ℕ → ℕ
written value n = if ltb n 32 then low_bits value n else low_bits value 32

low_bits-lt : (value : ℤ) (n : ℕ) → low_bits value n < 2 ^ n
low_bits-lt (pos v) n = mod-lt v (one-le-pow n 2 (omega arith))
low_bits-lt (negsuc v) n = omega (arith, one-le-pow n 2 (omega arith))

pub two_pow_mono : (i j : ℕ) → i ≤ j → 2 ^ i ≤ 2 ^ j
two_pow_mono i j h = pow-le-pow_right (omega arith) h

written-lt : (value : ℤ) (n : ℕ) → written value n < 2 ^ 32
written-lt value n = elim (Bool-cases (ltb n 32)) [
  | inl small ↦
      rw small
        (le_trans (low_bits-lt value n) (two_pow_mono n 32 (omega (arith, ltb→lt n 32 small))))
  | inr large ↦ rw large (low_bits-lt value 32)
]

-- At most 32 bits: what is written is the value's low bits, and a value that fits is itself.
pub written_mod : (value : ℤ) (n : ℕ) → n ≤ 32 → written value n % 2 ^ n ≡ low_bits value n
written_mod value n h = elim (Bool-cases (ltb n 32)) [
  | inl t ↦ rw t (mod-eq_of_lt (low_bits-lt value n))
  | inr t ↦
      let e : n ≡ 32 = ground arith in
      rw t (
        ap (λ (k : ℕ). low_bits value 32 % 2 ^ k) e
        ∙ mod-eq_of_lt (low_bits-lt value 32)
        ∙ ap (low_bits value) (sym e))
]

pub written_small : (n v : ℕ) → n ≤ 32 → v < 2 ^ n → written (pos v) n ≡ v
written_small n v h small = elim (Bool-cases (ltb n 32)) [
  | inl t ↦ rw t (mod-eq_of_lt small)
  | inr t ↦ rw t (mod-eq_of_lt (le_trans small (two_pow_mono n 32 h)))
]

pub suc_not_zero : (n : ℕ) → (suc n == 0) ≡ false
suc_not_zero n = ground arith

write_int-suc :
    (value : ℤ) (n : ℕ)
    → write_int value (suc n) ≡ write_bits (suc n) (to_bytes 4 (written value (suc n)))
unfolding write_int
write_int-suc value n = rw (suc_not_zero n)

-- `write_int` emits the low bits of its value, lowest first.
pub Writes-int :
    (sb : Option (List ℕ)) (value : ℤ) (n : ℕ)
    → Writes sb (write_int value n) (int_bits n (written value n)) tt sb
unfolding write_int
Writes-int sb value zero = Writes-pure sb tt
Writes-int sb value (suc n) =
    subst (λ m. Writes sb m (int_bits (suc n) (written value (suc n))) tt sb)
      (sym (write_int-suc value n))
      (subst (λ t. Writes sb (write_bits (suc n) (to_bytes 4 (written value (suc n)))) t tt sb)
        (bit_run-int_bits (suc n) 0 (written value (suc n)) (written-lt value (suc n)))
        (Writes-bits sb (suc n) (to_bytes 4 (written value (suc n)))))

-- What `read_int` makes of the bytes that it read.
masked : ℕ → List ℕ → ℕ
masked n raw = (if ltb n 32 then from_bytes raw % 2 ^ n else from_bytes raw) % 2 ^ 32

read_int-suc : (n : ℕ) → read_int (suc n) ≡ (read_bits (suc n) >>= λ raw. pure (masked (suc n) raw))
unfolding read_int masked
read_int-suc n = rw (suc_not_zero n)

masked-packed : (bs : List Bool) → length bs ≤ 32 → masked (length bs) (packed bs) ≡ bits_val bs
unfolding masked
masked-packed bs h =
    let small : bits_val bs < 2 ^ 32 = le_trans (bits_val-lt bs) (two_pow_mono (length bs) 32 h) in
    let low : bits_val bs % 2 ^ 32 ≡ bits_val bs = mod-eq_of_lt small in
    let here : bits_val bs % 2 ^ length bs ≡ bits_val bs = mod-eq_of_lt (bits_val-lt bs) in
    rw from_bytes-packed
      (elim (Bool-cases (ltb (length bs) 32)) [ inl t ↦ rw (t, here) low | inr t ↦ rw t low ])

-- `read_int` returns the number that the next bits stand for.
pub Reads-int :
    (sb : Option (List ℕ)) (bs : List Bool)
    → length bs ≤ 32
    → Reads sb (read_int (length bs)) bs (bits_val bs) sb
unfolding read_int
Reads-int sb [] h = Reads-pure sb 0
Reads-int sb (b ∷ bs) h =
    subst (λ (v : ℕ). Reads sb (read_int (length (b ∷ bs))) (b ∷ bs) v sb)
      (masked-packed (b ∷ bs) h)
      (subst (λ m. Reads sb m (b ∷ bs) (masked (length (b ∷ bs)) (packed (b ∷ bs))) sb)
        (sym (read_int-suc (length bs)))
        (subst
          (λ t.
            Reads sb (read_bits (length (b ∷ bs)) >>= λ raw. pure (masked (length (b ∷ bs)) raw)) t
              (masked (length (b ∷ bs)) (packed (b ∷ bs))) sb)
          (append-nil (b ∷ bs)) (Reads-bind _ (Reads-bits sb (b ∷ bs)) (Reads-pure sb _))))

-- The bits of a number are read as that number, modulo the width.
pub Reads-int_bits :
    (sb : Option (List ℕ)) (n v : ℕ) → n ≤ 32 → Reads sb (read_int n) (int_bits n v) (v % 2 ^ n) sb
Reads-int_bits sb n v h =
    subst (λ (k : ℕ). Reads sb (read_int k) (int_bits n v) (v % 2 ^ n) sb) (length-int_bits n v)
      (subst (λ (k : ℕ). Reads sb (read_int (length (int_bits n v))) (int_bits n v) k sb)
        (bits_val-int_bits n v) (Reads-int sb (int_bits n v) (omega (arith, length-int_bits n v))))
