-- ===== src/BitStream/Ranged.antt =====
-- `_next_pow2`, `_bin_log2` and the ranged integers with their width.
use aot_headless_client.Base.{
  ℕ, zero, suc, ◌+◌, ◌-◌, ◌/◌, ◌^◌, ◌≤◌, ◌<◌, ◌≡◌, refl, ap, ◌∙◌, inl, inr, true, none, arith, ltb,
  leb, Bool-cases,
}
use native.Mathlib.Decide.{dec_lt}
use native.Mathlib.Nat.{pow-suc, one-le-pow}
use aot_headless_client.Base.Int.{pos, ◌-ℤ◌}
use aot_headless_client.Base.Values.{int_bits, length-int_bits}
use aot_headless_client.BitStream.{
  next_pow2_loop, next_pow2, bin_log2_loop, bin_log2, ranged_bits, write_ranged_u32,
  read_ranged_u32, new, open_on, get_bytes, write_int,
}
use aot_headless_client.BitStream.View.{Writes, Reads-return}
use aot_headless_client.BitStream.Appended.{transmit}
use aot_headless_client.BitStream.Ints.{Writes-int, written}
use aot_headless_client.BitStream.Signed.{Reads-magnitude}

-- `r` is a power of two, holds `value`, and no smaller power from `2 ^ a` on does.
record IsNextPow2 (value a r : ℕ) : Type 0 where
  exponent : ℕ
  power : r ≡ 2 ^ exponent
  holds : value ≤ 2 ^ exponent
  least : (k : ℕ) → value ≤ 2 ^ k → a ≤ k → exponent ≤ k

here-IsNextPow2 : (value a : ℕ) → value ≤ 2 ^ a → IsNextPow2 value a (2 ^ a)
here-IsNextPow2 value a h = record { exponent = a; power = refl; holds = h; least = λ k p q. q }

next-IsNextPow2 :
    (value a r : ℕ) → 2 ^ a < value → IsNextPow2 value (suc a) r → IsNextPow2 value a r
next-IsNextPow2 value a r h next = record {
  exponent = next.exponent;
  power = next.power;
  holds = next.holds;
  least = λ k p q. elim (dec_lt a k) [
    | yes lt ↦ next.least k p lt
    | no ge ↦ absurd (too_small k p (omega arith))
  ];
}
  where
    too_small : (k : ℕ) → value ≤ 2 ^ k → k ≡ a → ⊥
    too_small k p e = omega (arith, ap (λ (t : ℕ). 2 ^ t) e)

next_pow2_loop-IsNextPow2 :
    (fuel value a : ℕ)
    → value ≤ 2 ^ a + fuel
    → IsNextPow2 value a (next_pow2_loop fuel value (2 ^ a))
unfolding next_pow2_loop
next_pow2_loop-IsNextPow2 zero value a h = here-IsNextPow2 value a (omega arith)
next_pow2_loop-IsNextPow2 (suc fuel) value a h = elim (Bool-cases (ltb (2 ^ a) value)) [
  | inl t ↦
      rw (t, ← pow-suc 2 a)
        (next-IsNextPow2 value a _ (ground arith) (
          next_pow2_loop-IsNextPow2 fuel value (suc a)
            (omega (arith, pow-suc 2 a, one-le-pow a 2 (omega arith)))))
  | inr t ↦ rw t (here-IsNextPow2 value a (ground arith))
]

-- The loop of `_next_pow2` ends by its test: `value` rounds are enough.
next_pow2-IsNextPow2 : (value : ℕ) → IsNextPow2 value 0 (next_pow2 value)
unfolding next_pow2
next_pow2-IsNextPow2 value = elim (Bool-cases (leb value 1)) [
  | inl t ↦ rw t (here-IsNextPow2 value 0 (ground arith))
  | inr t ↦ rw t (next_pow2_loop-IsNextPow2 value value 0 (omega arith))
]

bin_log2_loop_pow : (fuel b bits : ℕ) → b ≤ fuel → bin_log2_loop fuel (2 ^ b) bits ≡ bits + b
unfolding bin_log2_loop
bin_log2_loop_pow zero zero bits h = omega arith
bin_log2_loop_pow zero (suc b) bits h = absurd (omega arith)
bin_log2_loop_pow (suc fuel) zero bits h = ground arith
bin_log2_loop_pow (suc fuel) (suc b) bits h =
    let more : ltb 1 (2 ^ suc b) ≡ true =
      ground (arith, pow-suc 2 b, one-le-pow b 2 (omega arith)) in
    let halved : 2 ^ suc b / 2 ≡ 2 ^ b = omega (arith, pow-suc 2 b) in
    rw (more, halved) (bin_log2_loop_pow fuel b (bits + 1) (omega arith) ∙ omega arith)

lt_two_pow : (b : ℕ) → b < 2 ^ b
lt_two_pow zero = omega arith
lt_two_pow (suc b) = omega (arith, lt_two_pow b, pow-suc 2 b)

bin_log2_pow : (b : ℕ) → bin_log2 (2 ^ b) ≡ b
unfolding bin_log2
bin_log2_pow b = bin_log2_loop_pow (2 ^ b) b 0 (omega (arith, lt_two_pow b)) ∙ omega arith

-- `_bin_log2(_next_pow2(size))` is the least width at which every offset below `size` fits.
pub ranged_bits_least :
    (range_start range_end : ℕ)
    → (range_end + 1 - range_start ≤ 2 ^ ranged_bits range_start range_end)
      × ((k : ℕ) → range_end + 1 - range_start ≤ 2 ^ k → ranged_bits range_start range_end ≤ k)
unfolding ranged_bits
ranged_bits_least range_start range_end =
    let size = range_end + 1 - range_start in
    let next = next_pow2-IsNextPow2 size in
    let width : bin_log2 (next_pow2 size) ≡ next.exponent =
      ap bin_log2 next.power ∙ bin_log2_pow next.exponent in
    rw width (next.holds, λ k p. next.least k p (omega arith))

-- Every value of a range whose width is at most 32 bits is read back, and takes exactly that width.
pub read_ranged_u32-write_ranged_u32 :
    (value lo hi : ℕ)
    → lo ≤ value
    → value ≤ hi
    → ranged_bits lo hi ≤ 32
    → ((read_ranged_u32 lo hi (open_on (get_bytes (write_ranged_u32 (pos value) lo hi new).1))).0
        ≡ value)
      × ((read_ranged_u32 lo hi
            (open_on (get_bytes (write_ranged_u32 (pos value) lo hi new).1))).1.bit_num
          ≡ ranged_bits lo hi)
unfolding write_ranged_u32 read_ranged_u32
read_ranged_u32-write_ranged_u32 value lo hi low high small =
    let n = ranged_bits lo hi in
    let offset : pos value -ℤ pos lo ≡ pos (value - lo) = ground arith in
    let fits : value - lo < 2 ^ n = omega (arith, (ranged_bits_least lo hi).0) in
    let written_as : Writes none (write_int (pos value -ℤ pos lo) n)
        (int_bits n (written (pos (value - lo)) n)) tt none =
      rw offset (Writes-int none (pos (value - lo)) n) in
    let (got, moved, fine) =
      transmit written_as
        (Reads-return (λ (v : ℕ). v + lo) (Reads-magnitude none n (value - lo) small fits)) in
    (got ∙ omega arith, moved ∙ length-int_bits n (written (pos (value - lo)) n))
