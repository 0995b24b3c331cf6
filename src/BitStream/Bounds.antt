-- ===== src/BitStream/Bounds.antt =====
-- aotbot/bitstream.py: the bounds of what is read, and the error flag of a read past the end.
use aot_headless_client.Base.{
  ℕ, zero, suc, ◌+◌, ◌*◌, ◌/◌, ◌%◌, ◌^◌, ◌≤◌, ◌<◌, ◌≡◌, refl, sym, ◌∙◌, inl, inr, Bool, true, false,
  ◌||◌, ◌&&◌, List, arith, ltb, if◌then◌else◌, length, get_or, set, replicate, Bool-cases,
}
use native.Mathlib.Nat.{mod-lt, mod-le}
use aot_headless_client.Base.Bytes.{put_bit}
use aot_headless_client.BitStream.{
  BitStream, pure, ◌>>=◌, read_flag, read_bits_loop, read_bits, from_bytes, read_int,
}
use aot_headless_client.BitStream.Ints.{two_pow_mono, suc_not_zero}

masked_lt : (n v : ℕ) → (if ltb n 32 then v % 2 ^ n else v) % 2 ^ 32 < 2 ^ n
masked_lt n v = elim (Bool-cases (ltb n 32)) [
  | inl t ↦
      let small : v % 2 ^ n < 2 ^ n = mod-lt v (omega (arith, two_pow_mono 0 n (omega arith))) in
      rw t (omega (arith, small, mod-le (v % 2 ^ n) (2 ^ 32)))
  | inr t ↦
      let wide : 2 ^ 32 ≤ 2 ^ n = two_pow_mono 32 n (ground arith) in
      rw t (omega (arith, wide, mod-lt v {m = 2 ^ 32} (omega arith)))
]

-- `read_int` of `n` bits returns less than 2 ^ n, whatever the stream is.
pub read_int-lt : (n : ℕ) (s : BitStream) → (read_int n s).0 < 2 ^ n
unfolding read_int pure ◌>>=◌
read_int-lt zero s = omega arith
read_int-lt (suc n) s = rw (suc_not_zero n) (masked_lt (suc n) (from_bytes (read_bits (suc n) s).0))

pub read_flag_error :
    (s : BitStream)
    → ((read_flag s).1.error ≡ (s.error || ltb (8 * length s.buf) (s.bit_num + 1)))
      × ((read_flag s).1.bit_num ≡ s.bit_num + 1)
      × ((read_flag s).1.buf ≡ s.buf)
unfolding read_flag
read_flag_error s = ground arith

bits_error_step :
    (n k left : ℕ) (e : Bool)
    → ((e || ltb n (k + 1)) || (ltb 0 left && ltb n (k + 1 + left)))
      ≡ (e || (ltb 0 (suc left) && ltb n (k + suc left)))
bits_error_step n k left true = refl
bits_error_step n k left false = ground arith

-- What a run of reads does to the flag, the cursor and the buffer.
record AfterBits (n : ℕ) (s t : BitStream) : Type 0 where
  pub error : t.error ≡ (s.error || (ltb 0 n && ltb (8 * length s.buf) (s.bit_num + n)))
  pub moved : t.bit_num ≡ s.bit_num + n
  pub kept : t.buf ≡ s.buf

or_false : (e : Bool) → (e || false) ≡ e
or_false true = refl
or_false false = refl

read_bits_loop-AfterBits :
    (left i : ℕ) (out : List ℕ) (s : BitStream) → AfterBits left s (read_bits_loop left i out s).1
unfolding read_bits_loop
read_bits_loop-AfterBits zero i out s = record {
  error = sym (or_false s.error);
  moved = omega arith;
  kept = refl;
}
read_bits_loop-AfterBits (suc left) i out s =
    let t = (read_flag s).1 in
    let (e, m, k) = read_flag_error s in
    let next : List ℕ =
      if (read_flag s).0
      then set out (i / 8) (put_bit (get_or out (i / 8) 0) (i % 8) true)
      else out in
    let r = read_bits_loop-AfterBits left (i + 1) next t in
    record {
      error = r.error ∙ rw (e, m, k) (bits_error_step (8 * length s.buf) s.bit_num left s.error);
      moved = r.moved ∙ omega (arith, m);
      kept = r.kept ∙ k;
    }

pub read_bits_moved : (n : ℕ) (s : BitStream) → (read_bits n s).1.bit_num ≡ s.bit_num + n
unfolding read_bits
read_bits_moved n s = (read_bits_loop-AfterBits n 0 (replicate ((n + 7) / 8) 0) s).moved

-- `read_int` of `n` bits moves the cursor by exactly `n`, also past the end, and keeps the buffer; the
-- error flag is set afterwards if and only if it was set before or the read ran past the end.
pub read_int_error :
    (n : ℕ) (s : BitStream)
    → ((read_int n s).1.error ≡ (s.error || (ltb 0 n && ltb (8 * length s.buf) (s.bit_num + n))))
      × ((read_int n s).1.bit_num ≡ s.bit_num + n)
      × ((read_int n s).1.buf ≡ s.buf)
unfolding read_int read_bits pure ◌>>=◌
read_int_error zero s = (sym (or_false s.error), omega arith, refl)
read_int_error (suc n) s =
    let r = read_bits_loop-AfterBits (suc n) 0 (replicate ((suc n + 7) / 8) 0) s in
    rw (suc_not_zero n) (r.error, r.moved, r.kept)
