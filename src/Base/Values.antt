-- ===== src/Base/Values.antt =====
-- The number that a list of bits stands for, lowest bit first, and the bits of a number.
use Prim.Native.Nat.{ℕ, zero, suc, ◌+◌, ◌*◌, ◌/◌, ◌%◌, ◌^◌, ◌≤◌, ◌<◌}
use mathlib.Core.Path.{◌≡◌, refl, sym, ap, ◌∙◌}
use mathlib.Core.Bool.{Bool, true, false}
use mathlib.Core.List.{List, [], ◌∷◌, ◌++◌}
use native.Mathlib.Omega.{arith}
use native.Mathlib.Nat.{one-le-pow, div-eq_of_lt-le, mod-eq-sub-div-mul, pow-succ'}
use aot_headless_client.Base.Tests.{◌==◌, ==_iff}
use aot_headless_client.Base.Lists.{length, replicate, All, drop}
use aot_headless_client.Base.Bytes.{odd, IsByte, byte_bits, bits_of, checks, checks_at}

abbrev pub bit_val : Bool → ℕ
bit_val true = 1
bit_val false = 0

abbrev pub bits_val : List Bool → ℕ
bits_val [] = 0
bits_val (b ∷ bs) = bit_val b + 2 * bits_val bs

-- The low `n` bits of `v`.
abbrev pub int_bits : ℕ → ℕ → List Bool
int_bits zero v = []
int_bits (suc n) v = odd v ∷ int_bits n (v / 2)

pub length-int_bits : (n v : ℕ) → length (int_bits n v) ≡ n
length-int_bits zero v = refl
length-int_bits (suc n) v = ap suc (length-int_bits n (v / 2))

pub bits_val-append_zeros :
    (bs : List Bool) (k : ℕ) → bits_val (bs ++ replicate k false) ≡ bits_val bs
bits_val-append_zeros [] zero = refl
bits_val-append_zeros [] (suc k) = omega (arith, bits_val-append_zeros [] k)
bits_val-append_zeros (b ∷ bs) k = omega (arith, bits_val-append_zeros bs k)

bit_val_le : (b : Bool) → bit_val b ≤ 1
bit_val_le true = omega arith
bit_val_le false = omega arith

pub bits_val-lt : (bs : List Bool) → bits_val bs < 2 ^ length bs
bits_val-lt [] = omega arith
bits_val-lt (b ∷ bs) = omega (arith, bits_val-lt bs, bit_val_le b, pow-succ' 2 (length bs))

pub mod_unique : (a q m r : ℕ) → a ≡ q * m + r → r < m → a % m ≡ r
mod_unique a q m r e h =
    let d : a / m ≡ q = div-eq_of_lt-le m (omega arith) (grind arith) in
    omega (arith, mod-eq-sub-div-mul a m, ap (λ (t : ℕ). t * m) d)

-- The lowest bit of a remainder by a power of two, and the rest.
pub mod_double : (v m : ℕ) → 0 < m → v % (2 * m) ≡ v % 2 + 2 * (v / 2 % m)
mod_double v m h =
    mod_unique v (v / 2 / m) (2 * m) (v % 2 + 2 * (v / 2 % m))
      (omega (arith, mod-eq-sub-div-mul (v / 2) m)) (omega (arith, mod-eq-sub-div-mul (v / 2) m))

bit_val-odd : (v : ℕ) → bit_val (odd v) ≡ v % 2
bit_val-odd v = ground arith

pub bits_val-int_bits : (n v : ℕ) → bits_val (int_bits n v) ≡ v % 2 ^ n
bits_val-int_bits zero v = omega arith
bits_val-int_bits (suc n) v =
    let m = mod_double v (2 ^ n) (one-le-pow n 2 (omega arith)) in
    omega
      (arith, bits_val-int_bits n (v / 2), bit_val-odd v, m, ap (λ (t : ℕ). v % t) (pow-succ' 2 n))

byte_table : checks (λ b. bits_val (byte_bits b) == b) 256 ≡ true
unfolding checks
byte_table = refl

pub bits_val-byte_bits : (b : ℕ) → IsByte b → bits_val (byte_bits b) ≡ b
bits_val-byte_bits b h = (==_iff _ b).0 (checks_at _ b 256 h byte_table)

-- A byte in front of other bits.
pub bits_val-byte_append :
    (b : ℕ) (bs : List Bool) → IsByte b → bits_val (byte_bits b ++ bs) ≡ b + 256 * bits_val bs
bits_val-byte_append b bs h = omega (arith, bits_val-byte_bits b h)

byte_front : List Bool → ℕ
byte_front (a ∷ b ∷ c ∷ d ∷ e ∷ f ∷ g ∷ h ∷ rest) = bits_val (a ∷ b ∷ c ∷ d ∷ e ∷ f ∷ g ∷ h ∷ [])
byte_front bs = 0

-- Bytes are determined by their bits.
pub bits_of-injective :
    (xs ys : List ℕ) → All IsByte xs → All IsByte ys → bits_of xs ≡ bits_of ys → xs ≡ ys
unfolding bits_of byte_front
bits_of-injective [] [] p q e = refl
bits_of-injective [] (y ∷ ys) p q e = cc
bits_of-injective (x ∷ xs) [] p q e = cc
bits_of-injective (x ∷ xs) (y ∷ ys) (p, ps) (q, qs) e =
    let head : x ≡ y = sym (bits_val-byte_bits x p) ∙ ap byte_front e ∙ bits_val-byte_bits y q in
    let rest : xs ≡ ys = bits_of-injective xs ys ps qs (ap (drop 8) e) in cc
