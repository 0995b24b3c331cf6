-- ===== src/Base/Bytes.antt =====
-- Bytes as lists of eight bits, lowest bit first, and what setting and clearing a bit does to them.
use Prim.Native.Nat.{ℕ, zero, suc, ◌+◌, ◌-◌, ◌*◌, ◌/◌, ◌%◌, ◌^◌, ◌<◌, bit_and, bit_or}
use mathlib.Core.Path.{◌≡◌, refl, sym, ap, ◌∙◌}
use mathlib.Core.Bool.{Bool, true, false, not, ◌&&◌}
use mathlib.Core.List.{List, [], ◌∷◌, ◌++◌}
use native.Mathlib.Omega.{arith}
use aot_headless_client.Base.Tests.{ltb, ◌==◌, ltb→lt}
use aot_headless_client.Base.Lists.{
  length, get_or, set, All, set-append_left, set-append_right, get_or-append_left,
  get_or-append_right,
}
use native.Mathlib.Decide.{dec_lt}
use native.Mathlib.Nat.{zero-div}

abbrev pub odd : ℕ → Bool
odd n = n % 2 == 1

-- `(b >> i) & 1`
abbrev pub test_bit : ℕ → ℕ → Bool
test_bit b i = odd (b / 2 ^ i)

abbrev pub IsByte : ℕ → Type 0
IsByte b = b < 256

abbrev pub byte_bits : ℕ → List Bool
byte_bits b =
    test_bit b 0
    ∷ test_bit b 1
    ∷ test_bit b 2
    ∷ test_bit b 3
    ∷ test_bit b 4
    ∷ test_bit b 5
    ∷ test_bit b 6
    ∷ test_bit b 7
    ∷ []

-- The bits of a byte string in the order in which a stream walks them.
unfoldable pub bits_of : List ℕ → List Bool
bits_of [] = []
bits_of (b ∷ bs) = byte_bits b ++ bits_of bs

-- `b |= 1 << k` and `b &= ~(1 << k) & 0xFF`
abbrev pub put_bit : ℕ → ℕ → Bool → ℕ
put_bit b k true = bit_or b (2 ^ k)
put_bit b k false = bit_and b (255 - 2 ^ k)

-- Over a small range a test is checked at every value.
unfoldable pub checks : (ℕ → Bool) → ℕ → Bool
checks test zero = true
checks test (suc n) = test n && checks test n

pub checks_at : (test : ℕ → Bool) (v n : ℕ) → v < n → checks test n ≡ true → test v ≡ true
unfolding checks
checks_at test v zero small all = absurd (omega arith)
checks_at test v (suc n) small all = ground (arith, checks_at test v n)

pub bits_eq : List Bool → List Bool → Bool
bits_eq [] [] = true
bits_eq [] (c ∷ cs) = false
bits_eq (b ∷ bs) [] = false
bits_eq (true ∷ bs) (c ∷ cs) = c && bits_eq bs cs
bits_eq (false ∷ bs) (c ∷ cs) = not c && bits_eq bs cs

bits_eq_sound : (bs cs : List Bool) → bits_eq bs cs ≡ true → bs ≡ cs
unfolding bits_eq
bits_eq_sound [] [] h = refl
bits_eq_sound [] (c ∷ cs) h = cc
bits_eq_sound (b ∷ bs) [] h = cc
bits_eq_sound (true ∷ bs) (true ∷ cs) h = ap (λ t. true ∷ t) (bits_eq_sound bs cs h)
bits_eq_sound (true ∷ bs) (false ∷ cs) h = cc
bits_eq_sound (false ∷ bs) (true ∷ cs) h = cc
bits_eq_sound (false ∷ bs) (false ∷ cs) h = ap (λ t. false ∷ t) (bits_eq_sound bs cs h)

put_bit_row : ℕ → ℕ → Bool → Bool
put_bit_row b k v =
    bits_eq (byte_bits (put_bit b k v)) (set (byte_bits b) k v) && ltb (put_bit b k v) 256

put_bit_table :
    checks (λ b. checks (λ k. put_bit_row b k true && put_bit_row b k false) 8) 256 ≡ true
unfolding checks put_bit_row bits_eq
put_bit_table = refl

and_left : (a b : Bool) → (a && b) ≡ true → a ≡ true
and_left a b h = ground arith

and_right : (a b : Bool) → (a && b) ≡ true → b ≡ true
and_right a b h = ground arith

put_bit_row-true : (b k : ℕ) (v : Bool) → IsByte b → k < 8 → put_bit_row b k v ≡ true
put_bit_row-true b k true hb hk =
    and_left _ _ (checks_at _ k 8 hk (checks_at _ b 256 hb put_bit_table))
put_bit_row-true b k false hb hk =
    and_right _ _ (checks_at _ k 8 hk (checks_at _ b 256 hb put_bit_table))

-- Writing bit `k` of a byte replaces the bit `k` and no other.
pub byte_bits-put_bit :
    (b k : ℕ) (v : Bool) → IsByte b → k < 8 → byte_bits (put_bit b k v) ≡ set (byte_bits b) k v
unfolding put_bit_row
byte_bits-put_bit b k v hb hk = bits_eq_sound _ _ (and_left _ _ (put_bit_row-true b k v hb hk))

pub put_bit-IsByte : (b k : ℕ) (v : Bool) → IsByte b → k < 8 → IsByte (put_bit b k v)
unfolding put_bit_row
put_bit-IsByte b k v hb hk = ltb→lt _ _ (
    and_right (bits_eq (byte_bits (put_bit b k v)) (set (byte_bits b) k v)) _
      (put_bit_row-true b k v hb hk))

pub length-bits_of : (bs : List ℕ) → length (bits_of bs) ≡ 8 * length bs
unfolding bits_of
length-bits_of [] = refl
length-bits_of (b ∷ bs) = omega (arith, length-bits_of bs)

pub bits_of-append : (xs ys : List ℕ) → bits_of (xs ++ ys) ≡ bits_of xs ++ bits_of ys
unfolding bits_of
bits_of-append [] ys = refl
bits_of-append (x ∷ xs) ys = ap (λ t. byte_bits x ++ t) (bits_of-append xs ys)

-- The write of bit `k` of byte `i`, on the bits of the whole buffer.
pub bits_of-set :
    (bs : List ℕ) (i k : ℕ) (v : Bool)
    → All IsByte bs
    → i < length bs
    → k < 8
    → bits_of (set bs i (put_bit (get_or bs i 0) k v)) ≡ set (bits_of bs) (8 * i + k) v
unfolding bits_of
bits_of-set [] i k v ok h hk = absurd (omega arith)
bits_of-set (b ∷ bs) zero k v (ok, oks) h hk =
    let e : 8 * 0 + k ≡ k = omega arith in
    ap (λ t. t ++ bits_of bs) (byte_bits-put_bit b k v ok hk)
    ∙ sym (set-append_left (byte_bits b) (bits_of bs) k v hk)
    ∙ ap (λ n. set (bits_of (b ∷ bs)) n v) (sym e)
bits_of-set (b ∷ bs) (suc i) k v (ok, oks) h hk =
    rw (bits_of-set bs i k v oks (omega arith) hk) (
      sym (set-append_right (byte_bits b) (bits_of bs) (8 * suc i + k) (8 * i + k) v (omega arith)))

get_or-byte_bits : (b i : ℕ) → i < 8 → get_or (byte_bits b) i false ≡ test_bit b i
get_or-byte_bits b zero h = refl
get_or-byte_bits b (suc zero) h = refl
get_or-byte_bits b (suc (suc zero)) h = refl
get_or-byte_bits b (suc (suc (suc zero))) h = refl
get_or-byte_bits b (suc (suc (suc (suc zero)))) h = refl
get_or-byte_bits b (suc (suc (suc (suc (suc zero))))) h = refl
get_or-byte_bits b (suc (suc (suc (suc (suc (suc zero)))))) h = refl
get_or-byte_bits b (suc (suc (suc (suc (suc (suc (suc zero))))))) h = refl
get_or-byte_bits b (suc (suc (suc (suc (suc (suc (suc (suc i)))))))) h = absurd (omega arith)

-- Bit `i` of the buffer is bit `i & 7` of byte `i >> 3`; past the end it is 0.
pub get_or-bits_of :
    (bs : List ℕ) (i : ℕ) → get_or (bits_of bs) i false ≡ test_bit (get_or bs (i / 8) 0) (i % 8)
unfolding bits_of
get_or-bits_of [] i = sym (zero_bit (i % 8))
  where
    zero_bit : (k : ℕ) → test_bit 0 k ≡ false
    zero_bit k = ground (arith, zero-div (2 ^ k))
get_or-bits_of (b ∷ bs) i = elim (dec_lt i 8) [
  | yes h ↦
      let q : i / 8 ≡ 0 = omega arith in
      let r : i % 8 ≡ i = omega arith in
      rw (q, r) (get_or-append_left (byte_bits b) (bits_of bs) i false h ∙ get_or-byte_bits b i h)
  | no h ↦
      let q : i / 8 ≡ suc ((i - 8) / 8) = omega arith in
      let r : i % 8 ≡ (i - 8) % 8 = omega arith in
      rw (q, r)
        (get_or-append_right (byte_bits b) (bits_of bs) i (i - 8) false (omega arith)
          ∙ get_or-bits_of bs (i - 8))
]
