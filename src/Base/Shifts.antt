-- ===== src/Base/Shifts.antt =====
-- Bits of shifted and cut numbers.
use Prim.Native.Nat.{ℕ, zero, suc, ◌+◌, ◌-◌, ◌*◌, ◌/◌, ◌%◌, ◌^◌, ◌<◌}
use mathlib.Core.Path.{◌≡◌, refl, sym, ap, ◌∙◌}
use mathlib.Core.Bool.{true, false}
use native.Mathlib.Omega.{arith}
use native.Mathlib.Nat.{pow-suc, pow-succ', div-div-eq-div-mul, mul_assoc, one-le-pow}
use aot_headless_client.Base.Tests.{ltb, ◌==◌, if◌then◌else◌}
use aot_headless_client.Base.Bytes.{odd, test_bit}
use aot_headless_client.Base.Values.{mod_double}

pub test_bit-suc : (x k : ℕ) → test_bit x (suc k) ≡ test_bit (x / 2) k
test_bit-suc x k =
    ap (λ (t : ℕ). odd (x / t)) (pow-succ' 2 k) ∙ ap odd (sym (div-div-eq-div-mul x 2 (2 ^ k)))

cut_halves : (w x : ℕ) → (x % 2 ^ suc w % 2 ≡ x % 2) × (x % 2 ^ suc w / 2 ≡ x / 2 % 2 ^ w)
cut_halves w x =
    let cut : x % 2 ^ suc w ≡ x % 2 + 2 * (x / 2 % 2 ^ w) =
      ap (λ (t : ℕ). x % t) (pow-succ' 2 w) ∙ mod_double x (2 ^ w) (one-le-pow w 2 (omega arith)) in
    (omega (arith, cut), omega (arith, cut))

-- `& (2 ** w - 1)` keeps the bits below `w`.
pub test_bit-mod : (w k x : ℕ) → k < w → test_bit (x % 2 ^ w) k ≡ test_bit x k
test_bit-mod zero k x h = absurd (omega arith)
test_bit-mod (suc w) zero x h = ap (λ (t : ℕ). t == 1) (omega (arith, (cut_halves w x).0))
test_bit-mod (suc w) (suc k) x h =
    test_bit-suc (x % 2 ^ suc w) k
    ∙ ap (λ (t : ℕ). test_bit t k) (cut_halves w x).1
    ∙ test_bit-mod w k (x / 2) (omega arith)
    ∙ sym (test_bit-suc x k)

shift_halves : (m d : ℕ) → m * 2 ^ suc d ≡ m * 2 ^ d * 2
shift_halves m d = ap (λ (t : ℕ). m * t) (pow-suc 2 d) ∙ sym (mul_assoc m (2 ^ d) 2)

-- `m << d`
pub test_bit-shift :
    (d k m : ℕ) → test_bit (m * 2 ^ d) k ≡ (if ltb k d then false else test_bit m (k - d))
test_bit-shift zero k m =
    let none_below : ltb k 0 ≡ false = ground arith in
    let same : m * 2 ^ 0 ≡ m = omega arith in
    let whole : k - 0 ≡ k = omega arith in rw (none_below, same, whole) refl
test_bit-shift (suc d) zero m =
    let first : ltb 0 (suc d) ≡ true = ground arith in
    let even : m * 2 ^ suc d / 2 ^ 0 % 2 ≡ 0 = omega (arith, shift_halves m d) in
    rw first (ap (λ (t : ℕ). t == 1) even)
test_bit-shift (suc d) (suc k) m =
    let halved : m * 2 ^ suc d / 2 ≡ m * 2 ^ d = omega (arith, shift_halves m d) in
    let less : ltb (suc k) (suc d) ≡ ltb k d = ground arith in
    let below : suc k - suc d ≡ k - d = omega arith in
    test_bit-suc (m * 2 ^ suc d) k
    ∙ ap (λ (t : ℕ). test_bit t k) halved
    ∙ test_bit-shift d k m
    ∙ sym (rw (less, below) refl)

-- Setting and clearing the lowest bit.
pub test_bit-low :
    (m k b : ℕ) → b < 2 → test_bit (m / 2 * 2 + b) k ≡ (if k == 0 then b == 1 else test_bit m k)
test_bit-low m zero b h =
    ap (λ (t : ℕ). t == 1) (let e : (m / 2 * 2 + b) / 2 ^ 0 % 2 ≡ b = omega arith in e)
test_bit-low m (suc k) b h =
    let other : (suc k == 0) ≡ false = ground arith in
    let rest : (m / 2 * 2 + b) / 2 ≡ m / 2 = omega arith in
    rw other
      (test_bit-suc (m / 2 * 2 + b) k ∙ ap (λ (t : ℕ). test_bit t k) rest ∙ sym (test_bit-suc m k))
