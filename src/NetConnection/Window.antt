-- ===== src/NetConnection/Window.antt =====
-- aotbot/netconn.py: the 9-bit sequence numbers and `unwrap`.
use aot_headless_client.Base.{
  ℕ, ◌+◌, ◌-◌, ◌*◌, ◌/◌, ◌%◌, ◌^◌, ◌≤◌, ◌<◌, ◌≡◌, ap, ◌∙◌, arith, ltb, if◌then◌else◌, bit_and,
  bit_or,
}
use native.Mathlib.Nat.{mod-eq_of_lt}
use aot_headless_client.Base.BitOps.{bit_or_low, bit_and_high, bit_and_low}
use aot_headless_client.NetConnection.{unwrap}

-- `last & 0xFFFFFE00`
high_part : (last : ℕ) → last < 2 ^ 32 → bit_and last 0xFFFFFE00 ≡ last / 512 * 512
high_part last h =
    bit_and_high 9 last (2 ^ 23 - 1)
    ∙ ap (λ t. t * 512) (bit_and_low 23 (last / 512) ∙ mod-eq_of_lt (omega arith))

-- In plain arithmetic: the field under the block of 512 of `last`, or under the next block.
pub unwrap-blocks :
    (last field : ℕ)
    → last < 2 ^ 32
    → field < 512
    → unwrap last field ≡ (
        if ltb (field + last / 512 * 512) last
        then field + last / 512 * 512 + 512
        else field + last / 512 * 512)
unfolding unwrap
unwrap-blocks last field h f =
    ap (λ (m : ℕ). if ltb (bit_or field m) last then bit_or field m + 512 else bit_or field m)
      (high_part last h)
    ∙ ap (λ (m : ℕ). if ltb m last then m + 512 else m) (bit_or_low 9 field (last / 512) f)

-- The nine low bits of a number give the number back, if it is not below the last one, at most 511
-- ahead of it, and the last one is below 2 ^ 32.
pub unwrap-mod :
    (last seq : ℕ) → last < 2 ^ 32 → last ≤ seq → seq < last + 512 → unwrap last (seq % 512) ≡ seq
unwrap-mod last seq h low high = unwrap-blocks last (seq % 512) h (omega arith) ∙ ground arith

-- For a 9-bit field and a last number below 2 ^ 32, the result of `unwrap` never lies behind the last
-- number, and is less than 512 ahead of it.
pub unwrap_range :
    (last field : ℕ)
    → last < 2 ^ 32
    → field < 512
    → (last ≤ unwrap last field) × (unwrap last field < last + 512)
unwrap_range last field h f = ground (arith, unwrap-blocks last field h f)
