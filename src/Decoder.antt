-- ===== src/Decoder.antt =====
-- What the decoders of events.py, phases.py, ghosts.py and datablocks.py share: readers of the bit
-- stream that may raise, and `for _ in range(n)`. A decoder that raises leaves the stream where it stopped.
pub mod Decodes
pub mod Rules
pub mod Sizes
use aot_headless_client.Base.{ℕ, zero, suc, Bool, true, false, Option, none, some, if◌then◌else◌}
use aot_headless_client.BitStream.{BitStream, M, pure, ◌>>=◌, ◌>>◌, read_flag, read_int, read_bytes}

abbrev pub skip_all : M (Unit {0})
skip_all = pure tt

-- `for _ in range(count): m`
unfoldable pub repeat : {A : Type 0} → ℕ → M A → M (Unit {0})
repeat zero m = skip_all
repeat (suc left) m = m >> repeat left m

-- `if test: m`
unfoldable pub when : {A : Type 0} → Bool → M A → M (Unit {0})
when true m = m >> skip_all
when false m = skip_all

-- `if bs.read_flag(): m`
unfoldable pub if_flag : {A : Type 0} → M A → M (Unit {0})
unfolding when
if_flag m = read_flag >>= λ present. when present m

-- `if not bs.read_flag(): m`
unfoldable pub unless_flag : {A : Type 0} → M A → M (Unit {0})
unfolding when
unless_flag m = read_flag >>= λ present. if present then skip_all else when true m

-- `read_float`: the numerator of the fraction over 2 ^ bits - 1.
unfoldable pub read_float : ℕ → M ℕ
read_float bit_count = read_int bit_count

-- A decoder that raises answers `none`.
abbrev pub D : Type 0 → Type 0
D A = M (Option A)

unfoldable pub raise : {A : Type 0} → D A
raise = pure none

unfoldable pub fine : M (Unit {0}) → D (Unit {0})
fine m = m >>= λ v. pure (some tt)

abbrev pub after : {A B : Type 0} → Option A → (A → D B) → D B
after none f = pure none
after (some v) f = f v

-- The next step is taken unless the one before raised.
unfoldable pub then_ : {A B : Type 0} → D A → (A → D B) → D B
then_ m f = m >>= λ o. after o f

-- `if bs.read_flag(): m else: n`
unfoldable pub choose_flag : {A : Type 0} → M A → M A → M A
choose_flag m n = read_flag >>= λ present. if present then m else n

unfoldable pub ok : D (Unit {0})
ok = pure (some tt)

-- `for _ in range(WHEELED_VEHICLE_WHEEL_COUNT): m`, which raises while the count is not set.
unfoldable pub for_wheels : {A : Type 0} → Option ℕ → M A → D (Unit {0})
for_wheels none m = raise
for_wheels (some count) m = fine (repeat count m)
