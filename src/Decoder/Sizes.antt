-- ===== src/Decoder/Sizes.antt =====
-- The fewest bits that a reader moves the cursor by, past the end of the stream too.
use aot_headless_client.Base.{
  ℕ, zero, suc, ◌+◌, ◌-◌, ◌*◌, ◌≤◌, Bool, true, false, Option, List, some, none, arith,
  if◌then◌else◌,
}
use aot_headless_client.Base.Int.{ℤ}
use aot_headless_client.BitStream.{
  M, pure, ◌>>=◌, read_flag, read_int, read_signed_int, read_bytes, read_ranged_u32, ranged_bits,
}
use aot_headless_client.BitStream.Bounds.{read_flag_error, read_int_error, read_bits_moved}
use aot_headless_client.BitStream.Strings.{read_whole, read_dedup, read_with, read_string}
use aot_headless_client.Decoder.{repeat, when, if_flag, unless_flag, choose_flag, read_float}
use aot_headless_client.Decoder.Decodes.{Decodes, Decodes-pure, Decodes-bind}
use aot_headless_client.BitStream.Huffman.{tables, read_buffer}
use aot_headless_client.Decoder.Rules.{
  Decodes-if, Decodes-when, Decodes-repeat, Decodes-symbols, Decodes-bytes, Decodes-buffer,
  Decodes-set_string_buffer,
}

pub record AtLeast (bits : ℕ) {A : Type 0} (m : M A) : Type 0 where
  pub least : (s : _) → s.bit_num + bits ≤ (m s).1.bit_num

pub AtLeast-none : {A : Type 0} {m : M A} → Decodes m → AtLeast 0 m
AtLeast-none d = record { least = λ s. omega (arith, d.onward s) }

pub AtLeast-pure : {A : Type 0} (v : A) → AtLeast 0 (pure v)
unfolding pure
AtLeast-pure v = record { least = λ s. omega arith }

-- The bits that are left of `all` after the first step are the second step's to take.
pub AtLeast-bind :
    {A B : Type 0} {m : M A} {f : A → M B} {first all : ℕ}
    → AtLeast first m
    → ((v : A) → AtLeast (all - first) (f v))
    → AtLeast all (m >>= f)
unfolding ◌>>=◌
AtLeast-bind {m = m} {first = first} {all = all} d g = record {
  least = λ s. omega (arith, d.least s, (g (m s).0).least (m s).1);
}

pub AtLeast-flag : AtLeast 1 read_flag
AtLeast-flag = record { least = λ s. omega (arith, (read_flag_error s).1) }

pub AtLeast-int : (bit_count : ℕ) → AtLeast bit_count (read_int bit_count)
AtLeast-int bit_count = record { least = λ s. omega (arith, (read_int_error bit_count s).1) }

pub AtLeast-float : (bit_count : ℕ) → AtLeast bit_count (read_float bit_count)
unfolding read_float
AtLeast-float bit_count = AtLeast-int bit_count

pub AtLeast-bytes : (count : ℕ) → AtLeast (count * 8) (read_bytes count)
unfolding read_bytes
AtLeast-bytes count = record { least = λ s. omega (arith, read_bits_moved (count * 8) s) }

pub AtLeast-ranged_u32 : (lo hi : ℕ) → AtLeast (ranged_bits lo hi) (read_ranged_u32 lo hi)
unfolding read_ranged_u32 pure
AtLeast-ranged_u32 lo hi =
    AtLeast-bind (AtLeast-int (ranged_bits lo hi)) (λ v. record { least = λ s. omega arith })

pub AtLeast-signed_int : (less : ℕ) → AtLeast (less + 1) (read_signed_int (less + 1))
unfolding read_signed_int pure ◌>>=◌
AtLeast-signed_int less = record {
  least =
      λ s. omega (arith, (read_flag_error s).1, (read_int_error (less + 1 - 1) (read_flag s).1).1);
}

pub AtLeast-when : {A : Type 0} {m : M A} (b : Bool) → Decodes m → AtLeast 0 (when b m)
AtLeast-when b d = AtLeast-none (Decodes-when b d)

pub AtLeast-if_flag : {A : Type 0} {m : M A} → Decodes m → AtLeast 1 (if_flag m)
unfolding if_flag
AtLeast-if_flag d = AtLeast-bind AtLeast-flag (λ b. AtLeast-none (Decodes-when b d))

pub AtLeast-unless_flag : {A : Type 0} {m : M A} → Decodes m → AtLeast 1 (unless_flag m)
unfolding unless_flag
AtLeast-unless_flag d =
    AtLeast-bind AtLeast-flag
      (λ b. AtLeast-none (Decodes-if b (Decodes-pure tt) (Decodes-when true d)))

pub AtLeast-if :
    {A : Type 0} {m n : M A} {bits : ℕ} (b : Bool)
    → AtLeast bits m
    → AtLeast bits n
    → AtLeast bits (if b then m else n)
AtLeast-if true d e = d
AtLeast-if false d e = e

pub AtLeast-choose_flag :
    {A : Type 0} {m n : M A} {all : ℕ}
    → AtLeast (all - 1) m
    → AtLeast (all - 1) n
    → AtLeast all (choose_flag m n)
unfolding choose_flag
AtLeast-choose_flag d e = AtLeast-bind AtLeast-flag (λ b. AtLeast-if b d e)

pub AtLeast-repeat :
    {A : Type 0} {m : M A} {each : ℕ} (count : ℕ)
    → AtLeast each m
    → AtLeast (count * each) (repeat count m)
unfolding repeat pure ◌>>=◌
AtLeast-repeat zero d = record { least = λ s. omega arith }
AtLeast-repeat {m = m} (suc left) d = record {
  least = λ s. grind (arith, d.least s, (AtLeast-repeat left d).least (m s).1);
}

AtLeast-buffer : AtLeast 9 read_buffer
unfolding read_buffer
AtLeast-buffer = AtLeast-bind AtLeast-flag (λ b.
    AtLeast-bind (AtLeast-int 8)
      (λ n. AtLeast-none (Decodes-if b (Decodes-symbols tables.nodes n) (Decodes-bytes n))))

fewer : {A : Type 0} {m : M A} {more : ℕ} (bits : ℕ) → bits ≤ more → AtLeast more m → AtLeast bits m
fewer bits le d = record { least = λ s. omega (arith, le, d.least s) }

AtLeast-dedup : (sb : List ℕ) → AtLeast 8 (read_dedup sb)
unfolding read_dedup
AtLeast-dedup sb = AtLeast-bind (AtLeast-int 8) (λ offset. AtLeast-none (
    Decodes-bind Decodes-buffer
      (λ t. Decodes-bind (Decodes-set_string_buffer _) (λ v. Decodes-pure _))))

AtLeast-whole : AtLeast 9 read_whole
unfolding read_whole
AtLeast-whole =
    AtLeast-bind AtLeast-buffer
      (λ t. AtLeast-none (Decodes-bind (Decodes-set_string_buffer _) (λ v. Decodes-pure _)))

AtLeast-with : (sb : Option (List ℕ)) → AtLeast 9 (read_with sb)
unfolding read_with
AtLeast-with none = AtLeast-buffer
AtLeast-with (some sb) =
    AtLeast-bind AtLeast-flag
      (λ b. AtLeast-if b (AtLeast-dedup sb) (fewer 8 (omega arith) AtLeast-whole))

-- The length of a string and the flag for its code are 9 bits.
pub AtLeast-string : AtLeast 9 read_string
unfolding read_string
AtLeast-string = record { least = λ s. (AtLeast-with s.string_buffer).least s }

-- The rules for `search`: one for each reader that a decoder may begin with.
pub int_then :
    {A : Type 0} {f : ℕ → M A} {all : ℕ} (n : ℕ)
    → ((v : ℕ) → AtLeast (all - n) (f v))
    → AtLeast all (read_int n >>= f)
int_then n g = AtLeast-bind (AtLeast-int n) g

pub float_then :
    {A : Type 0} {f : ℕ → M A} {all : ℕ} (n : ℕ)
    → ((v : ℕ) → AtLeast (all - n) (f v))
    → AtLeast all (read_float n >>= f)
float_then n g = AtLeast-bind (AtLeast-float n) g

pub signed_int_then :
    {A : Type 0} {f : ℤ → M A} {all : ℕ} (less : ℕ)
    → ((v : ℤ) → AtLeast (all - (less + 1)) (f v))
    → AtLeast all (read_signed_int (less + 1) >>= f)
signed_int_then less g = AtLeast-bind (AtLeast-signed_int less) g

pub bytes_then :
    {A : Type 0} {f : List ℕ → M A} {all : ℕ} (n : ℕ)
    → ((v : List ℕ) → AtLeast (all - n * 8) (f v))
    → AtLeast all (read_bytes n >>= f)
bytes_then n g = AtLeast-bind (AtLeast-bytes n) g

pub ranged_then :
    {A : Type 0} {f : ℕ → M A} {all : ℕ} (lo hi : ℕ)
    → ((v : ℕ) → AtLeast (all - ranged_bits lo hi) (f v))
    → AtLeast all (read_ranged_u32 lo hi >>= f)
ranged_then lo hi g = AtLeast-bind (AtLeast-ranged_u32 lo hi) g

pub flag_then :
    {A : Type 0} {f : Bool → M A} {all : ℕ}
    → ((v : Bool) → AtLeast (all - 1) (f v))
    → AtLeast all (read_flag >>= f)
flag_then g = AtLeast-bind AtLeast-flag g

pub string_then :
    {A : Type 0} {f : List ℕ → M A} {all : ℕ}
    → ((v : List ℕ) → AtLeast (all - 9) (f v))
    → AtLeast all (read_string >>= f)
string_then g = AtLeast-bind AtLeast-string g

pub if_then :
    {A B : Type 0} {m : M A} {f : Unit {0} → M B} {all : ℕ}
    → Decodes m
    → ((v : Unit {0}) → AtLeast (all - 1) (f v))
    → AtLeast all (if_flag m >>= f)
if_then d g = AtLeast-bind (AtLeast-if_flag d) g

pub unless_then :
    {A B : Type 0} {m : M A} {f : Unit {0} → M B} {all : ℕ}
    → Decodes m
    → ((v : Unit {0}) → AtLeast (all - 1) (f v))
    → AtLeast all (unless_flag m >>= f)
unless_then d g = AtLeast-bind (AtLeast-unless_flag d) g

pub when_then :
    {A B : Type 0} {m : M A} {f : Unit {0} → M B} {all : ℕ} (b : Bool)
    → Decodes m
    → ((v : Unit {0}) → AtLeast (all - 0) (f v))
    → AtLeast all (when b m >>= f)
when_then b d g = AtLeast-bind (AtLeast-when b d) g

pub repeat_then :
    {A B : Type 0} {m : M A} {f : Unit {0} → M B} {all each : ℕ} (count : ℕ)
    → AtLeast each m
    → ((v : Unit {0}) → AtLeast (all - count * each) (f v))
    → AtLeast all (repeat count m >>= f)
repeat_then count d g = AtLeast-bind (AtLeast-repeat count d) g

-- A loop whose count the stream gives.
pub loop_then :
    {A B : Type 0} {m : M A} {f : Unit {0} → M B} {all : ℕ} (count : ℕ)
    → Decodes m
    → ((v : Unit {0}) → AtLeast (all - 0) (f v))
    → AtLeast all (repeat count m >>= f)
loop_then count d g = AtLeast-bind (AtLeast-none (Decodes-repeat count d)) g

pub byte : AtLeast 8 (read_bytes 1)
byte = AtLeast-bytes 1

pub word : AtLeast 32 (read_bytes 4)
word = AtLeast-bytes 4

pub ruleset size_rules = (
  int_then, float_then, signed_int_then, bytes_then, ranged_then, flag_then, string_then, if_then,
  unless_then, when_then, repeat_then, loop_then, byte, word, AtLeast-string, AtLeast-flag,
  AtLeast-choose_flag, AtLeast-pure,
)
