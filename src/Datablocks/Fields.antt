-- ===== src/Datablocks/Fields.antt =====
-- aotbot/datablocks.py: the fields that the decoders share.
use aot_headless_client.Base.{ℕ, ◌+◌, arith, ◌-◌, Bool, true, false}
use aot_headless_client.BitStream.{M, pure, ◌>>=◌, ◌>>◌, read_flag, read_int, read_bytes}
use aot_headless_client.Decoder.{skip_all, if_flag}
use aot_headless_client.Decoder.Decodes.{Decodes, Decodes-bind, Decodes-flag}
use aot_headless_client.Decoder.Rules.{decoder_rules}
use aot_headless_client.Decoder.Sizes.{
  AtLeast, AtLeast-bind, AtLeast-none, AtLeast-flag, AtLeast-if_flag, AtLeast-int, size_rules,
}

unfoldable pub read_f32 : M (Unit {0})
read_f32 = do read_bytes 4; skip_all

unfoldable pub read_normal_vector : ℕ → M (Unit {0})
read_normal_vector bits = do read_int (bits + 1); read_int bits; skip_all

unfoldable pub read_signed_float : ℕ → M (Unit {0})
read_signed_float bits = do read_int bits; skip_all

abbrev pub datablock_id_bits : ℕ
datablock_id_bits = 10

abbrev pub datablock_object_id_first : ℕ
datablock_object_id_first = 3

reference : Bool → M ℕ
reference true = do id ← read_int datablock_id_bits; pure (id + datablock_object_id_first)
reference false = pure 0

-- The object id behind a flag, or 0.
unfoldable pub read_db_ref : M ℕ
unfolding reference
read_db_ref = read_flag >>= reference

pub Decodes-read_f32 : Decodes read_f32
unfolding read_f32
Decodes-read_f32 = search decoder_rules

pub AtLeast-read_f32 : AtLeast 32 read_f32
unfolding read_f32
AtLeast-read_f32 = search size_rules

pub Decodes-read_normal_vector : (bits : ℕ) → Decodes (read_normal_vector bits)
unfolding read_normal_vector
Decodes-read_normal_vector bits = search decoder_rules

pub AtLeast-read_signed_float : (bits : ℕ) → AtLeast bits (read_signed_float bits)
unfolding read_signed_float pure
AtLeast-read_signed_float bits =
    AtLeast-bind (AtLeast-int bits) (λ v. record { least = λ s. omega arith })

pub Decodes-read_signed_float : (bits : ℕ) → Decodes (read_signed_float bits)
unfolding read_signed_float
Decodes-read_signed_float bits = search decoder_rules

Decodes-reference : (present : Bool) → Decodes (reference present)
unfolding reference
Decodes-reference true = search decoder_rules
Decodes-reference false = search decoder_rules

pub Decodes-read_db_ref : Decodes read_db_ref
unfolding read_db_ref
Decodes-read_db_ref = Decodes-bind Decodes-flag Decodes-reference

pub AtLeast-read_db_ref : AtLeast 1 read_db_ref
unfolding read_db_ref
AtLeast-read_db_ref =
    AtLeast-bind AtLeast-flag (λ present. AtLeast-none (Decodes-reference present))

pub f32_then :
    {A : Type 0} {f : Unit {0} → M A} {all : ℕ}
    → ((v : Unit {0}) → AtLeast (all - 32) (f v))
    → AtLeast all (read_f32 >>= f)
f32_then g = AtLeast-bind AtLeast-read_f32 g

pub db_ref_then :
    {A : Type 0} {f : ℕ → M A} {all : ℕ}
    → ((v : ℕ) → AtLeast (all - 1) (f v))
    → AtLeast all (read_db_ref >>= f)
db_ref_then g = AtLeast-bind AtLeast-read_db_ref g

pub signed_float_then :
    {A : Type 0} {f : Unit {0} → M A} {all : ℕ} (bits : ℕ)
    → ((v : Unit {0}) → AtLeast (all - bits) (f v))
    → AtLeast all (read_signed_float bits >>= f)
signed_float_then bits g = AtLeast-bind (AtLeast-read_signed_float bits) g

pub optional_f32 : AtLeast 1 (if_flag read_f32)
optional_f32 = AtLeast-if_flag Decodes-read_f32

pub three_f32 : AtLeast 96 (read_f32 >> (read_f32 >> read_f32))
three_f32 =
    AtLeast-bind AtLeast-read_f32 (λ v. AtLeast-bind AtLeast-read_f32 (λ w. AtLeast-read_f32))

pub ruleset field_sizes = (
  f32_then, db_ref_then, signed_float_then, optional_f32, three_f32, AtLeast-read_f32,
  AtLeast-read_db_ref,
)
