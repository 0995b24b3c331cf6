-- ===== src/Datablocks/Effects.antt =====
-- aotbot/datablocks.py: the decoders of particles, explosions, splashes and debris.
use aot_headless_client.Base.{◌+◌}
use aot_headless_client.BitStream.{
  M, ◌>>=◌, ◌>>◌, read_flag, read_int, read_bytes, read_ranged_u32, ranged_bits, from_bytes,
}
use aot_headless_client.BitStream.Strings.{read_string}
use aot_headless_client.Decoder.{skip_all, repeat, if_flag, read_float}
use aot_headless_client.Decoder.Decodes.{Decodes}
use aot_headless_client.Decoder.Rules.{decoder_rules}
use aot_headless_client.Decoder.Sizes.{AtLeast, size_rules}
use aot_headless_client.Datablocks.Fields.{
  read_db_ref, Decodes-read_db_ref, field_sizes, read_f32, Decodes-read_f32, read_signed_float,
  Decodes-read_signed_float,
}

unfoldable pub unpack_particle_data : M (Unit {0})
unpack_particle_data = do
  read_float 12
  if_flag read_f32
  read_signed_float 12
  read_float 9
  if_flag read_f32
  read_int 10
  read_int 10
  if_flag read_f32
  if_flag (do read_int 11; read_int 11)
  read_flag
  count ← read_int 2
  repeat (count + 1)
      (do read_float 7; read_float 7; read_float 7; read_float 7; read_float 14; read_float 8)
  count ← read_int 6
  repeat count read_string
  skip_all

unfoldable pub unpack_particle_emitter_data : M (Unit {0})
unpack_particle_emitter_data = do
  read_int 10
  read_int 10
  read_int 16
  read_int 14
  if_flag (read_int 16)
  read_ranged_u32 0 181
  read_ranged_u32 0 181
  if_flag (read_ranged_u32 0 361)
  if_flag (read_ranged_u32 0 361)
  read_flag
  read_flag
  read_flag
  read_int 15
  read_int 10
  read_flag
  read_flag
  read_flag
  word ← read_bytes 4
  repeat (from_bytes word) (read_bytes 4)
  skip_all

unfoldable pub unpack_explosion_data : M (Unit {0})
unpack_explosion_data = do
  read_string
  read_db_ref
  read_db_ref
  read_int 14
  read_bytes 4
  read_flag
  if_flag (do read_int 16; read_int 16; read_int 16)
  read_int 14
  read_ranged_u32 0 181
  read_ranged_u32 0 181
  read_ranged_u32 0 361
  read_ranged_u32 0 361
  read_ranged_u32 0 1001
  read_ranged_u32 0 1001
  read_int 14
  read_ranged_u32 0 10001
  read_int 16
  read_int 16
  read_int 16
  read_int 16
  read_bytes 4
  read_flag
  repeat 9 (read_bytes 4)
  read_db_ref
  repeat 4 read_db_ref
  repeat 5 read_db_ref
  count ← read_ranged_u32 0 5
  repeat count (read_float 8)
  repeat count (do read_ranged_u32 0 16001; read_ranged_u32 0 16001; read_ranged_u32 0 16001)
  read_float 8
  read_float 8
  read_float 7
  read_float 7
  read_float 7
  read_float 7
  read_float 7
  read_float 7
  skip_all

unfoldable pub unpack_splash_data : M (Unit {0})
unpack_splash_data = do
  read_bytes 12
  repeat 15 (read_bytes 4)
  read_db_ref
  repeat 3 read_db_ref
  repeat 4 (read_bytes 4)
  repeat 4 (read_bytes 4)
  read_string
  read_string
  skip_all

unfoldable pub unpack_debris_data : M (Unit {0})
unpack_debris_data = do
  repeat 6 (read_bytes 4)
  repeat 4 (read_bytes 1)
  repeat 6 (read_bytes 4)
  repeat 2 (read_bytes 1)
  repeat 3 (read_bytes 4)
  read_bytes 1
  read_string
  read_string
  repeat 2 read_db_ref
  read_db_ref
  skip_all

pub Decodes-unpack_particle_data : Decodes unpack_particle_data
unfolding unpack_particle_data
Decodes-unpack_particle_data =
    search (decoder_rules, Decodes-read_f32, Decodes-read_signed_float) depth 90 fits 4000

pub AtLeast-unpack_particle_data : AtLeast 66 unpack_particle_data
unfolding unpack_particle_data
AtLeast-unpack_particle_data =
    search (size_rules, decoder_rules, field_sizes, Decodes-read_f32, Decodes-read_signed_float)
      depth 90 fits 4000

pub Decodes-unpack_particle_emitter_data : Decodes unpack_particle_emitter_data
unfolding unpack_particle_emitter_data
Decodes-unpack_particle_emitter_data = search decoder_rules depth 90 fits 4000

pub AtLeast-unpack_particle_emitter_data : AtLeast 132 unpack_particle_emitter_data
unfolding unpack_particle_emitter_data ranged_bits
AtLeast-unpack_particle_emitter_data = search (size_rules, decoder_rules) depth 90 fits 4000

pub Decodes-unpack_explosion_data : Decodes unpack_explosion_data
unfolding unpack_explosion_data
Decodes-unpack_explosion_data = search (decoder_rules, Decodes-read_db_ref) depth 90 fits 4000

pub AtLeast-unpack_explosion_data : AtLeast 611 unpack_explosion_data
unfolding unpack_explosion_data ranged_bits
AtLeast-unpack_explosion_data =
    search (size_rules, decoder_rules, field_sizes, Decodes-read_db_ref) depth 90 fits 4000

pub Decodes-unpack_splash_data : Decodes unpack_splash_data
unfolding unpack_splash_data
Decodes-unpack_splash_data = search (decoder_rules, Decodes-read_db_ref) depth 90 fits 4000

pub AtLeast-unpack_splash_data : AtLeast 854 unpack_splash_data
unfolding unpack_splash_data
AtLeast-unpack_splash_data =
    search (size_rules, decoder_rules, field_sizes, Decodes-read_db_ref) depth 90 fits 4000

pub Decodes-unpack_debris_data : Decodes unpack_debris_data
unfolding unpack_debris_data
Decodes-unpack_debris_data = search (decoder_rules, Decodes-read_db_ref) depth 90 fits 4000

pub AtLeast-unpack_debris_data : AtLeast 557 unpack_debris_data
unfolding unpack_debris_data
AtLeast-unpack_debris_data =
    search (size_rules, decoder_rules, field_sizes, Decodes-read_db_ref) depth 90 fits 40000
