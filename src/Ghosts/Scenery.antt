-- ===== src/Ghosts/Scenery.antt =====
-- aotbot/ghosts.py: the decoders of the sun, the terrain, interiors, water and sound.
use aot_headless_client.Base.{ltb, Bool, if◌then◌else◌}
use aot_headless_client.BitStream.{M, ◌>>=◌, ◌>>◌, read_flag, read_int, read_bytes, from_bytes}
use aot_headless_client.BitStream.Strings.{read_string}
use aot_headless_client.Decoder.{skip_all, repeat, if_flag, choose_flag, D, raise, ok}
use aot_headless_client.Decoder.Decodes.{Decodes}
use aot_headless_client.Decoder.Rules.{decoder_rules}
use aot_headless_client.Ghosts.Fields.{
  read_box6f, Decodes-read_box6f, read_colorf, Decodes-read_colorf, read_matrix,
  Decodes-read_matrix, read_point3f, Decodes-read_point3f,
}
use aot_headless_client.Ghosts.Shapes.{unpack_game_base, Decodes-unpack_game_base}

unfoldable pub unpack_particle_emitter_node : Bool → M (Unit {0})
unpack_particle_emitter_node is_new = do
  unpack_game_base is_new
  read_matrix
  read_point3f
  if_flag (read_int 10)
  skip_all

unfoldable pub unpack_sun : Bool → M (Unit {0})
unpack_sun is_new = do if_flag (do read_point3f; read_bytes 32); skip_all

unfoldable pub unpack_terrain_block : Bool → D (Unit {0})
unpack_terrain_block is_new = do
  choose_flag
      (do
        read_bytes 4
        read_string
        read_string
        read_string
        repeat 4 (read_bytes 4)
        word ← read_bytes 4
        if (ltb 1048576 (from_bytes word))
            then raise
            else (do repeat (from_bytes word) (read_bytes 4); ok))
      (do
        choose_flag
            (do
              word ← read_bytes 4
              if (ltb 1048576 (from_bytes word))
                  then raise
                  else (do repeat (from_bytes word) (read_bytes 4); ok))
            ok)

unfoldable pub unpack_fx_sun_light : Bool → M (Unit {0})
unpack_fx_sun_light is_new = do
  if_flag (do
    read_box6f
    read_bytes 1
    read_string
    read_string
    read_bytes 4
    read_bytes 4
    read_bytes 1
    read_colorf
    repeat 4 (read_bytes 4)
    repeat 14 read_flag
    read_colorf
    read_colorf
    repeat 10 (read_bytes 4)
    repeat 8 read_string
    repeat 6 (read_bytes 4))
  skip_all

unfoldable pub unpack_pathed_interior : Bool → M (Unit {0})
unpack_pathed_interior is_new = do
  unpack_game_base is_new
  if_flag (do read_string; read_bytes 4; read_box6f; read_point3f; read_bytes 4)
  skip_all

unfoldable pub unpack_ts_static : Bool → M (Unit {0})
unpack_ts_static is_new = do read_matrix; read_point3f; read_string; skip_all

unfoldable pub unpack_interior_instance : Bool → M (Unit {0})
unpack_interior_instance is_new = do
  choose_flag
      (do
        read_bytes 4
        read_string
        read_flag
        read_flag
        read_matrix
        read_point3f
        read_flag
        read_string
        if_flag (read_int 10)
        if_flag (read_int 10))
      (do
        if_flag (do read_bytes 64; read_point3f)
        read_flag
        if_flag read_string
        if_flag (do if_flag (read_int 10); if_flag (read_int 10)))

unfoldable pub unpack_volume_light : Bool → M (Unit {0})
unpack_volume_light is_new = do
  read_box6f
  read_bytes 1
  read_string
  repeat 6 (read_bytes 4)
  read_colorf
  read_colorf
  skip_all

unfoldable pub unpack_audio_emitter : Bool → M (Unit {0})
unpack_audio_emitter is_new = do
  if_flag skip_all
  if_flag read_box6f
  if_flag (if_flag (read_int 10))
  if_flag (if_flag (read_int 10))
  if_flag read_string
  if_flag read_flag
  if_flag (read_bytes 4)
  if_flag read_flag
  if_flag read_flag
  repeat 5 (if_flag (read_bytes 4))
  if_flag (read_bytes 12)
  repeat 4 (if_flag (read_bytes 4))
  if_flag read_flag
  skip_all

unfoldable pub unpack_water_block : Bool → M (Unit {0})
unpack_water_block is_new = do
  read_box6f
  read_point3f
  repeat 7 read_string
  repeat 6 (read_bytes 4)
  read_bytes 1
  if_flag (read_int 10)
  read_bytes 1
  repeat 12 (read_bytes 4)
  read_colorf
  read_bytes 4
  read_flag
  skip_all

pub Decodes-unpack_particle_emitter_node :
    (is_new : Bool) → Decodes (unpack_particle_emitter_node is_new)
unfolding unpack_particle_emitter_node
Decodes-unpack_particle_emitter_node is_new =
    search (decoder_rules, Decodes-read_point3f, Decodes-read_matrix, Decodes-unpack_game_base)
      depth 90 fits 9000

pub Decodes-unpack_sun : (is_new : Bool) → Decodes (unpack_sun is_new)
unfolding unpack_sun
Decodes-unpack_sun is_new = search (decoder_rules, Decodes-read_point3f) depth 90 fits 9000

pub Decodes-unpack_terrain_block : (is_new : Bool) → Decodes (unpack_terrain_block is_new)
unfolding unpack_terrain_block
Decodes-unpack_terrain_block is_new = search decoder_rules depth 90 fits 9000

pub Decodes-unpack_fx_sun_light : (is_new : Bool) → Decodes (unpack_fx_sun_light is_new)
unfolding unpack_fx_sun_light
Decodes-unpack_fx_sun_light is_new =
    search (decoder_rules, Decodes-read_box6f, Decodes-read_colorf) depth 90 fits 9000

pub Decodes-unpack_pathed_interior : (is_new : Bool) → Decodes (unpack_pathed_interior is_new)
unfolding unpack_pathed_interior
Decodes-unpack_pathed_interior is_new =
    search (decoder_rules, Decodes-read_point3f, Decodes-read_box6f, Decodes-unpack_game_base) depth
      90 fits 9000

pub Decodes-unpack_ts_static : (is_new : Bool) → Decodes (unpack_ts_static is_new)
unfolding unpack_ts_static
Decodes-unpack_ts_static is_new =
    search (decoder_rules, Decodes-read_point3f, Decodes-read_matrix) depth 90 fits 9000

pub Decodes-unpack_interior_instance : (is_new : Bool) → Decodes (unpack_interior_instance is_new)
unfolding unpack_interior_instance
Decodes-unpack_interior_instance is_new =
    search (decoder_rules, Decodes-read_point3f, Decodes-read_matrix) depth 90 fits 9000

pub Decodes-unpack_volume_light : (is_new : Bool) → Decodes (unpack_volume_light is_new)
unfolding unpack_volume_light
Decodes-unpack_volume_light is_new =
    search (decoder_rules, Decodes-read_box6f, Decodes-read_colorf) depth 90 fits 9000

pub Decodes-unpack_audio_emitter : (is_new : Bool) → Decodes (unpack_audio_emitter is_new)
unfolding unpack_audio_emitter
Decodes-unpack_audio_emitter is_new = search (decoder_rules, Decodes-read_box6f) depth 90 fits 9000

pub Decodes-unpack_water_block : (is_new : Bool) → Decodes (unpack_water_block is_new)
unfolding unpack_water_block
Decodes-unpack_water_block is_new =
    search (decoder_rules, Decodes-read_point3f, Decodes-read_box6f, Decodes-read_colorf) depth 90
      fits 9000
