-- ===== src/Ghosts/Weather.antt =====
-- aotbot/ghosts.py: the decoders of the sky, lightning, splashes and lights.
use aot_headless_client.Base.{ltb, Bool, if◌then◌else◌}
use aot_headless_client.BitStream.{M, ◌>>=◌, ◌>>◌, read_flag, read_int, read_bytes, from_bytes}
use aot_headless_client.BitStream.Strings.{read_string}
use aot_headless_client.Decoder.{skip_all, repeat, if_flag, choose_flag, D, raise, ok, then_}
use aot_headless_client.Decoder.Decodes.{Decodes}
use aot_headless_client.Decoder.Rules.{decoder_rules}
use aot_headless_client.Ghosts.Fields.{
  read_box6f, Decodes-read_box6f, read_colorf, Decodes-read_colorf, read_matrix,
  Decodes-read_matrix, read_point3f, Decodes-read_point3f,
}
use aot_headless_client.Ghosts.Shapes.{unpack_game_base, Decodes-unpack_game_base}

unfoldable pub unpack_sky : Bool → D (Unit {0})
unpack_sky is_new = do
  then_
      (choose_flag
        (do
          read_string
          read_bytes 4
          read_bytes 4
          read_bytes 4
          word ← read_bytes 4
          read_bytes 1
          read_bytes 1
          read_bytes 4
          read_bytes 4
          read_bytes 4
          read_bytes 1
          read_bytes 1
          read_bytes 4
          read_flag
          if (ltb 1048576 (from_bytes word)) then raise else (do
            repeat (from_bytes word) (do repeat 6 (read_bytes 4); read_bytes 1)
            repeat 3 (do read_string; read_bytes 4; read_bytes 4)
            read_bytes 4
            read_bytes 4
            read_bytes 4
            read_bytes 4
            if_flag (do read_bytes 4; read_bytes 4; read_bytes 4; read_bytes 4; read_bytes 4)
            ok))
        ok)
      (λ done. (do
        if_flag (read_bytes 1)
        if_flag (read_bytes 1)
        if_flag (do read_bytes 4; read_bytes 4)
        if_flag (do read_bytes 4; read_bytes 4)
        if_flag (do read_bytes 4; read_bytes 4; read_bytes 4)
        if_flag (do read_bytes 4; read_bytes 4; read_bytes 4; read_bytes 4)
        if_flag (do read_bytes 4; read_bytes 4; read_bytes 4)
        ok))

unfoldable pub unpack_lightning : Bool → M (Unit {0})
unpack_lightning is_new = do
  unpack_game_base is_new
  if_flag (do read_point3f; read_point3f; repeat 10 (read_bytes 4); read_bytes 1; read_bytes 4)
  skip_all

unfoldable pub unpack_splash : Bool → M (Unit {0})
unpack_splash is_new = do unpack_game_base is_new; if_flag read_point3f; skip_all

unfoldable pub unpack_fx_light : Bool → M (Unit {0})
unpack_fx_light is_new = do
  unpack_game_base is_new
  if_flag (if_flag (read_int 15))
  if_flag (do read_box6f; read_bytes 1; read_bytes 4)
  skip_all

unfoldable pub unpack_precipitation : Bool → M (Unit {0})
unpack_precipitation is_new = do
  unpack_game_base is_new
  if_flag (do repeat 9 (read_bytes 4); read_flag; read_flag; read_flag)
  if_flag (read_bytes 4)
  if_flag (do read_bytes 4; read_bytes 4)
  skip_all

unfoldable pub unpack_tw_surface_reference : Bool → M (Unit {0})
unpack_tw_surface_reference is_new = do
  if_flag (do read_box6f; read_bytes 4; read_flag; read_bytes 4; read_colorf)
  skip_all

unfoldable pub unpack_vehicle_blocker : Bool → M (Unit {0})
unpack_vehicle_blocker is_new = do read_matrix; read_point3f; read_point3f; skip_all

pub Decodes-unpack_sky : (is_new : Bool) → Decodes (unpack_sky is_new)
unfolding unpack_sky
Decodes-unpack_sky is_new = search decoder_rules depth 90 fits 9000

pub Decodes-unpack_lightning : (is_new : Bool) → Decodes (unpack_lightning is_new)
unfolding unpack_lightning
Decodes-unpack_lightning is_new =
    search (decoder_rules, Decodes-read_point3f, Decodes-unpack_game_base) depth 90 fits 9000

pub Decodes-unpack_splash : (is_new : Bool) → Decodes (unpack_splash is_new)
unfolding unpack_splash
Decodes-unpack_splash is_new =
    search (decoder_rules, Decodes-read_point3f, Decodes-unpack_game_base) depth 90 fits 9000

pub Decodes-unpack_fx_light : (is_new : Bool) → Decodes (unpack_fx_light is_new)
unfolding unpack_fx_light
Decodes-unpack_fx_light is_new =
    search (decoder_rules, Decodes-read_box6f, Decodes-unpack_game_base) depth 90 fits 9000

pub Decodes-unpack_precipitation : (is_new : Bool) → Decodes (unpack_precipitation is_new)
unfolding unpack_precipitation
Decodes-unpack_precipitation is_new =
    search (decoder_rules, Decodes-unpack_game_base) depth 90 fits 9000

pub Decodes-unpack_tw_surface_reference :
    (is_new : Bool) → Decodes (unpack_tw_surface_reference is_new)
unfolding unpack_tw_surface_reference
Decodes-unpack_tw_surface_reference is_new =
    search (decoder_rules, Decodes-read_box6f, Decodes-read_colorf) depth 90 fits 9000

pub Decodes-unpack_vehicle_blocker : (is_new : Bool) → Decodes (unpack_vehicle_blocker is_new)
unfolding unpack_vehicle_blocker
Decodes-unpack_vehicle_blocker is_new =
    search (decoder_rules, Decodes-read_point3f, Decodes-read_matrix) depth 90 fits 9000
