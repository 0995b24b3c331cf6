-- ===== src/Ghosts/Vehicles.antt =====
-- aotbot/ghosts.py: the decoders of vehicles and cameras on paths.
use aot_headless_client.Base.{ℕ, ltb, Bool, Option, if◌then◌else◌}
use aot_headless_client.BitStream.{M, ◌>>=◌, ◌>>◌, read_flag, read_int, read_bytes, from_bytes}
use aot_headless_client.Decoder.{
  skip_all, repeat, if_flag, unless_flag, choose_flag, read_float, D, raise, ok, then_, for_wheels,
}
use aot_headless_client.Decoder.Decodes.{Decodes}
use aot_headless_client.Decoder.Rules.{decoder_rules}
use aot_headless_client.Ghosts.Fields.{
  read_compressed_point, Decodes-read_compressed_point, read_move, Decodes-read_move, read_planef,
  Decodes-read_planef, read_point3f, Decodes-read_point3f,
}
use aot_headless_client.Ghosts.Shapes.{unpack_shape_base, Decodes-unpack_shape_base}

unfoldable pub unpack_vehicle : Bool → M (Unit {0})
unpack_vehicle is_new = do
  unpack_shape_base is_new
  read_flag
  unless_flag (do
    read_float 9
    read_float 9
    read_move
    if_flag (do read_compressed_point; read_planef; read_point3f; read_point3f; read_flag)
    if_flag (read_float 8))
  skip_all

unfoldable pub unpack_hover_vehicle : Bool → M (Unit {0})
unpack_hover_vehicle is_new = do unpack_vehicle is_new; read_int 3; skip_all

unfoldable pub unpack_flying_vehicle : Bool → M (Unit {0})
unpack_flying_vehicle is_new = do unpack_vehicle is_new; read_flag; read_int 3; skip_all

unfoldable pub unpack_wheeled_vehicle : Option ℕ → Bool → D (Unit {0})
unpack_wheeled_vehicle wheel_count is_new = do
  unpack_vehicle is_new
  then_
      (choose_flag
        (for_wheels wheel_count (if_flag (do read_int 10; read_int 10; read_flag; read_bytes 4)))
        ok)
      (λ done.
        (choose_flag ok (do
          read_flag
          choose_flag (for_wheels wheel_count (do read_bytes 4; read_bytes 4; read_bytes 4)) ok)))

unfoldable pub unpack_path_camera : Bool → D (Unit {0})
unpack_path_camera is_new = do
  unpack_shape_base is_new
  if_flag (read_int 3)
  if_flag (read_bytes 4)
  if_flag (if_flag (read_bytes 4))
  then_
      (choose_flag
        (do
          read_bytes 4
          word ← read_bytes 4
          if (ltb (from_bytes word) 2147483648)
              then (if (ltb 1048576 (from_bytes word)) then raise else (do
                repeat (from_bytes word)
                    (do read_point3f; read_planef; read_bytes 4; read_int 2; read_int 1)
                ok))
              else ok)
        ok)
      (λ done. (do read_flag; ok))

pub Decodes-unpack_vehicle : (is_new : Bool) → Decodes (unpack_vehicle is_new)
unfolding unpack_vehicle
Decodes-unpack_vehicle is_new =
    search
      (
        decoder_rules, Decodes-read_point3f, Decodes-read_compressed_point, Decodes-read_move,
        Decodes-read_planef, Decodes-unpack_shape_base,
      )
      depth 90 fits 9000

pub Decodes-unpack_hover_vehicle : (is_new : Bool) → Decodes (unpack_hover_vehicle is_new)
unfolding unpack_hover_vehicle
Decodes-unpack_hover_vehicle is_new =
    search (decoder_rules, Decodes-unpack_vehicle) depth 90 fits 9000

pub Decodes-unpack_flying_vehicle : (is_new : Bool) → Decodes (unpack_flying_vehicle is_new)
unfolding unpack_flying_vehicle
Decodes-unpack_flying_vehicle is_new =
    search (decoder_rules, Decodes-unpack_vehicle) depth 90 fits 9000

pub Decodes-unpack_wheeled_vehicle :
    (wheel_count : Option ℕ) → (is_new : Bool) → Decodes (unpack_wheeled_vehicle wheel_count is_new)
unfolding unpack_wheeled_vehicle
Decodes-unpack_wheeled_vehicle wheel_count is_new =
    search (decoder_rules, Decodes-unpack_vehicle) depth 90 fits 9000

pub Decodes-unpack_path_camera : (is_new : Bool) → Decodes (unpack_path_camera is_new)
unfolding unpack_path_camera
Decodes-unpack_path_camera is_new =
    search (decoder_rules, Decodes-read_point3f, Decodes-read_planef, Decodes-unpack_shape_base)
      depth 90 fits 9000
