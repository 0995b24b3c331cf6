-- ===== src/Ghosts/Control.antt =====
-- aotbot/ghosts.py: the state of the object that the client controls.
use aot_headless_client.Base.{ℕ, ◌==◌, Option, ◌||◌, if◌then◌else◌}
use aot_headless_client.BitStream.{M, ◌>>=◌, ◌>>◌, read_flag, read_int, read_bytes}
use aot_headless_client.Decoder.{skip_all, when, if_flag, D, for_wheels}
use aot_headless_client.Ghosts.Fields.{read_compressed_point, read_planef, read_point3f}

unfoldable pub read_packet_data_shapebase : M (Unit {0})
read_packet_data_shapebase = do read_bytes 8; skip_all

unfoldable pub read_packet_data_gamebase : M (Unit {0})
read_packet_data_gamebase = skip_all

unfoldable pub read_packet_data_vehicle : M (Unit {0})
read_packet_data_vehicle = do
  read_packet_data_shapebase
  read_bytes 4
  read_bytes 4
  read_point3f
  read_planef
  read_point3f
  read_point3f
  read_flag
  read_flag
  read_flag
  skip_all

unfoldable pub read_packet_data_flying_vehicle : M (Unit {0})
read_packet_data_flying_vehicle = do read_packet_data_vehicle; skip_all

unfoldable pub read_packet_data_wheeled_vehicle : Option ℕ → D (Unit {0})
read_packet_data_wheeled_vehicle wheel_count = do
  read_packet_data_vehicle
  read_flag
  for_wheels wheel_count (do read_bytes 4; read_bytes 4; read_bytes 4; read_flag)

view : ℕ → M (Unit {0})
view mode = do
  read_bytes 4
  read_bytes 4
  read_bytes 4
  if mode == 3
      then (do read_flag; read_int 14; skip_all)
      else when (mode == 4) read_compressed_point

unfoldable pub read_packet_data_camera : M (Unit {0})
unfolding view
read_packet_data_camera = do
  read_packet_data_shapebase
  read_point3f
  read_bytes 4
  read_bytes 4
  mode ← read_int 3
  when (mode == 3 || mode == 4) (view mode)

unfoldable pub read_packet_data_player : M (Unit {0})
read_packet_data_player = do
  read_packet_data_shapebase
  read_int 3
  if_flag (read_int 7)
  if_flag (read_int 7)
  if_flag (do read_point3f; read_point3f; read_int 4)
  read_point3f
  if_flag (do read_int 14; read_packet_data_shapebase)
  skip_all
