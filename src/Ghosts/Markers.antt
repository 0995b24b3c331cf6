-- ===== src/Ghosts/Markers.antt =====
-- aotbot/ghosts.py: the decoders of markers and spawners.
use aot_headless_client.Base.{Bool}
use aot_headless_client.BitStream.{M, ◌>>◌, read_flag, read_bytes}
use aot_headless_client.BitStream.Strings.{read_string}
use aot_headless_client.Decoder.{skip_all, repeat, if_flag, choose_flag, D, ok}
use aot_headless_client.Decoder.Decodes.{Decodes}
use aot_headless_client.Decoder.Rules.{decoder_rules}
use aot_headless_client.Ghosts.Fields.{
  read_box6f, Decodes-read_box6f, read_point3f, Decodes-read_point3f, read_polyhedron,
  Decodes-read_polyhedron,
}
use aot_headless_client.Ghosts.Shapes.{
  unpack_game_base, Decodes-unpack_game_base, unpack_mission_marker, Decodes-unpack_mission_marker,
}

unfoldable pub unpack_destructable_spawner : Bool → M (Unit {0})
unpack_destructable_spawner is_new = do
  unpack_mission_marker is_new
  if_flag (read_bytes 4)
  skip_all

unfoldable pub unpack_gold_spawner : Bool → M (Unit {0})
unpack_gold_spawner is_new = do
  unpack_mission_marker is_new
  if_flag (do repeat 6 (read_bytes 4); read_bytes 1)
  skip_all

unfoldable pub unpack_spawn_sphere : Bool → M (Unit {0})
unpack_spawn_sphere is_new = do
  unpack_mission_marker is_new
  if_flag (repeat 4 (read_bytes 4))
  skip_all

unfoldable pub unpack_way_point : Bool → M (Unit {0})
unpack_way_point is_new = do
  unpack_mission_marker is_new
  if_flag read_string
  if_flag (read_bytes 4)
  if_flag read_flag
  skip_all

unfoldable pub unpack_simple_net_object : Bool → M (Unit {0})
unpack_simple_net_object is_new = do read_string; skip_all

unfoldable pub unpack_marker : Bool → M (Unit {0})
unpack_marker is_new = do read_box6f; skip_all

unfoldable pub unpack_mission_area : Bool → M (Unit {0})
unpack_mission_area is_new = do if_flag (do read_bytes 16; read_bytes 4; read_bytes 4); skip_all

unfoldable pub unpack_trigger : Bool → D (Unit {0})
unpack_trigger is_new = do unpack_game_base is_new; read_box6f; read_point3f; read_polyhedron

unfoldable pub unpack_physical_zone : Bool → D (Unit {0})
unpack_physical_zone is_new = choose_flag (do read_bytes 64; read_point3f; read_polyhedron) ok

pub Decodes-unpack_destructable_spawner :
    (is_new : Bool) → Decodes (unpack_destructable_spawner is_new)
unfolding unpack_destructable_spawner
Decodes-unpack_destructable_spawner is_new =
    search (decoder_rules, Decodes-unpack_mission_marker) depth 90 fits 9000

pub Decodes-unpack_gold_spawner : (is_new : Bool) → Decodes (unpack_gold_spawner is_new)
unfolding unpack_gold_spawner
Decodes-unpack_gold_spawner is_new =
    search (decoder_rules, Decodes-unpack_mission_marker) depth 90 fits 9000

pub Decodes-unpack_spawn_sphere : (is_new : Bool) → Decodes (unpack_spawn_sphere is_new)
unfolding unpack_spawn_sphere
Decodes-unpack_spawn_sphere is_new =
    search (decoder_rules, Decodes-unpack_mission_marker) depth 90 fits 9000

pub Decodes-unpack_way_point : (is_new : Bool) → Decodes (unpack_way_point is_new)
unfolding unpack_way_point
Decodes-unpack_way_point is_new =
    search (decoder_rules, Decodes-unpack_mission_marker) depth 90 fits 9000

pub Decodes-unpack_simple_net_object : (is_new : Bool) → Decodes (unpack_simple_net_object is_new)
unfolding unpack_simple_net_object
Decodes-unpack_simple_net_object is_new = search decoder_rules depth 90 fits 9000

pub Decodes-unpack_marker : (is_new : Bool) → Decodes (unpack_marker is_new)
unfolding unpack_marker
Decodes-unpack_marker is_new = search (decoder_rules, Decodes-read_box6f) depth 90 fits 9000

pub Decodes-unpack_mission_area : (is_new : Bool) → Decodes (unpack_mission_area is_new)
unfolding unpack_mission_area
Decodes-unpack_mission_area is_new = search decoder_rules depth 90 fits 9000

pub Decodes-unpack_trigger : (is_new : Bool) → Decodes (unpack_trigger is_new)
unfolding unpack_trigger
Decodes-unpack_trigger is_new =
    search
      (
        decoder_rules, Decodes-read_point3f, Decodes-read_box6f, Decodes-read_polyhedron,
        Decodes-unpack_game_base,
      )
      depth 90 fits 9000

pub Decodes-unpack_physical_zone : (is_new : Bool) → Decodes (unpack_physical_zone is_new)
unfolding unpack_physical_zone
Decodes-unpack_physical_zone is_new =
    search (decoder_rules, Decodes-read_point3f, Decodes-read_polyhedron) depth 90 fits 9000
