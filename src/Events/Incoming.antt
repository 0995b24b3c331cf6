-- ===== src/Events/Incoming.antt =====
-- aotbot/events.py: the payloads of incoming events. A payload is read into a value here, and what the
-- manager does with it is in Events/Receive.antt. What only goes to the log or to telemetry is left out.
pub mod Decoded
use aot_headless_client.Base.{
  ℕ, zero, suc, ◌+◌, ◌*◌, ◌-◌, Bool, true, false, Option, none, some, List, [], ◌∷◌, ltb, ◌==◌,
  get_or, if◌then◌else◌,
}
use aot_headless_client.Base.Int.{ℤ, pos, neg}
use aot_headless_client.BitStream.{
  M, pure, ◌>>=◌, ◌>>◌, read_flag, read_int, read_signed_int, read_bytes, read_ranged_u32,
}
use aot_headless_client.BitStream.Strings.{read_string}
use aot_headless_client.Decoder.{D, skip_all, repeat, if_flag, choose_flag, read_float}
use aot_headless_client.Datablocks.{unpack_datablock}
use aot_headless_client.Ghosts.{unpack_update}
use aot_headless_client.Events.{Unpacked, unpack_string}

-- What an event says. A ghost or a datablock comes with whether its body could be decoded.
pub data Event : Type 0 where
  net_string : ℕ → List ℕ → Event
  remote_command : List Unpacked → Event
  connection_message : ℕ → ℕ → ℕ → Event
  ghost_always : ℕ → ℕ → Bool → Event
  datablock : ℕ → ℕ → Bool → Event
  discarded : Event
  undecodable : ℕ → Event

abbrev pub compressed_point_bit_counts : List ℕ
compressed_point_bit_counts = 16 ∷ 18 ∷ 20 ∷ 32 ∷ []

triple : ℕ → M (Unit {0})
triple n = repeat 3 (read_signed_int n)

unfoldable pub read_compressed_point : M (Unit {0})
unfolding triple
read_compressed_point = do
  t ← read_int 2
  if t == 3 then (read_bytes 12 >> skip_all) else triple (get_or compressed_point_bit_counts t 0)

unfoldable pub read_connection_message_event : M Event
read_connection_message_event = do
  sequence ← read_int 32
  message ← read_int 3
  ghost_count ← read_int 15
  pure (connection_message message sequence ghost_count)

-- `[bs.read_string() for _ in range(count)]` and `argv.append(self.unpack_string(bs))`
unfoldable pub collect : {A : Type 0} → ℕ → M A → M (List A)
collect zero m = pure []
collect (suc left) m = do v ← m; rest ← collect left m; pure (v ∷ rest)

unfoldable pub read_path_manager_event : M Event
read_path_manager_event = do
  read_int 32
  read_flag
  read_int 32
  num_points ← read_int 32
  if ltb 4096 num_points then pure (undecodable 6) else (do
    repeat num_points (do read_bytes 12; read_bytes 16; read_int 32; read_int 32)
    pure discarded)

unfoldable pub read_file_chunk_event : M Event
read_file_chunk_event = do chunk_len ← read_ranged_u32 0 63; read_bytes chunk_len; pure discarded

unfoldable pub read_file_download_request_event : M Event
unfolding collect
read_file_download_request_event = do
  name_count ← read_ranged_u32 0 31
  collect name_count read_string
  pure discarded

unfoldable pub read_set_mission_crc_event : M Event
read_set_mission_crc_event = do read_int 32; pure discarded

unfoldable pub read_sim2d_audio_event : M Event
read_sim2d_audio_event = do read_int 10; pure discarded

unfoldable pub read_sim3d_audio_event : M Event
unfolding read_compressed_point
read_sim3d_audio_event = do
  read_int 10
  if_flag (do read_float 8; read_float 8; read_float 8; read_flag)
  read_compressed_point
  pure discarded

unfoldable pub read_lightning_strike_event : M Event
read_lightning_strike_event = pure discarded

unfoldable pub read_simple_message_event : M Event
read_simple_message_event = do read_string; pure discarded

decoded : Option (Unit {0}) → Bool
decoded none = false
decoded (some v) = true

scoped : Option ℕ → ℕ → M Event
unfolding decoded
scoped wheel_count ghost_id = do
  class_id ← read_int 6
  body ← unpack_update wheel_count class_id true
  pure (ghost_always ghost_id class_id (decoded body))

unfoldable pub read_ghost_always_object_event : Option ℕ → M Event
unfolding scoped
read_ghost_always_object_event wheel_count = do
  ghost_id ← read_int 14
  choose_flag (scoped wheel_count ghost_id) (pure discarded)

unfoldable pub read_class_id : ℕ → M ℕ
read_class_id bits = read_int bits

present : M Event
unfolding decoded read_class_id
present = do
  db_id ← read_int 10
  class_id ← read_class_id 6
  index ← read_int 10
  total ← read_int 11
  body ← unpack_datablock class_id
  pure (datablock (db_id + 3) class_id (decoded body))

unfoldable pub read_sim_datablock_event : M Event
unfolding present
read_sim_datablock_event = choose_flag present (pure discarded)

unfoldable pub read_static_brick_data_event : M Event
read_static_brick_data_event = do
  repeat 64 (repeat 4 (read_int 8))
  repeat 16 (do read_int 6; read_string)
  n ← read_int 10
  if ltb 4096 n then pure (undecodable 13) else (do repeat n read_string; pure discarded)

unfoldable pub read_net_string_event : M Event
read_net_string_event = do index ← read_int 5; text ← read_string; pure (net_string index text)

unfoldable pub read_remote_command_event : M Event
unfolding collect unpack_string
read_remote_command_event = do
  argc ← read_int 5
  argv ← collect argc unpack_string
  pure (remote_command argv)

-- The reader that `_read_one_event` picks by the class id.
unfoldable pub read_one_event : Option ℕ → ℕ → M Event
read_one_event wheel_count classid =
    if classid == 5
    then read_net_string_event
    else if classid == 7
    then read_remote_command_event
    else if classid == 0
    then read_connection_message_event
    else if classid == 6
    then read_path_manager_event
    else if classid == 1
    then read_file_chunk_event
    else if classid == 2
    then read_file_download_request_event
    else if classid == 8
    then read_set_mission_crc_event
    else if classid == 9
    then read_sim2d_audio_event
    else if classid == 10
    then read_sim3d_audio_event
    else if classid == 4
    then read_lightning_strike_event
    else if classid == 12
    then read_simple_message_event
    else if classid == 3
    then read_ghost_always_object_event wheel_count
    else if classid == 11
    then read_sim_datablock_event
    else if classid == 13
    then read_static_brick_data_event
    else pure (undecodable classid)
