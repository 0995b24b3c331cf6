-- ===== src/Phases/Control.antt =====
-- aotbot/phases.py: the control header that the server writes in front of its events. A change of the control
-- object is reported to a hook, which counts as set; the registry of telemetry is left out.
use aot_headless_client.Base.{
  ℕ, Bool, true, false, ◌&&◌, Option, none, some, List, ◌∷◌, ◌==◌, if◌then◌else◌,
}
use aot_headless_client.BitStream.{M, pure, ◌>>=◌, ◌>>◌, read_flag, read_int, read_bytes}
use aot_headless_client.Decoder.{if_flag, read_float}
use aot_headless_client.Ghosts.{read_packet_data}
use aot_headless_client.Phases.GhostSection.{Classes}
use aot_headless_client.Phases.Moves.{MoveStream}

-- A control object: its ghost id, and its class if that is known.
pub record Report : Type 0 where
  pub ghost_id : ℕ
  pub class_id : Option ℕ

pub record Control : Type 0 where
  pub moves : MoveStream
  pub control_ghost_id : Option ℕ
  pub last_control_report : Option Report
  pub reports : List Report

abbrev same_class : Option ℕ → Option ℕ → Bool
same_class none none = true
same_class none (some n) = false
same_class (some m) none = false
same_class (some m) (some n) = m == n

abbrev is_last : Option Report → Report → Bool
is_last none r = false
is_last (some last) r = last.ghost_id == r.ghost_id && same_class last.class_id r.class_id

-- The hook is called where the object or its class is another one; the newest report is the head.
unfoldable pub report_control : Report → Control → Control
report_control r c =
    if is_last c.last_control_report r
    then record c { control_ghost_id = some r.ghost_id }
    else record c {
      control_ghost_id = some r.ghost_id;
      last_control_report = some r;
      reports = r ∷ c.reports;
    }

-- Each step says whether it ended, or `AlignmentError` was raised (`none`).
unfoldable pub control_packet_data : Option ℕ → Classes → Control → M (Option (Unit {0}) × Control)
unfolding report_control
control_packet_data wheel_count classes c = do
  ghost_id ← read_int 14
  body ← read_packet_data wheel_count (classes ghost_id)
  pure (body, report_control (record { ghost_id = ghost_id; class_id = classes ghost_id }) c)

abbrev camera_point : Control → M (Option (Unit {0}) × Control)
camera_point c = do point ← read_bytes 12; pure (some tt, c)

unfoldable pub control_object : Option ℕ → Classes → Control → M (Option (Unit {0}) × Control)
unfolding control_packet_data
control_object wheel_count classes c = do
  present ← read_flag
  if present
      then (do
        update ← read_flag
        if update then control_packet_data wheel_count classes c else camera_point c)
      else pure (some tt, c)

unfoldable pub camera_and_fov : Option (Unit {0}) × Control → M (Option (Unit {0}) × Control)
camera_and_fov (none, c) = pure (none, c)
camera_and_fov (some v, c) = do if_flag (read_int 14); if_flag (read_int 8); pure (some tt, c)

unfoldable pub read_control_header : Option ℕ → Classes → Control → M (Option (Unit {0}) × Control)
unfolding control_object camera_and_fov
read_control_header wheel_count classes c = do
  move_ack ← read_int 32
  if_flag (if_flag (read_float 7) >> if_flag (read_float 7))
  header ←
      control_object wheel_count classes
        (record c { moves = record c.moves { last_move_ack = move_ack } })
  camera_and_fov header
