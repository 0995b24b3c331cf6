-- ===== src/Phases/Body.antt =====
-- aotbot/phases.py: `read_packet_body`, which reads the control header, the events and the ghosts of a packet.
-- The calls that the events make out are answered in their order when the section has been read; the handlers
-- of commands, which are registered at the start, are a function from a command to the inputs of the machine.
pub mod Keeps
use aot_headless_client.Base.{ℕ, Bool, true, false, Option, none, some, List, [], ◌∷◌, replicate}
use aot_headless_client.BitStream.{BitStream, M, pure, ◌>>=◌, ◌>>◌}
use aot_headless_client.BitStream.Strings.{set_string_buffer}
use aot_headless_client.Events.{Unpacked}
use aot_headless_client.Events.StringTable.{StringTable}
use aot_headless_client.Events.Receive.{
  Call, dispatch_command, on_connection_message, on_ghost_scoped, EventReader, Outcome, finished,
  overrun, spent, gap, decode_error, read_events,
}
use aot_headless_client.Phases.GhostSection.{SectionEnd, Ghosting, read_ghost_section}
use aot_headless_client.Phases.Mission.{
  Mission, Input, message_came, ghost_came, classes_read, handle,
}
use aot_headless_client.Phases.Control.{Control, read_control_header}

pub record GameConnection : Type 0 where
  pub control : Control
  pub mission : Mission
  pub events : EventReader

-- How a body ends: `AlignmentError` in the header or in the events, or as the ghost section does.
pub data BodyEnd : Type 0 where
  header_error : BodyEnd
  events_error : Outcome → BodyEnd
  ghosts_end : SectionEnd → BodyEnd

abbrev pub Handlers : Type 0
Handlers = Unpacked → List Unpacked → StringTable → List Input

unfoldable pub handle_all : List Input → Mission → Mission
handle_all [] p = p
handle_all (input ∷ inputs) p = handle_all inputs (handle input p)

unfoldable pub answer : Handlers → ℕ → Call → Mission → Mission
unfolding handle_all
answer handlers now (dispatch_command verb args table) p = handle_all (handlers verb args table) p
answer handlers now (on_connection_message message sequence ghost_count) p =
    handle (message_came message sequence ghost_count) p
answer handlers now (on_ghost_scoped ghost_id class_id) p =
    handle (ghost_came now ghost_id class_id) p

unfoldable pub answer_all : Handlers → ℕ → List Call → Mission → Mission
unfolding answer
answer_all handlers now [] p = p
answer_all handlers now (c ∷ calls) p = answer_all handlers now calls (answer handlers now c p)

abbrev pub answered : Handlers → ℕ → EventReader → GameConnection → GameConnection
answered handlers now r g = record g {
  events = r;
  mission = answer_all handlers now r.calls g.mission;
}

unfoldable pub read_ghosts : Option ℕ → GameConnection → M (BodyEnd × GameConnection)
read_ghosts wheel_count g = do
  result ← read_ghost_section wheel_count g.mission.ghosting
  pure (
    ghosts_end result.0,
    record g { mission = handle (classes_read result.1.ghost_classes) g.mission },
  )

-- `EventDecodeError` and `EventSequenceGapError` end the body; past the end of the stream it goes on.
unfoldable pub after_events : Option ℕ → Outcome → GameConnection → M (BodyEnd × GameConnection)
unfolding read_ghosts
after_events wheel_count finished g = read_ghosts wheel_count g
after_events wheel_count overrun g = read_ghosts wheel_count g
after_events wheel_count spent g = read_ghosts wheel_count g
after_events wheel_count (gap expected seq) g = pure (events_error (gap expected seq), g)
after_events wheel_count (decode_error class_id) g = pure (events_error (decode_error class_id), g)

unfoldable pub after_header :
    Option ℕ → Handlers → ℕ → Option (Unit {0}) → GameConnection → M (BodyEnd × GameConnection)
unfolding answer_all after_events
after_header wheel_count handlers now none g = pure (header_error, g)
after_header wheel_count handlers now (some v) g = do
  result ← read_events wheel_count (record g.events { calls = [] })
  after_events wheel_count result.0 (answered handlers now result.1 g)

unfoldable pub read_packet_body :
    Option ℕ → Handlers → ℕ → GameConnection → M (BodyEnd × GameConnection)
unfolding after_header
read_packet_body wheel_count handlers now g = do
  set_string_buffer (some (replicate 256 0))
  header ← read_control_header wheel_count g.mission.ghosting.ghost_classes g.control
  result ← after_header wheel_count handlers now header.0 (record g { control = header.1 })
  set_string_buffer none
  pure result
