-- ===== src/Phases/Mission.antt =====
-- aotbot/phases.py: the state machine of a mission's phases. An input is a client command, a connection
-- message, a ghost that is scoped or a tick of the connection; what the machine queues for the server and
-- which hooks it calls is its log. The clock is a number of ticks; of a command's arguments there is the number
-- that `int` makes of the first, if it does.
pub mod Once
use aot_headless_client.Base.{
  ℕ, zero, suc, ◌+◌, ◌-◌, Bool, true, false, not, ◌&&◌, Option, none, some, List, [], ◌∷◌, ltb,
  ◌==◌, if◌then◌else◌,
}
use aot_headless_client.Base.Int.{ℤ, pos}
use aot_headless_client.Phases.GhostSection.{Ghosting, Classes}

pub data MissionState : Type 0 where
  loading : MissionState
  phase1_done : MissionState
  ingame_loggedout : MissionState

-- What goes out: a connection message, the ack of a phase with its sequence, or the call of a hook.
pub data Out : Type 0 where
  connection_message : ℕ → ℕ → ℕ → Out
  phase_ack : ℕ → ℤ → Out
  phase2_acked_hook : Out
  ingame_hook : Out

pub record Mission : Type 0 where
  pub state : MissionState
  pub datablocks_done : Bool
  pub phase1_seq : ℤ
  pub acked2 : Bool
  pub acked3 : Bool
  pub ghosting : Ghosting
  pub ghosting_sequence : ℕ
  pub seen_ghost_always_starting : Bool
  pub ghost_always_count : ℕ
  pub last_ghost_always_time : ℕ
  pub ready_for_normal_sent : Bool
  pub eager_login_done : Bool
  pub log : List Out

unfoldable pub new_mission : Mission
new_mission = record {
  state = loading;
  datablocks_done = false;
  phase1_seq = pos 0;
  acked2 = false;
  acked3 = false;
  ghosting = record { ghosting_active = false; ghost_classes = λ id. none };
  ghosting_sequence = 0;
  seen_ghost_always_starting = false;
  ghost_always_count = 0;
  last_ghost_always_time = 0;
  ready_for_normal_sent = false;
  eager_login_done = false;
  log = [];
}

-- The newest entry of the log is its head.
abbrev pub put_out : Out → Mission → Mission
put_out o p = record p { log = o ∷ p.log }

abbrev pub set_class : ℕ → ℕ → Classes → Classes
set_class ghost_id class_id classes id = if id == ghost_id then some class_id else classes id

unfoldable pub on_ghost_scoped : ℕ → ℕ → ℕ → Mission → Mission
on_ghost_scoped now ghost_id class_id p =
    let scoped = record p {
      ghosting = record p.ghosting {
        ghost_classes = set_class ghost_id class_id p.ghosting.ghost_classes;
      };
    } in
    if p.ghosting.ghosting_active && not p.ready_for_normal_sent
    then record scoped {
      ghost_always_count = p.ghost_always_count + 1;
      last_ghost_always_time = now;
    }
    else scoped

-- `ReadyForNormalGhosts` with the sequence of the ghosting.
abbrev pub send_ready : Mission → Mission
send_ready p = record p {
  ready_for_normal_sent = true;
  log = connection_message 1 p.ghosting_sequence 0 ∷ p.log;
}

unfoldable pub maybe_send_ready_for_normal_ghosts : ℕ → ℕ → Mission → Mission
maybe_send_ready_for_normal_ghosts timeout now p =
    if p.ready_for_normal_sent
    then p
    else if not (p.ghosting.ghosting_active && p.seen_ghost_always_starting)
    then p
    else if p.ghost_always_count == 0
    then p
    else if ltb (now - p.last_ghost_always_time) timeout
    then p
    else send_ready p

abbrev pub ghosting_on : Bool → Mission → Mission
ghosting_on b p = record p { ghosting = record p.ghosting { ghosting_active = b } }

unfoldable pub on_connection_message : ℕ → ℕ → ℕ → Mission → Mission
on_connection_message message sequence ghost_count p =
    if message == 6
    then record p { datablocks_done = true; log = connection_message 7 sequence 0 ∷ p.log }
    else if message == 3
    then record (ghosting_on true p) {
      ghosting_sequence = sequence;
      seen_ghost_always_starting = true;
    }
    else if message == 0
    then (if p.ghosting.ghosting_active
          && (p.seen_ghost_always_starting && not p.ready_for_normal_sent)
        then send_ready p
        else p)
    else if message == 2
    then ghosting_on false p
    else p

unfoldable pub seq_of : Option ℤ → ℤ
seq_of none = pos 1
seq_of (some seq) = seq

unfoldable pub on_phase1 : ℤ → Mission → Mission
on_phase1 seq p = record p { phase1_seq = seq; state = phase1_done; log = phase_ack 1 seq ∷ p.log }

abbrev pub ack2 : ℤ → Mission → Mission
ack2 seq p = if p.acked2 then p else record p { acked2 = true; log = phase_ack 2 seq ∷ p.log }

abbrev pub eager_login : Mission → Mission
eager_login p =
    if p.eager_login_done
    then p
    else record p { eager_login_done = true; log = phase2_acked_hook ∷ p.log }

unfoldable pub on_phase2 : ℤ → Mission → Mission
on_phase2 seq p = eager_login (ack2 seq p)

unfoldable pub on_phase3 : ℤ → Mission → Mission
on_phase3 seq p = if p.acked3 then p else record p { acked3 = true; log = phase_ack 3 seq ∷ p.log }

abbrev pub is_ingame : MissionState → Bool
is_ingame loading = false
is_ingame phase1_done = false
is_ingame ingame_loggedout = true

unfoldable pub enter_ingame : Mission → Mission
enter_ingame p =
    if is_ingame p.state
    then p
    else record p { state = ingame_loggedout; log = ingame_hook ∷ p.log }

pub data Input : Type 0 where
  mission_start_phase1 : Option ℤ → Input
  mission_start_phase2 : Option ℤ → Input
  mission_start_phase3 : Option ℤ → Input
  mission_start : Input
  start_login : Input
  message_came : ℕ → ℕ → ℕ → Input
  ghost_came : ℕ → ℕ → ℕ → Input
  tick : ℕ → ℕ → Input
  classes_read : Classes → Input

-- The handlers as `_register_handlers` binds them, the tick of the connection, and the table that a ghost section
-- leaves.
unfoldable pub handle : Input → Mission → Mission
unfolding seq_of on_phase1 on_phase2 on_phase3 enter_ingame on_connection_message on_ghost_scoped
    maybe_send_ready_for_normal_ghosts
handle (mission_start_phase1 arg) p = on_phase1 (seq_of arg) p
handle (mission_start_phase2 arg) p = on_phase2 (seq_of arg) p
handle (mission_start_phase3 arg) p = on_phase3 (seq_of arg) p
handle mission_start p = enter_ingame p
handle start_login p = enter_ingame p
handle (message_came message sequence ghost_count) p =
    on_connection_message message sequence ghost_count p
handle (ghost_came now ghost_id class_id) p = on_ghost_scoped now ghost_id class_id p
handle (tick timeout now) p = maybe_send_ready_for_normal_ghosts timeout now p
handle (classes_read classes) p = record p {
  ghosting = record p.ghosting { ghost_classes = classes };
}
