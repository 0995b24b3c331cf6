-- ===== src/Phases/Mission/Once.antt =====
-- aotbot/phases.py: how often the machine has sent what.
use aot_headless_client.Base.{
  ℕ, ◌+◌, ◌-◌, ◌≤◌, ◌≡◌, refl, ap, Bool, true, false, not, ◌&&◌, List, [], ◌∷◌, ltb, ◌==◌, arith,
  if◌then◌else◌,
}
use aot_headless_client.Base.Int.{ℤ}
use aot_headless_client.Phases.Mission.{
  Mission, Out, connection_message, phase_ack, phase2_acked_hook, ingame_hook, new_mission,
  send_ready, on_ghost_scoped, maybe_send_ready_for_normal_ghosts, on_connection_message, seq_of,
  on_phase1, ack2, eager_login, on_phase2, on_phase3, is_ingame, enter_ingame, Input,
  mission_start_phase1, mission_start_phase2, mission_start_phase3, mission_start, start_login,
  message_came, ghost_came, tick, classes_read, handle,
}

-- The missions that a run of inputs reaches.
pub data Reachable : Mission → Type 0 where
  start : Reachable new_mission
  next : {p : Mission} (input : Input) → Reachable p → Reachable (handle input p)

abbrev pub bit : Bool → ℕ
bit true = 1
bit false = 0

-- How many entries pass the test.
unfoldable pub count : (Out → Bool) → List Out → ℕ
count test [] = 0
count test (o ∷ log) = let rest = count test log in if test o then 1 + rest else rest

unfoldable pub is_ready : Out → Bool
is_ready (connection_message message sequence ghost_count) = message == 1
is_ready (phase_ack phase seq) = false
is_ready phase2_acked_hook = false
is_ready ingame_hook = false

unfoldable pub is_ack : ℕ → Out → Bool
is_ack n (connection_message message sequence ghost_count) = false
is_ack n (phase_ack phase seq) = phase == n
is_ack n phase2_acked_hook = false
is_ack n ingame_hook = false

unfoldable pub is_login_hook : Out → Bool
is_login_hook (connection_message message sequence ghost_count) = false
is_login_hook (phase_ack phase seq) = false
is_login_hook phase2_acked_hook = true
is_login_hook ingame_hook = false

record IsConsistent (p : Mission) : Type 0 where
  ready : count is_ready p.log ≡ bit p.ready_for_normal_sent
  started : bit p.ready_for_normal_sent ≤ bit p.seen_ghost_always_starting
  second : count (is_ack 2) p.log ≡ bit p.acked2
  third : count (is_ack 3) p.log ≡ bit p.acked3
  login : count is_login_hook p.log ≡ bit p.eager_login_done

new_mission-IsConsistent : IsConsistent new_mission
unfolding new_mission count
new_mission-IsConsistent = record {
  ready = refl;
  started = omega arith;
  second = refl;
  third = refl;
  login = refl;
}

-- `ReadyForNormalGhosts` goes out where it has not yet, behind a `GhostAlwaysStarting`.
send_ready-IsConsistent :
    (p : Mission)
    → p.ready_for_normal_sent ≡ false
    → p.seen_ghost_always_starting ≡ true
    → IsConsistent p
    → IsConsistent (send_ready p)
unfolding count is_ready is_ack is_login_hook
send_ready-IsConsistent p unsent seen c = record {
  ready = omega (arith, c.ready, ap bit unsent);
  started = omega (arith, ap bit seen);
  second = c.second;
  third = c.third;
  login = c.login;
}

pub bit_le_one : (b : Bool) → bit b ≤ 1
bit_le_one true = omega arith
bit_le_one false = omega arith

if_keeps :
    {m n : Mission} (b : Bool)
    → (b ≡ true → IsConsistent m)
    → (b ≡ false → IsConsistent n)
    → IsConsistent (if b then m else n)
if_keeps true then_keeps else_keeps = then_keeps refl
if_keeps false then_keeps else_keeps = else_keeps refl

and_left : (a b : Bool) → (a && b) ≡ true → a ≡ true
and_left true b h = refl
and_left false b h = cc

and_right : (a b : Bool) → (a && b) ≡ true → b ≡ true
and_right true b h = h
and_right false b h = cc

not-true : (b : Bool) → not b ≡ true → b ≡ false
not-true true h = cc
not-true false h = refl

not-false : (b : Bool) → not b ≡ false → b ≡ true
not-false true h = refl
not-false false h = cc

tick-IsConsistent :
    (timeout now : ℕ) (p : Mission)
    → IsConsistent p
    → IsConsistent (maybe_send_ready_for_normal_ghosts timeout now p)
unfolding maybe_send_ready_for_normal_ghosts
tick-IsConsistent timeout now p c =
    if_keeps p.ready_for_normal_sent (λ sent. c)
      (λ unsent.
        if_keeps (not (p.ghosting.ghosting_active && p.seen_ghost_always_starting)) (λ off. c)
          (λ on.
            if_keeps (p.ghost_always_count == 0) (λ none_yet. c)
              (λ some_yet.
                if_keeps (ltb (now - p.last_ghost_always_time) timeout) (λ early. c)
                  (λ idle. send_ready-IsConsistent p unsent (and_right _ _ (not-false _ on)) c))))

message-IsConsistent :
    (message sequence ghost_count : ℕ) (p : Mission)
    → IsConsistent p
    → IsConsistent (on_connection_message message sequence ghost_count p)
unfolding on_connection_message count is_ready is_ack is_login_hook
message-IsConsistent message sequence ghost_count p c =
    if_keeps (message == 6)
      (λ h. record {
        ready = c.ready;
        started = c.started;
        second = c.second;
        third = c.third;
        login = c.login;
      })
      (λ h.
        if_keeps (message == 3)
          (λ h. record {
            ready = c.ready;
            started = bit_le_one p.ready_for_normal_sent;
            second = c.second;
            third = c.third;
            login = c.login;
          })
          (λ h.
            if_keeps (message == 0)
              (λ h.
                if_keeps
                  (p.ghosting.ghosting_active
                    && (p.seen_ghost_always_starting && not p.ready_for_normal_sent))
                  (λ on.
                    send_ready-IsConsistent p (not-true _ (and_right _ _ (and_right _ _ on)))
                      (and_left _ _ (and_right _ _ on)) c)
                  (λ off. c))
              (λ h.
                if_keeps (message == 2)
                  (λ h. record {
                    ready = c.ready;
                    started = c.started;
                    second = c.second;
                    third = c.third;
                    login = c.login;
                  })
                  (λ h. c))))

scoped-IsConsistent :
    (now ghost_id class_id : ℕ) (p : Mission)
    → IsConsistent p
    → IsConsistent (on_ghost_scoped now ghost_id class_id p)
unfolding on_ghost_scoped
scoped-IsConsistent now ghost_id class_id p c =
    if_keeps (p.ghosting.ghosting_active && not p.ready_for_normal_sent)
      (λ on. record {
        ready = c.ready;
        started = c.started;
        second = c.second;
        third = c.third;
        login = c.login;
      })
      (λ off. record {
        ready = c.ready;
        started = c.started;
        second = c.second;
        third = c.third;
        login = c.login;
      })

ack2-IsConsistent : (seq : ℤ) (p : Mission) → IsConsistent p → IsConsistent (ack2 seq p)
unfolding count is_ready is_ack is_login_hook
ack2-IsConsistent seq p c =
    if_keeps p.acked2 (λ sent. c)
      (λ unsent. record {
        ready = c.ready;
        started = c.started;
        second = omega (arith, c.second, ap bit unsent);
        third = c.third;
        login = c.login;
      })

eager_login-IsConsistent : (p : Mission) → IsConsistent p → IsConsistent (eager_login p)
unfolding count is_ready is_ack is_login_hook
eager_login-IsConsistent p c =
    if_keeps p.eager_login_done (λ called. c)
      (λ uncalled. record {
        ready = c.ready;
        started = c.started;
        second = c.second;
        third = c.third;
        login = omega (arith, c.login, ap bit uncalled);
      })

on_phase3-IsConsistent : (seq : ℤ) (p : Mission) → IsConsistent p → IsConsistent (on_phase3 seq p)
unfolding on_phase3 count is_ready is_ack is_login_hook
on_phase3-IsConsistent seq p c =
    if_keeps p.acked3 (λ sent. c)
      (λ unsent. record {
        ready = c.ready;
        started = c.started;
        second = c.second;
        third = omega (arith, c.third, ap bit unsent);
        login = c.login;
      })

enter_ingame-IsConsistent : (p : Mission) → IsConsistent p → IsConsistent (enter_ingame p)
unfolding enter_ingame count is_ready is_ack is_login_hook
enter_ingame-IsConsistent p c =
    if_keeps (is_ingame p.state) (λ inside. c)
      (λ outside. record {
        ready = c.ready;
        started = c.started;
        second = c.second;
        third = c.third;
        login = c.login;
      })

handle-IsConsistent : (input : Input) (p : Mission) → IsConsistent p → IsConsistent (handle input p)
unfolding handle on_phase1 on_phase2 count is_ready is_ack is_login_hook
handle-IsConsistent (mission_start_phase1 arg) p c = record {
  ready = c.ready;
  started = c.started;
  second = c.second;
  third = c.third;
  login = c.login;
}
handle-IsConsistent (mission_start_phase2 arg) p c =
    eager_login-IsConsistent _ (ack2-IsConsistent (seq_of arg) p c)
handle-IsConsistent (mission_start_phase3 arg) p c = on_phase3-IsConsistent (seq_of arg) p c
handle-IsConsistent mission_start p c = enter_ingame-IsConsistent p c
handle-IsConsistent start_login p c = enter_ingame-IsConsistent p c
handle-IsConsistent (message_came message sequence ghost_count) p c =
    message-IsConsistent message sequence ghost_count p c
handle-IsConsistent (ghost_came now ghost_id class_id) p c =
    scoped-IsConsistent now ghost_id class_id p c
handle-IsConsistent (tick timeout now) p c = tick-IsConsistent timeout now p c
handle-IsConsistent (classes_read classes) p c = record {
  ready = c.ready;
  started = c.started;
  second = c.second;
  third = c.third;
  login = c.login;
}

Reachable-IsConsistent : {p : Mission} → Reachable p → IsConsistent p
Reachable-IsConsistent start = new_mission-IsConsistent
Reachable-IsConsistent (next {p = p} input reach) =
    handle-IsConsistent input p (Reachable-IsConsistent reach)

-- In every mission that a run of inputs reaches from the start, whatever their order and repetitions,
-- `ReadyForNormalGhosts` was sent at most once, and not before a `GhostAlwaysStarting`; the acks of
-- phase 2 and of phase 3 were sent at most once each, and the login hook was called at most once.
pub Reachable-sends_once :
    {p : Mission}
    → Reachable p
    → (count is_ready p.log ≤ bit p.seen_ghost_always_starting)
      × (count (is_ack 2) p.log ≤ 1)
      × (count (is_ack 3) p.log ≤ 1)
      × (count is_login_hook p.log ≤ 1)
Reachable-sends_once {p} reach =
    let c = Reachable-IsConsistent reach in
    (
      omega (arith, c.ready, c.started),
      omega (arith, c.second, bit_le_one p.acked2),
      omega (arith, c.third, bit_le_one p.acked3),
      omega (arith, c.login, bit_le_one p.eager_login_done),
    )
