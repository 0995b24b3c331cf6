-- ===== src/Events/Receive/Order.antt =====
-- aotbot/events.py: ordered events under consecutive numbers.
use aot_headless_client.Base.{
  ℕ, ◌+◌, ◌%◌, ◌≡◌, refl, sym, ap, ◌∙◌, Bool, true, false, none, List, [], ◌∷◌, ◌++◌, append-nil,
  arith, length, All,
}
use aot_headless_client.Events.Incoming.{
  Event, net_string, remote_command, connection_message, ghost_always, datablock, discarded,
  undecodable,
}
use aot_headless_client.Events.Receive.{
  EventReader, finished, perform, command, message_call, raised, ahead, consume,
}
use aot_headless_client.Events.Receive.Section.{accept}

-- Events under consecutive numbers from `n` on.
unfoldable pub numbered : ℕ → List Event → List (ℕ × Event)
numbered n [] = []
numbered n (event ∷ events) = (n % 128, event) ∷ numbered (n + 1) events

-- Each event dispatched, in order.
unfoldable pub dispatch_all : List Event → EventReader → EventReader
dispatch_all [] r = r
dispatch_all (event ∷ events) r = dispatch_all events (consume true (perform event true r))

abbrev pub IsDecodable : Event → Type 0
IsDecodable event = raised event ≡ none

-- The number that a reader waits for is kept by what is done with an event.
pub perform_next :
    (event : Event) (dispatch : Bool) (r : EventReader)
    → (perform event dispatch r).next_recv_event_seq ≡ r.next_recv_event_seq
unfolding perform command message_call
perform_next (net_string index text) dispatch r = refl
perform_next (remote_command (verb ∷ args)) true r = refl
perform_next (remote_command []) true r = refl
perform_next (remote_command argv) false r = refl
perform_next (connection_message message sequence ghost_count) true r = refl
perform_next (connection_message message sequence ghost_count) false r = refl
perform_next (ghost_always ghost_id class_id decoded) dispatch r = refl
perform_next (datablock db_id class_id decoded) dispatch r = refl
perform_next discarded dispatch r = refl
perform_next (undecodable classid) dispatch r = refl

pub consumed_next :
    (r : EventReader) (event : Event) (n : ℕ)
    → r.next_recv_event_seq ≡ n % 128
    → (consume true (perform event true r)).next_recv_event_seq ≡ (n + 1) % 128
unfolding consume
consumed_next r event n h = omega (arith, perform_next event true r, h)

expected_here : (n : ℕ) → ahead (n % 128 % 128) (n % 128) ≡ 0
unfolding ahead
expected_here n = omega arith

-- The expected event first.
accept_expected :
    (n : ℕ) (event : Event) (rest : List (ℕ × Event)) (r : EventReader)
    → r.next_recv_event_seq ≡ n % 128
    → IsDecodable event
    → accept ((n % 128, event) ∷ rest) r ≡ accept rest (consume true (perform event true r))
unfolding accept
accept_expected n event rest r h d = rw (h, expected_here n, d) refl

-- Events in the order of their numbers are all dispatched.
pub accept-numbered :
    (n : ℕ) (events : List Event) (rest : List (ℕ × Event)) (r : EventReader)
    → r.next_recv_event_seq ≡ n % 128
    → All IsDecodable events
    → accept (numbered n events ++ rest) r ≡ accept rest (dispatch_all events r)
unfolding numbered dispatch_all
accept-numbered n [] rest r h all = refl
accept-numbered n (event ∷ events) rest r h (d, all) =
    accept_expected n event (numbered (n + 1) events ++ rest) r h d
    ∙ accept-numbered (n + 1) events rest (consume true (perform event true r))
        (consumed_next r event n h) all

pub accept_nothing : (r : EventReader) → accept [] r ≡ (finished, r)
unfolding accept
accept_nothing r = refl

pub accept-dispatch_all :
    (n : ℕ) (events : List Event) (r : EventReader)
    → r.next_recv_event_seq ≡ n % 128
    → All IsDecodable events
    → accept (numbered n events) r ≡ (finished, dispatch_all events r)
accept-dispatch_all n events r h all =
    ap (λ l. accept l r) (sym (append-nil (numbered n events)))
    ∙ accept-numbered n events [] r h all
    ∙ accept_nothing (dispatch_all events r)

pub dispatched_next :
    (n : ℕ) (events : List Event) (r : EventReader)
    → r.next_recv_event_seq ≡ n % 128
    → (dispatch_all events r).next_recv_event_seq ≡ (n + length events) % 128
unfolding dispatch_all
dispatched_next n [] r h = h ∙ ap (λ (k : ℕ). k % 128) (omega arith)
dispatched_next n (event ∷ events) r h =
    dispatched_next (n + 1) events (consume true (perform event true r)) (consumed_next r event n h)
    ∙ ap (λ (k : ℕ). k % 128) (omega arith)
