-- ===== src/Events/Teaching.antt =====
-- aotbot/events.py: the NetStringEvent that teaches the other side a string, as `_enqueue_net_string_event` writes
-- it and as the reader of events takes it.
use aot_headless_client.Base.{ℕ, ◌≡◌, ◌<◌, Bool, false, Option, none, List, ◌++◌, arith, take}
use aot_headless_client.Base.Int.{pos}
use aot_headless_client.Base.Values.{int_bits}
use aot_headless_client.BitStream.{M, ◌>>◌, new, open_on, get_bytes, write_int}
use aot_headless_client.BitStream.View.{Reads, Writes, Reads-bind, Reads-return, Writes-bind}
use aot_headless_client.BitStream.Appended.{transmit}
use aot_headless_client.BitStream.Ints.{Writes-int, written}
use aot_headless_client.BitStream.Fields.{Reads-fit_on}
use aot_headless_client.BitStream.Strings.{
  text, latin1, string_bytes, set_string_buffer, write_string,
}
use aot_headless_client.BitStream.Strings.Wire.{
  latin1-IsByte, string_wire, strings_after, Writes-set_strings, Reads-set_strings, Writes-string,
  Reads-string,
}
use aot_headless_client.Events.Incoming.{net_string, read_net_string_event, read_one_event}

unfoldable pub write_net_string : ℕ → List ℕ → M (Unit {0})
write_net_string slot chars = do write_int (pos slot) 5; write_string (text chars) 255

net_string_bits : Option (List ℕ) → ℕ → List ℕ → List Bool
net_string_bits sb slot chars =
    int_bits 5 (written (pos slot) 5) ++ string_wire sb (latin1 chars) 255

Writes-net_string :
    (sb : Option (List ℕ)) (slot : ℕ) (chars : List ℕ)
    → Writes sb
        (write_net_string slot chars)
        (net_string_bits sb slot chars)
        tt
        (strings_after sb (take 255 (latin1 chars)))
unfolding write_net_string net_string_bits string_bytes
Writes-net_string sb slot chars =
    Writes-bind _ (Writes-int sb (pos slot) 5)
      (Writes-string sb (text chars) 255 (latin1-IsByte chars) (omega arith))

Reads-net_string :
    (w : Option ℕ) (sb : Option (List ℕ)) (slot : ℕ) (chars : List ℕ)
    → slot < 32
    → Reads sb
        (read_one_event w 5)
        (net_string_bits sb slot chars)
        (net_string slot (take 255 (latin1 chars)))
        (strings_after sb (take 255 (latin1 chars)))
unfolding read_one_event read_net_string_event net_string_bits
Reads-net_string w sb slot chars small =
    Reads-bind _ (Reads-fit_on sb 5 slot (omega arith) small)
      (Reads-return _ (Reads-string sb (latin1 chars) 255 (latin1-IsByte chars) (omega arith)))

-- Behind any string buffer, the reader of events takes the payload that is written for a
-- NetStringEvent as this event, without an error: with the same slot, and with the first 255
-- characters of the text in Latin-1. Condition: the slot is below 32.
pub read_one_event-write_net_string :
    (w : Option ℕ) (sb : Option (List ℕ)) (slot : ℕ) (chars : List ℕ)
    → slot < 32
    → (((set_string_buffer sb >> read_one_event w 5)
          (open_on (get_bytes ((set_string_buffer sb >> write_net_string slot chars) new).1))).0
        ≡ net_string slot (take 255 (latin1 chars)))
      × (((set_string_buffer sb >> read_one_event w 5) (
            open_on
              (get_bytes ((set_string_buffer sb >> write_net_string slot chars) new).1))).1.error
          ≡ false)
read_one_event-write_net_string w sb slot chars small =
    let (got, moved, fine) =
      transmit (Writes-bind _ (Writes-set_strings none sb) (Writes-net_string sb slot chars))
        (Reads-bind _ (Reads-set_strings none sb) (Reads-net_string w sb slot chars small)) in
    (got, fine)
