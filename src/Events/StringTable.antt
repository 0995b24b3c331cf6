-- ===== src/Events/StringTable.antt =====
-- aotbot/events.py: `ConnectionStringTable`, the 32 slots that stand for strings on the wire.
pub mod Mapping
pub mod Agreement
use aot_headless_client.Base.{
  ℕ, zero, suc, ◌+◌, ◌-◌, ◌%◌, Bool, true, false, ◌&&◌, Option, none, some, List, [], ◌∷◌, ◌++◌,
  ◌==◌, if◌then◌else◌,
}

-- A string, as its bytes.
abbrev pub Str : Type 0
Str = List ℕ

unfoldable pub str_eq : Str → Str → Bool
str_eq [] [] = true
str_eq [] (y ∷ ys) = false
str_eq (x ∷ xs) [] = false
str_eq (x ∷ xs) (y ∷ ys) = (x == y) && str_eq xs ys

-- The two maps of the table as functions, and the slots from the least to the most recently used.
pub record StringTable : Type 0 where
  pub slot_to_str : ℕ → Option Str
  pub str_to_slot : Str → Option ℕ
  pub lru : List ℕ

unfoldable pub empty_table : StringTable
empty_table = record { slot_to_str = λ i. none; str_to_slot = λ s. none; lru = [] }

abbrev pub set_slot : ℕ → Str → (ℕ → Option Str) → ℕ → Option Str
set_slot slot text slots i = if i == slot then some text else slots i

abbrev pub set_key : Str → ℕ → (Str → Option ℕ) → Str → Option ℕ
set_key text slot keys s = if str_eq s text then some slot else keys s

abbrev pub del_key : Option Str → (Str → Option ℕ) → Str → Option ℕ
del_key none keys s = keys s
del_key (some old) keys s = if str_eq s old then none else keys s

abbrev pub is_slot : ℕ → Option ℕ → Bool
is_slot slot none = false
is_slot slot (some k) = k == slot

-- The key of the slot's old string, where the key still names the slot.
abbrev pub stale_key : ℕ → Option Str → (Str → Option ℕ) → Option Str
stale_key slot none keys = none
stale_key slot (some old) keys = if is_slot slot (keys old) then some old else none

unfoldable pub map_string : ℕ → Str → StringTable → StringTable
map_string slot text t =
    let i = slot % 32 in
    record t {
      slot_to_str = set_slot i text t.slot_to_str;
      str_to_slot =
          set_key text i (del_key (stale_key i (t.slot_to_str i) t.str_to_slot) t.str_to_slot);
    }

unfoldable pub lookup : ℕ → StringTable → Option Str
lookup slot t = t.slot_to_str (slot % 32)

-- `list.remove`: the first occurrence goes.
unfoldable pub remove : ℕ → List ℕ → List ℕ
remove slot [] = []
remove slot (k ∷ ks) = let rest = remove slot ks in if k == slot then ks else k ∷ rest

unfoldable pub touch : ℕ → StringTable → StringTable
unfolding remove
touch slot t = record t { lru = remove slot t.lru ++ (slot ∷ []) }

abbrev pub is_free : Option Str → Bool
is_free none = true
is_free (some s) = false

-- The first slot of `left` ones from `i` on that holds nothing, else `otherwise`.
unfoldable pub free_from : ℕ → ℕ → (ℕ → Option Str) → ℕ → ℕ
free_from zero i slots otherwise = otherwise
free_from (suc left) i slots otherwise =
    let rest = free_from left (i + 1) slots otherwise in if is_free (slots i) then i else rest

-- `_lru[0]`; on an empty list the source raises `IndexError`, for which 0 stands here.
abbrev pub oldest : List ℕ → ℕ
oldest [] = 0
oldest (k ∷ ks) = k

unfoldable pub free_slot : StringTable → ℕ
unfolding free_from
free_slot t = free_from 32 0 t.slot_to_str (oldest t.lru)

-- The slot of a string, and whether the peer has to be told of it.
unfoldable pub allot : Str → ℕ → StringTable → StringTable
unfolding touch
allot text slot t = touch slot (record t {
  slot_to_str = set_slot slot text t.slot_to_str;
  str_to_slot = set_key text slot (del_key (t.slot_to_str slot) t.str_to_slot);
})

unfoldable pub send_id_of : Option ℕ → Str → StringTable → (ℕ × Bool) × StringTable
unfolding allot free_slot
send_id_of (some slot) text t = ((slot, false), touch slot t)
send_id_of none text t = ((free_slot t, true), allot text (free_slot t) t)

unfoldable pub get_send_id : Str → StringTable → (ℕ × Bool) × StringTable
unfolding send_id_of
get_send_id text t = send_id_of (t.str_to_slot text) text t
