-- ===== src/Events/StringTable/Agreement.antt =====
-- aotbot/events.py: the sender's string table and the one of the peer that it teaches.
use aot_headless_client.Base.{
  ℕ, zero, suc, ◌+◌, ◌%◌, ◌<◌, ◌≤◌, ◌≡◌, refl, sym, ap, ◌∙◌, inl, inr, Bool, Option, none, some,
  List, [], ◌∷◌, ◌++◌, arith, ◌==◌, if◌then◌else◌, All, All-append, Bool-cases,
}
use native.Mathlib.Nat.{mod-eq_of_lt}
use aot_headless_client.Events.StringTable.{
  Str, str_eq, StringTable, empty_table, set_key, del_key, map_string, remove, touch, is_free,
  free_from, oldest, free_slot, allot, send_id_of, get_send_id,
}
use aot_headless_client.Events.StringTable.Mapping.{del_key-keeps}

-- All slot numbers of the table are below 32.
pub record IsBounded (t : StringTable) : Type 0 where
  pub order : All (λ k. k < 32) t.lru
  pub keys : (s : Str) (k : ℕ) → t.str_to_slot s ≡ some k → k < 32

pub empty-IsBounded : IsBounded empty_table
unfolding empty_table
empty-IsBounded = record { order = tt; keys = λ s k h. cc }

remove-All : (slot : ℕ) (ks : List ℕ) → All (λ k. k < 32) ks → All (λ k. k < 32) (remove slot ks)
unfolding remove
remove-All slot [] h = tt
remove-All slot (k ∷ ks) (h, hs) = elim (Bool-cases (k == slot)) [
  | inl t ↦ rw t hs
  | inr t ↦ rw t (h, remove-All slot ks hs)
]

touch-order :
    (slot : ℕ) (ks : List ℕ)
    → slot < 32
    → All (λ k. k < 32) ks
    → All (λ k. k < 32) (remove slot ks ++ (slot ∷ []))
touch-order slot ks small h =
    All-append (λ k. k < 32) (remove slot ks) (slot ∷ []) (remove-All slot ks h) (small, tt)

free_from-lt :
    (left i : ℕ) (slots : ℕ → Option Str) (otherwise : ℕ)
    → i + left ≤ 32
    → otherwise < 32
    → free_from left i slots otherwise < 32
unfolding free_from
free_from-lt zero i slots otherwise h small = small
free_from-lt (suc left) i slots otherwise h small = elim (Bool-cases (is_free (slots i))) [
  | inl t ↦ rw t (omega (arith, h))
  | inr t ↦ rw t (free_from-lt left (i + 1) slots otherwise (omega (arith, h)) small)
]

oldest-lt : (ks : List ℕ) → All (λ k. k < 32) ks → oldest ks < 32
oldest-lt [] h = omega arith
oldest-lt (k ∷ ks) (h, hs) = h

free_slot-lt : (t : StringTable) → IsBounded t → free_slot t < 32
unfolding free_slot
free_slot-lt t b =
    free_from-lt 32 0 t.slot_to_str (oldest t.lru) (omega arith) (oldest-lt t.lru b.order)

allot-keys :
    (t : StringTable) (slot : ℕ) (text : Str) (s : Str) (k : ℕ)
    → IsBounded t
    → slot < 32
    → set_key text slot (del_key (t.slot_to_str slot) t.str_to_slot) s ≡ some k
    → k < 32
allot-keys t slot text s k b small h = elim (Bool-cases (str_eq s text)) [
  | inl u ↦
      let here : some slot ≡ some k =
        sym (
          ap (λ (c : Bool). if c then some slot else del_key (t.slot_to_str slot) t.str_to_slot s)
            u)
        ∙ h in
      let place : slot ≡ k = cc in omega (arith, place)
  | inr u ↦
      let old : del_key (t.slot_to_str slot) t.str_to_slot s ≡ some k =
        sym (
          ap (λ (c : Bool). if c then some slot else del_key (t.slot_to_str slot) t.str_to_slot s)
            u)
        ∙ h in
      b.keys s k (del_key-keeps (t.slot_to_str slot) t.str_to_slot s k old)
]

-- The peer takes a NetStringEvent for a slot that was given out anew.
unfoldable pub taught : ℕ × Bool → Str → StringTable → StringTable
taught (slot, is_new) text peer = if is_new then map_string slot text peer else peer

-- Both ends have the same string in every slot.
pub record IsAgreed (t peer : StringTable) : Type 0 where
  pub same : (k : ℕ) → t.slot_to_str k ≡ peer.slot_to_str k

send_id_of-IsAgreed :
    (found : Option ℕ) (text : Str) (t peer : StringTable)
    → t.str_to_slot text ≡ found
    → IsBounded t
    → IsAgreed t peer
    → IsBounded (send_id_of found text t).1
      × IsAgreed (send_id_of found text t).1 (taught (send_id_of found text t).0 text peer)
unfolding send_id_of allot touch taught map_string
send_id_of-IsAgreed (some slot) text t peer h b a = (
  record { order = touch-order slot t.lru (b.keys text slot h) b.order; keys = b.keys },
  record { same = a.same },
)
send_id_of-IsAgreed none text t peer h b a =
    let small = free_slot-lt t b in
    let whole : free_slot t % 32 ≡ free_slot t = mod-eq_of_lt small in
    (
      record {
        order = touch-order (free_slot t) t.lru small b.order;
        keys = λ s k e. allot-keys t (free_slot t) text s k b small e;
      },
      record {
        same = λ k.
            rw whole
              (ap (λ (o : Option Str). if k == free_slot t then some text else o) (a.same k));
      },
    )

-- If the sender's table and the peer's hold the same string in every slot, and the sender's slot
-- numbers are all below 32, both is so again after `get_send_id` on the sender and, where it gave the
-- slot out anew, `map_string` of this slot and string on the peer.
pub get_send_id-IsAgreed :
    (text : Str) (t peer : StringTable)
    → IsBounded t
    → IsAgreed t peer
    → IsBounded (get_send_id text t).1
      × IsAgreed (get_send_id text t).1 (taught (get_send_id text t).0 text peer)
unfolding get_send_id
get_send_id-IsAgreed text t peer b a = send_id_of-IsAgreed (t.str_to_slot text) text t peer refl b a
