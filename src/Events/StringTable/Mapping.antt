-- ===== src/Events/StringTable/Mapping.antt =====
-- aotbot/events.py: the two maps of a `ConnectionStringTable`.
use aot_headless_client.Base.{
  ℕ, ◌%◌, ◌≡◌, refl, sym, ap, ◌∙◌, inl, inr, Bool, true, false, ◌&&◌, Option, none, some, [], ◌∷◌,
  ◌==◌, if◌then◌else◌, Bool-cases,
}
use aot_headless_client.Base.Tests.{==-refl, ==_iff}
use aot_headless_client.Events.StringTable.{
  Str, str_eq, StringTable, empty_table, set_slot, set_key, del_key, stale_key, map_string, touch,
  free_slot, allot, send_id_of, get_send_id,
}

str_eq_sound : (xs ys : Str) → str_eq xs ys ≡ true → xs ≡ ys
unfolding str_eq
str_eq_sound [] [] h = refl
str_eq_sound [] (y ∷ ys) h = cc
str_eq_sound (x ∷ xs) [] h = cc
str_eq_sound (x ∷ xs) (y ∷ ys) h = elim (Bool-cases (x == y)) [
  | inl t ↦
      let rest : str_eq xs ys ≡ true = sym (ap (λ (b : Bool). b && str_eq xs ys) t) ∙ h in
      let head : x ≡ y = (==_iff x y).0 t in let tail : xs ≡ ys = str_eq_sound xs ys rest in cc
  | inr t ↦ let no : false ≡ true = sym (ap (λ (b : Bool). b && str_eq xs ys) t) ∙ h in cc
]

str_eq_refl : (xs : Str) → str_eq xs xs ≡ true
unfolding str_eq
str_eq_refl [] = refl
str_eq_refl (x ∷ xs) = rw (==-refl x) (str_eq_refl xs)

-- Every string that has a slot stands in this slot.
pub record IsMapping (t : StringTable) : Type 0 where
  pub stands : (s : Str) (k : ℕ) → t.str_to_slot s ≡ some k → t.slot_to_str k ≡ some s

pub empty-IsMapping : IsMapping empty_table
unfolding empty_table
empty-IsMapping = record { stands = λ s k h. cc }

-- The step that both ways of taking a slot share: no key of the old string may be left at the slot.
set-IsMapping :
    (t : StringTable) (slot : ℕ) (text : Str) (keys : Str → Option ℕ) (s : Str) (k : ℕ)
    → ((s' : Str) (k' : ℕ)
        → keys s' ≡ some k'
        → (t.slot_to_str k' ≡ some s') × ((k' == slot) ≡ false))
    → set_key text slot keys s ≡ some k
    → set_slot slot text t.slot_to_str k ≡ some s
set-IsMapping t slot text keys s k inside h = elim (Bool-cases (str_eq s text)) [
  | inl u ↦
      let here : some slot ≡ some k =
        sym (ap (λ (b : Bool). if b then some slot else keys s) u) ∙ h in
      let same : s ≡ text = str_eq_sound s text u in
      let place : slot ≡ k = cc in
      let hit : (k == slot) ≡ true = (==_iff k slot).1 (sym place) in
      rw hit (ap (λ o. some o) (sym same))
  | inr u ↦
      let old : keys s ≡ some k = sym (ap (λ (b : Bool). if b then some slot else keys s) u) ∙ h in
      let (stands, other) = inside s k old in rw other stands
]

pub del_key-keeps :
    (gone : Option Str) (keys : Str → Option ℕ) (s : Str) (k : ℕ)
    → del_key gone keys s ≡ some k
    → keys s ≡ some k
del_key-keeps none keys s k h = h
del_key-keeps (some old) keys s k h = elim (Bool-cases (str_eq s old)) [
  | inl t ↦ let no : none ≡ some k = sym (ap (λ (b : Bool). if b then none else keys s) t) ∙ h in cc
  | inr t ↦ sym (ap (λ (b : Bool). if b then none else keys s) t) ∙ h
]

del_key-gone : (keys : Str → Option ℕ) (s : Str) → del_key (some s) keys s ≡ none
del_key-gone keys s = rw (str_eq_refl s) refl

-- A key that was left does not name the slot whose key went.
left_elsewhere :
    (t : StringTable) (slot : ℕ) (gone : Option Str)
    → IsMapping t
    → ((s : Str) → t.str_to_slot s ≡ some slot → gone ≡ some s)
    → (s : Str) (k : ℕ) → del_key gone t.str_to_slot s ≡ some k
    → (t.slot_to_str k ≡ some s) × ((k == slot) ≡ false)
left_elsewhere t slot gone m covers s k h =
    let kept : t.str_to_slot s ≡ some k = del_key-keeps gone t.str_to_slot s k h in
    (
      m.stands s k kept,
      elim (Bool-cases (k == slot)) [
        | inr f ↦ f
        | inl f ↦
            let place : k ≡ slot = (==_iff k slot).0 f in
            let it : gone ≡ some s = covers s (kept ∙ ap (λ (n : ℕ). some n) place) in
            let no : none ≡ some k =
              sym (del_key-gone t.str_to_slot s)
              ∙ sym (ap (λ o. del_key o t.str_to_slot s) it)
              ∙ h in
            cc
      ],
    )

stale_key-covers :
    (t : StringTable) (slot : ℕ)
    → IsMapping t
    → (s : Str) → t.str_to_slot s ≡ some slot
    → stale_key slot (t.slot_to_str slot) t.str_to_slot ≡ some s
stale_key-covers t slot m s h = rw (m.stands s slot h, h, ==-refl slot) refl

-- On a table in which every string that has a slot stands in that slot, `map_string` keeps this so,
-- also where the slot held another string or the string had another slot.
pub map_string-IsMapping :
    (slot : ℕ) (text : Str) (t : StringTable) → IsMapping t → IsMapping (map_string slot text t)
unfolding map_string
map_string-IsMapping slot text t m = record {
  stands = λ s k.
      set-IsMapping t (slot % 32) text
        (del_key (stale_key (slot % 32) (t.slot_to_str (slot % 32)) t.str_to_slot) t.str_to_slot) s
        k
        (left_elsewhere t (slot % 32)
          (stale_key (slot % 32) (t.slot_to_str (slot % 32)) t.str_to_slot) m
          (stale_key-covers t (slot % 32) m));
}

allot-IsMapping :
    (text : Str) (slot : ℕ) (t : StringTable) → IsMapping t → IsMapping (allot text slot t)
unfolding allot touch
allot-IsMapping text slot t m = record {
  stands = λ s k.
      set-IsMapping t slot text (del_key (t.slot_to_str slot) t.str_to_slot) s k
        (left_elsewhere t slot (t.slot_to_str slot) m (λ s' h. m.stands s' slot h));
}

send_id_of-mapped :
    (found : Option ℕ) (text : Str) (t : StringTable)
    → t.str_to_slot text ≡ found
    → IsMapping t
    → IsMapping (send_id_of found text t).1
      × ((send_id_of found text t).1.slot_to_str (send_id_of found text t).0.0 ≡ some text)
unfolding send_id_of allot touch
send_id_of-mapped (some slot) text t h m = (record { stands = m.stands }, m.stands text slot h)
send_id_of-mapped none text t h m =
    (allot-IsMapping text (free_slot t) t m, rw (==-refl (free_slot t)) refl)

-- On a table in which every string that has a slot stands in that slot, `get_send_id` keeps this so,
-- whether it finds the string, takes a free slot or evicts the oldest one, and the slot that it
-- returns holds the string.
pub get_send_id-IsMapping :
    (text : Str) (t : StringTable)
    → IsMapping t
    → IsMapping (get_send_id text t).1
      × ((get_send_id text t).1.slot_to_str (get_send_id text t).0.0 ≡ some text)
unfolding get_send_id
get_send_id-IsMapping text t m = send_id_of-mapped (t.str_to_slot text) text t refl m
