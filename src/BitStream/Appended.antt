-- ===== src/BitStream/Appended.antt =====
-- A stream that only write calls have filled: its buffer is the bits written so far, then zeros up to
-- the end of the last byte.
use aot_headless_client.Base.{
  ℕ, suc, ◌+◌, ◌-◌, ◌*◌, ◌/◌, ◌%◌, ◌<◌, ◌≡◌, inl, inr, refl, sym, ap, ◌∙◌, Bool, true, false,
  Option, none, List, [], ◌∷◌, ◌++◌, append_assoc, append-nil, arith, leb, length, get_or, set,
  replicate, All, Bool-cases, length-append, length-set, set-append_right, take_all, All-append,
  All-set, All-get_or,
}
use aot_headless_client.Base.Bytes.{
  IsByte, put_bit, bits_of, bits_of-append, bits_of-set, put_bit-IsByte,
}
use aot_headless_client.BitStream.{BitStream, M, new, open_on, ensure_byte, get_bytes, write_flag}
use aot_headless_client.BitStream.View.{upcoming, skip, with_strings, emit, Reads, Writes}

-- The zeros that fill the last of `n` bytes up behind `w` bits.
abbrev pub padding : ℕ → ℕ → List Bool
padding n w = replicate (8 * n - w) false

pub record IsAppended (w : List Bool) (s : BitStream) : Type 0 where
  pub cursor : s.bit_num ≡ length w
  pub bytes : All IsByte s.buf
  pub sized : length s.buf ≡ (length w + 7) / 8
  pub content : bits_of s.buf ≡ w ++ padding (length s.buf) (length w)

-- The buffer that `write_flag` writes into: one more bit has room.
record HasRoom (w : List Bool) (buf : List ℕ) : Type 0 where
  bytes : All IsByte buf
  sized : length buf ≡ (length w + 8) / 8
  content : bits_of buf ≡ w ++ (false ∷ padding (length buf) (length w + 1))

pad_cons : (n w : ℕ) → w < 8 * n → padding n w ≡ false ∷ padding n (w + 1)
pad_cons n w h =
    let e : 8 * n - w ≡ suc (8 * n - (w + 1)) = omega arith in ap (λ k. replicate k false) e

ensure_byte-HasRoom :
    (w : List Bool) (s : BitStream) → IsAppended w s → HasRoom w (ensure_byte (s.bit_num / 8) s.buf)
unfolding ensure_byte bits_of
ensure_byte-HasRoom w s v = elim (Bool-cases (leb (length s.buf) (s.bit_num / 8))) [
  | inl full ↦ grown (ground arith) full
  | inr room ↦ rw room (record {
    bytes = v.bytes;
    sized = ground arith;
    content = v.content ∙ ap (λ t. w ++ t) (pad_cons (length s.buf) (length w) (ground arith));
  })
]
  where
    grown :
        8 * length s.buf ≡ length w
        → leb (length s.buf) (s.bit_num / 8) ≡ true
        → HasRoom w (ensure_byte (s.bit_num / 8) s.buf)
    grown e full =
        let one : s.bit_num / 8 + 1 - length s.buf ≡ 1 = omega (arith, v.cursor) in
        let len : length (s.buf ++ (0 ∷ [])) ≡ length s.buf + 1 = length-append s.buf (0 ∷ []) in
        let pad : 8 * length (s.buf ++ (0 ∷ [])) - (length w + 1) ≡ 7 = omega (arith, len) in
        let none_left : 8 * length s.buf - length w ≡ 0 = omega arith in
        rw (full, one)
          (record {
            bytes = All-append IsByte s.buf (0 ∷ []) v.bytes (omega arith, tt);
            sized = omega (arith, len);
            content =
                bits_of-append s.buf (0 ∷ [])
                ∙ ap (λ t. t ++ bits_of (0 ∷ []))
                    (v.content ∙ ap (λ k. w ++ replicate k false) none_left ∙ append-nil w)
                ∙ ap (λ k. w ++ (false ∷ replicate k false)) (sym pad);
          })

-- One more flag is one more bit.
pub write_flag-IsAppended :
    (w : List Bool) (b : Bool) (s : BitStream)
    → IsAppended w s
    → IsAppended (w ++ (b ∷ [])) (write_flag b s).1
unfolding write_flag
write_flag-IsAppended w b s v =
    let i = s.bit_num / 8 in
    let k = s.bit_num % 8 in
    let buf = ensure_byte i s.buf in
    let room = ensure_byte-HasRoom w s v in
    let byte : IsByte (get_or buf i 0) = All-get_or IsByte buf i 0 (omega arith) room.bytes in
    let len = length-append w (b ∷ []) in
    let kept = length-set buf i (put_bit (get_or buf i 0) k b) in
    record {
      cursor = omega (arith, v.cursor, len);
      bytes =
          All-set IsByte buf i _ (put_bit-IsByte (get_or buf i 0) k b byte (omega arith))
            room.bytes;
      sized = omega (arith, kept, room.sized, len);
      content =
          bits_of-set buf i k b room.bytes (omega (arith, room.sized, v.cursor)) (omega arith)
          ∙ ap (λ t. set t (8 * i + k) b) room.content
          ∙ set-append_right w _ (8 * i + k) 0 b (omega (arith, v.cursor))
          ∙ sym (append_assoc w (b ∷ []) (padding (length buf) (length w + 1)))
          ∙ ap (λ t. (w ++ (b ∷ [])) ++ t) (ap (λ n. replicate n false) (omega (arith, kept, len)));
    }

pub emit-IsAppended :
    (w bs : List Bool) (s : BitStream) → IsAppended w s → IsAppended (w ++ bs) (emit bs s)
unfolding emit
emit-IsAppended w [] s v = rw (append-nil w) v
emit-IsAppended w (b ∷ bs) s v =
    rw (sym (append_assoc w (b ∷ []) bs))
      (emit-IsAppended (w ++ (b ∷ [])) bs (write_flag b s).1 (write_flag-IsAppended w b s v))

pub new-IsAppended : IsAppended [] new
unfolding new bits_of
new-IsAppended = record { cursor = refl; bytes = tt; sized = refl; content = refl }

-- A receiver's stream starts with the bits that were written, and at most seven zeros follow.
pub upcoming-open_on :
    (w : List Bool) (s : BitStream)
    → IsAppended w s
    → upcoming (open_on (get_bytes s)) ≡ w ++ padding (length s.buf) (length w)
unfolding open_on get_bytes
upcoming-open_on w s v =
    ap bits_of (take_all ((s.bit_num + 7) / 8) s.buf (omega (arith, v.sized, v.cursor))) ∙ v.content

-- What a writer puts on a fresh stream, a reader that takes the same bits gets back from the datagram:
-- the value, with the cursor behind the bits and no error.
pub transmit :
    {A B : Type 0} {m : M A} {r : M B} {bs : List Bool} {v : A} {w : B} {sb sb' : Option (List ℕ)}
    → Writes none m bs v sb
    → Reads none r bs w sb'
    → ((r (open_on (get_bytes (m new).1))).0 ≡ w)
      × ((r (open_on (get_bytes (m new).1))).1.bit_num ≡ length bs)
      × ((r (open_on (get_bytes (m new).1))).1.error ≡ false)
unfolding open_on get_bytes new
transmit {m = m} {r = r} {bs = bs} {v = v} {w = w} {sb = sb} {sb' = sb'} x y =
    (ap (λ p. p.0) got, ap (λ p. p.1.bit_num) got ∙ omega arith, ap (λ p. p.1.error) got)
  where
    sent : get_bytes (m new).1 ≡ get_bytes (emit bs new)
    sent = ap (λ p. get_bytes p.1) (x.run new refl)

    got :
        r (open_on (get_bytes (m new).1))
        ≡ (w, with_strings sb' (skip (length bs) (open_on (get_bytes (m new).1))))
    got = y.run (open_on (get_bytes (m new).1)) _ refl (
        ap (λ b. upcoming (open_on b)) sent
        ∙ upcoming-open_on bs (emit bs new) (emit-IsAppended [] bs new new-IsAppended))
