-- ===== src/BitStream/Chunks.antt =====
-- `write_bits`, `read_bits` and the raw bytes against the bit view.
use aot_headless_client.Base.{
  ℕ, zero, suc, ◌+◌, ◌-◌, ◌*◌, ◌/◌, ◌%◌, ◌<◌, ◌≡◌, refl, sym, ap, ap₂, ◌∙◌, Bool, true, false,
  Option, List, [], ◌∷◌, ◌++◌, append_assoc, append-nil, arith, if◌then◌else◌, length, get_or, set,
  replicate, All, drop, length-append, set-append_right, All-set, All-get_or, drop_head,
}
use mathlib.Core.Path.{subst}
use aot_headless_client.Base.Bytes.{
  IsByte, put_bit, bits_of, length-bits_of, bits_of-set, put_bit-IsByte, get_or-bits_of,
}
use aot_headless_client.Base.Values.{bits_of-injective}
use aot_headless_client.BitStream.{
  BitStream, write_flag, data_bit, write_bits_loop, write_bits, read_bits_loop, read_bits,
  write_bytes, read_bytes,
}
use aot_headless_client.BitStream.View.{
  upcoming, skip, emit, upcoming-skip, Reads, Writes, Writes-emit, Reads-skip,
}
use aot_headless_client.BitStream.Flags.{read_flag_in}

-- The bits that `write_bits` takes from its argument, from bit `i` on.
abbrev pub bit_run : ℕ → ℕ → List ℕ → List Bool
bit_run zero i bytes = []
bit_run (suc left) i bytes = data_bit bytes i ∷ bit_run left (i + 1) bytes

write_bits_loop-emit :
    (left i : ℕ) (bytes : List ℕ) (s : BitStream)
    → write_bits_loop left i bytes s ≡ (tt, emit (bit_run left i bytes) s)
unfolding write_bits_loop emit
write_bits_loop-emit zero i bytes s = refl
write_bits_loop-emit (suc left) i bytes s =
    write_bits_loop-emit left (i + 1) bytes (write_flag (data_bit bytes i) s).1

pub Writes-bits :
    (sb : Option (List ℕ)) (n : ℕ) (bytes : List ℕ)
    → Writes sb (write_bits n bytes) (bit_run n 0 bytes) tt sb
unfolding write_bits
Writes-bits sb n bytes =
    Writes-emit sb (write_bits n bytes) (bit_run n 0 bytes) tt (write_bits_loop-emit n 0 bytes)

-- Where the bits of the argument continue as `bs`, those are what is written.
bit_run-drop :
    (bs more : List Bool) (i : ℕ) (bytes : List ℕ)
    → drop i (bits_of bytes) ≡ bs ++ more
    → bit_run (length bs) i bytes ≡ bs
bit_run-drop [] more i bytes e = refl
bit_run-drop (b ∷ bs) more i bytes e =
    let (inside, found, after) = drop_head i (bits_of bytes) b (bs ++ more) false e in
    ap₂ ◌∷◌ (sym (get_or-bits_of bytes i) ∙ found) (bit_run-drop bs more (i + 1) bytes after)

-- `write_bytes` emits the bits of its argument.
pub Writes-bytes :
    (sb : Option (List ℕ)) (bytes : List ℕ) → Writes sb (write_bytes bytes) (bits_of bytes) tt sb
unfolding write_bytes
Writes-bytes sb bytes =
    let len : length (bits_of bytes) ≡ length bytes * 8 = omega (arith, length-bits_of bytes) in
    let same : bit_run (length bytes * 8) 0 bytes ≡ bits_of bytes =
      ap (λ n. bit_run n 0 bytes) (sym len)
      ∙ bit_run-drop (bits_of bytes) [] 0 bytes (sym (append-nil (bits_of bytes))) in
    subst (λ t. Writes sb (write_bits (length bytes * 8) bytes) t tt sb) same
      (Writes-bits sb (length bytes * 8) bytes)

-- What `read_bits` does to its byte array when the stream holds `bs`.
abbrev store : ℕ → List ℕ → Bool → List ℕ
store i out b = if b then set out (i / 8) (put_bit (get_or out (i / 8) 0) (i % 8) true) else out

fill : ℕ → List ℕ → List Bool → List ℕ
fill i out [] = out
fill i out (b ∷ bs) = fill (i + 1) (store i out b) bs

read_bits_loop-fill :
    (bs : List Bool) (i : ℕ) (out : List ℕ) (s : BitStream) (rest : List Bool)
    → upcoming s ≡ bs ++ rest
    → read_bits_loop (length bs) i out s ≡ (fill i out bs, skip (length bs) s)
unfolding read_bits_loop fill
read_bits_loop-fill [] i out s rest u = ap (λ n. (out, record s { bit_num = n })) (omega arith)
read_bits_loop-fill (b ∷ bs) i out s rest u =
    ap (λ p. read_bits_loop (length bs) (i + 1) (store i out p.0) p.1)
      (read_flag_in s b (bs ++ rest) u)
    ∙ read_bits_loop-fill bs (i + 1) (store i out b) (skip 1 s) rest
        (upcoming-skip s (b ∷ []) (bs ++ rest) u)
    ∙ ap (λ n. (fill (i + 1) (store i out b) bs, record s { bit_num = n })) (omega arith)

-- The bytes `out` hold the bits `seen`, then `k` zeros.
record Holds (seen : List Bool) (k : ℕ) (out : List ℕ) : Type 0 where
  bytes : All IsByte out
  content : bits_of out ≡ seen ++ replicate k false

store-Holds :
    (b : Bool) (seen : List Bool) (k i : ℕ) (out : List ℕ)
    → i ≡ length seen
    → Holds seen (suc k) out
    → Holds (seen ++ (b ∷ [])) k (store i out b)
store-Holds false seen k i out e h = record {
  bytes = h.bytes;
  content = h.content ∙ sym (append_assoc seen (false ∷ []) (replicate k false));
}
store-Holds true seen k i out e h =
    let byte : IsByte (get_or out (i / 8) 0) =
      All-get_or IsByte out (i / 8) 0 (omega arith) h.bytes in
    let inside : i / 8 < length out = omega (
      arith,
      length-bits_of out,
      ap length h.content,
      length-append seen (replicate (suc k) false),
    ) in
    record {
      bytes =
          All-set IsByte out (i / 8) _
            (put_bit-IsByte (get_or out (i / 8) 0) (i % 8) true byte (omega arith)) h.bytes;
      content =
          bits_of-set out (i / 8) (i % 8) true h.bytes inside (omega arith)
          ∙ ap (λ t. set t (8 * (i / 8) + i % 8) true) h.content
          ∙ set-append_right seen (replicate (suc k) false) (8 * (i / 8) + i % 8) 0 true
              (omega arith)
          ∙ sym (append_assoc seen (true ∷ []) (replicate k false));
    }

fill-Holds :
    (bs seen : List Bool) (k i : ℕ) (out : List ℕ)
    → i ≡ length seen
    → Holds seen (length bs + k) out
    → Holds (seen ++ bs) k (fill i out bs)
unfolding fill
fill-Holds [] seen k i out e h =
    let z : 0 + k ≡ k = omega arith in rw (append-nil seen) (subst (λ n. Holds seen n out) z h)
fill-Holds (b ∷ bs) seen k i out e h =
    let z : suc (length bs) + k ≡ suc (length bs + k) = omega arith in
    subst (λ t. Holds t k (fill (i + 1) (store i out b) bs)) (append_assoc seen (b ∷ []) bs)
      (fill-Holds bs (seen ++ (b ∷ [])) k (i + 1) (store i out b)
        (omega (arith, length-append seen (b ∷ [])))
        (store-Holds b seen (length bs + k) i out e (subst (λ n. Holds seen n out) z h)))

bits_of-zeros : (n : ℕ) → bits_of (replicate n 0) ≡ replicate (8 * n) false
unfolding bits_of
bits_of-zeros zero = refl
bits_of-zeros (suc n) =
    let e : 8 * suc n ≡ suc (suc (suc (suc (suc (suc (suc (suc (8 * n)))))))) = omega arith in
    rw e (
      ap (λ t. false ∷ false ∷ false ∷ false ∷ false ∷ false ∷ false ∷ false ∷ t) (bits_of-zeros n))

zeros-IsByte : (n : ℕ) → All IsByte (replicate n 0)
zeros-IsByte zero = tt
zeros-IsByte (suc n) = (omega arith, zeros-IsByte n)

-- The bytes that `read_bits` returns for the bits `bs`.
pub packed : List Bool → List ℕ
packed bs = fill 0 (replicate ((length bs + 7) / 8) 0) bs

packed-Holds : (bs : List Bool) → Holds bs (8 * ((length bs + 7) / 8) - length bs) (packed bs)
unfolding packed
packed-Holds bs =
    let n = (length bs + 7) / 8 in
    let e : 8 * n ≡ length bs + (8 * n - length bs) = omega arith in
    fill-Holds bs [] (8 * n - length bs) 0 (replicate n 0) refl
      (record { bytes = zeros-IsByte n; content = bits_of-zeros n ∙ ap (λ k. replicate k false) e })

pub packed-IsByte : (bs : List Bool) → All IsByte (packed bs)
packed-IsByte bs = (packed-Holds bs).bytes

-- They hold those bits, and zeros up to the end of the last byte.
pub bits_of-packed :
    (bs : List Bool)
    → bits_of (packed bs) ≡ bs ++ replicate (8 * ((length bs + 7) / 8) - length bs) false
bits_of-packed bs = (packed-Holds bs).content

pub Reads-bits :
    (sb : Option (List ℕ)) (bs : List Bool) → Reads sb (read_bits (length bs)) bs (packed bs) sb
unfolding read_bits packed
Reads-bits sb bs =
    Reads-skip sb (read_bits (length bs)) bs (packed bs)
      (λ s rest u. read_bits_loop-fill bs 0 (replicate ((length bs + 7) / 8) 0) s rest u)

packed-bits_of : (bytes : List ℕ) → All IsByte bytes → packed (bits_of bytes) ≡ bytes
packed-bits_of bytes h =
    let full : 8 * ((length (bits_of bytes) + 7) / 8) - length (bits_of bytes) ≡ 0 =
      omega (arith, length-bits_of bytes) in
    bits_of-injective (packed (bits_of bytes)) bytes (packed-IsByte (bits_of bytes)) h (
      bits_of-packed (bits_of bytes)
      ∙ ap (λ k. bits_of bytes ++ replicate k false) full
      ∙ append-nil (bits_of bytes))

-- `read_bytes` gets the bytes back whose bits are on the stream.
pub Reads-bytes :
    (sb : Option (List ℕ)) (bytes : List ℕ)
    → All IsByte bytes
    → Reads sb (read_bytes (length bytes)) (bits_of bytes) bytes sb
unfolding read_bytes
Reads-bytes sb bytes h =
    let len : length (bits_of bytes) ≡ length bytes * 8 = omega (arith, length-bits_of bytes) in
    subst (λ v. Reads sb (read_bits (length bytes * 8)) (bits_of bytes) v sb)
      (packed-bits_of bytes h)
      (subst (λ n. Reads sb (read_bits n) (bits_of bytes) (packed (bits_of bytes)) sb) len
        (Reads-bits sb (bits_of bytes)))
