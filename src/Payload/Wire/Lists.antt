-- ===== src/Payload/Wire/Lists.antt =====
-- Collections of elements that are each read and written on their own.
use latticedb_go.Base.{
  ℕ, ◌+◌, ◌*◌, ◌≤◌, ◌<◌, refl, none, some, List, [], ◌∷◌, ◌++◌, append_assoc, arith, length,
  length-append, All, Result, ◌>>=◌,
}
use latticedb_go.Payload.Values.{Bytes}
use latticedb_go.Payload.Varint.{put_uvarint}
use latticedb_go.Payload.Encoder.{Encoder, write_all}
use latticedb_go.Payload.Decoder.{Decode, read_all, sized, decode_length}
use latticedb_go.Payload.Wire.{max_length}
use latticedb_go.Payload.Wire.Primitives.{Reads, decode_length-none, decode_length-some}
use latticedb_go.Payload.Wire.Collections.{free}
use latticedb_go.Payload.Wire.Writes.{Writes, Writes-then, Writes-map, Writes-ok}

module _ {ℓ} {A : Type ℓ} where
  abbrev pub concat : (A → Bytes) → List A → Bytes
  concat w [] = []
  concat w (x ∷ xs) = w x ++ concat w xs

  abbrev pub total : (A → ℕ) → List A → ℕ
  total c [] = 0
  total c (x ∷ xs) = c x + total c xs

  pub length-concat :
      (w : A → Bytes) (xs : List A)
      → ((x : A) → 1 ≤ length (w x))
      → length xs ≤ length (concat w xs)
  length-concat w [] h = omega arith
  length-concat w (x ∷ xs) h =
      omega (arith, length-append (w x) (concat w xs), h x, length-concat w xs h)

  pub read_all-Reads :
      (f : Decode A) (w : A → Bytes) (c : A → ℕ) (xs : List A)
      → All (λ x. Reads f (w x) (c x) x) xs
      → Reads (read_all (length xs) f) (concat w xs) (total c xs) xs
  unfolding read_all
  read_all-Reads f w c [] h rest a b e = free [] rest a b e
  read_all-Reads f w c (x ∷ xs) (hx, hs) rest a b e = rw (
    append_assoc (w x) (concat w xs) rest,
    hx (concat w xs ++ rest) a (total c xs + b) (omega (arith, e)),
    read_all-Reads f w c xs hs rest (total c xs + b) b refl,
  )

  -- The length, then the elements; `f` decodes the length and continues.
  pub sized-Reads :
      (size : ℕ) (f : Decode A) (w : A → Bytes) (c : A → ℕ) (xs : List A)
      → 0 < size
      → length xs < max_length
      → ((x : A) → 1 ≤ length (w x))
      → All (λ x. Reads f (w x) (c x) x) xs
      → Reads
          (λ d. decode_length size d >>= λ (n, d). sized n f d)
          (put_uvarint (length xs + 1) ++ concat w xs)
          (length xs * size + total c xs)
          (some xs)
  unfolding sized
  sized-Reads size f w c xs hs hl hw h rest a b e = rw (
    append_assoc (put_uvarint (length xs + 1)) (concat w xs) rest,
    decode_length-some size (length xs) (concat w xs ++ rest) a (total c xs + b) hs hl
        (omega (arith, length-append (concat w xs) rest, length-concat w xs hw)) (omega (arith, e)),
    read_all-Reads f w c xs h rest (total c xs + b) b refl,
  )

  pub sized_nil-Reads :
      (size : ℕ) (f : Decode A)
      → Reads (λ d. decode_length size d >>= λ (n, d). sized n f d) (put_uvarint 0) 0 none
  unfolding sized
  sized_nil-Reads size f rest a b e = rw (decode_length-none size rest a) (free none rest a b e)

  pub write_all-Writes :
      (f : A → Encoder → Result Encoder) (w : A → Bytes) (c : A → ℕ) (xs : List A)
      → All (λ x. Writes (f x) (w x) (c x) (Unit {0})) xs
      → Writes (write_all f xs) (concat w xs) (total c xs) (Unit {0})
  unfolding write_all
  write_all-Writes f w c [] h = Writes-ok
  write_all-Writes f w c (x ∷ xs) (hx, hs) =
      Writes-map (Writes-then hx (λ _. write_all-Writes f w c xs hs)) refl refl (λ _. tt)
