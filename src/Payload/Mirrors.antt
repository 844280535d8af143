-- ===== src/Payload/Mirrors.antt =====
-- Encoding and decoding methods that mirror each other, and how they are put in sequence.
use latticedb_go.Base.{
  All, ap, subst, map, ℕ, ◌+◌, ◌*◌, ◌≤◌, ◌<◌, ◌≡◌, refl, ◌∙◌, List, [], ◌∷◌, ◌++◌, append_assoc,
  arith, length, length-append, Result, ok, ◌>>=◌, Option, none, some,
}
use latticedb_go.Base.Int.{IsU64}
use latticedb_go.Payload.Values.{Bytes}
use latticedb_go.Payload.Varint.{put_uvarint}
use latticedb_go.Payload.Encoder
use latticedb_go.Payload.Encoder.{Encoder, write_all}
use latticedb_go.Payload.Decoder
use latticedb_go.Payload.Decoder.{Decoder, Decode, read_all, sized, decode_length}
use latticedb_go.Payload.Wire.{wire_str, IsText, max_length}
use latticedb_go.Payload.Wire.Paid.{Paid, Paid-append, Paid-uvarint, Paid-str, Paid-sized}
use latticedb_go.Payload.Wire.Primitives.{
  at_bytes, Reads, u_front, str_front, read_byte_front, decode_length-none, decode_length-some,
}
use latticedb_go.Payload.Wire.Writes.{
  Writes, Writes-then, Writes-map, Writes-ok, u-Writes, str-Writes, tag-Writes,
}
use native.Mathlib.Nat.{mul-le-mul_left}

-- Whatever `enc` writes, `dec` reads back as `x`, within the memory that `enc` charged.
pub record Mirrors (enc : Encoder → Result Encoder) {A : Type 0} (dec : Decode A) (x : A)
    : Type 1 where
  pub wire : Bytes
  pub cost : ℕ
  pub Passed : Type 0
  pub writes : Writes enc wire cost Passed
  pub reads : Passed → Reads dec wire cost x

-- The same with two totals: `charge` is the encoder's, `cost` what the decoder needs.
pub record Runs (enc : Encoder → Result Encoder) {A : Type 0} (dec : Decode A) (x : A)
    : Type 1 where
  pub wire : Bytes
  pub charge : ℕ
  pub cost : ℕ
  pub Passed : Type 0
  pub writes : Writes enc wire charge Passed
  pub reads : Passed → Reads dec wire cost x

-- A part that is never empty, and whose decoding is charged in proportion to its bytes.
pub record Restores (enc : Encoder → Result Encoder) {A : Type 0} (dec : Decode A) (x : A)
    : Type 1 where
  pub part : Runs enc dec x
  pub paid : part.Passed → Paid part.cost part.wire

unfoldable pub Mirrors-Restores :
    {enc : Encoder → Result Encoder} {A : Type 0} {dec : Decode A} {x : A} (m : Mirrors enc dec x)
    → (m.Passed → Paid m.cost m.wire)
    → Restores enc dec x
Mirrors-Restores m paid = record {
  part = record {
    wire = m.wire;
    charge = m.cost;
    cost = m.cost;
    Passed = m.Passed;
    writes = m.writes;
    reads = m.reads;
  };
  paid = paid;
}

pub Reads-bind {ℓ κ} :
    {A : Type ℓ} {B : Type κ} (f : Decode A) (k : A × Decoder → Result (B × Decoder)) (w w' : Bytes)
    (c c' : ℕ) {x : A} {y : B}
    → Reads f w c x
    → Reads (λ d. k (x, d)) w' c' y
    → Reads (λ d. f d >>= k) (w ++ w') (c + c') y
Reads-bind f k w w' c c' first next rest a b e = rw (
  append_assoc w w' rest,
  first (w' ++ rest) a (c' + b) (omega (arith, e)),
  next rest (c' + b) b refl,
)

pub Reads-ok {ℓ} : {A : Type ℓ} (x : A) → Reads (λ d. ok (x, d)) [] 0 x
Reads-ok x rest a b e = rw (let same : a ≡ b = omega (arith, e) in same)

-- One method after another.
unfoldable Runs-bind :
    {f g : Encoder → Result Encoder} {A B : Type 0} {dec : Decode A}
    (k : A × Decoder → Result (B × Decoder)) {x : A} {y : B}
    → Runs f dec x
    → Runs g (λ d. k (x, d)) y
    → Runs (λ e. f e >>= g) (λ d. dec d >>= k) y
Runs-bind {dec} k {x} m n = record {
  wire = m.wire ++ n.wire;
  charge = m.charge + n.charge;
  cost = m.cost + n.cost;
  Passed = m.Passed × n.Passed;
  writes = Writes-then m.writes (λ _. n.writes);
  reads = λ (p, q). Reads-bind dec k m.wire n.wire m.cost n.cost (m.reads p) (n.reads q);
}

-- The last method, and the value that is built behind it.
unfoldable Runs-last :
    {f : Encoder → Result Encoder} {A B : Type 0} {dec : Decode A}
    (k : A × Decoder → Result (B × Decoder)) {x : A} (y : B)
    → Runs f dec x
    → ((d : Decoder) → k (x, d) ≡ ok (y, d))
    → Runs f (λ d. dec d >>= k) y
Runs-last {dec} k {x} y m ends = record {
  wire = m.wire;
  charge = m.charge;
  cost = m.cost;
  Passed = m.Passed;
  writes = m.writes;
  reads = λ p rest a b e. rw (m.reads p rest a b e, ends (at_bytes rest b));
}

pub Restores-bind :
    {f g : Encoder → Result Encoder} {A B : Type 0} {dec : Decode A}
    (k : A × Decoder → Result (B × Decoder)) {x : A} {y : B}
    → Restores f dec x
    → Restores g (λ d. k (x, d)) y
    → Restores (λ e. f e >>= g) (λ d. dec d >>= k) y
unfolding Runs-bind
Restores-bind k m n = record {
  part = Runs-bind k m.part n.part;
  paid =
      λ (p, q). Paid-append m.part.cost n.part.cost m.part.wire n.part.wire (m.paid p) (n.paid q);
}

pub Restores-last :
    {f : Encoder → Result Encoder} {A B : Type 0} {dec : Decode A}
    (k : A × Decoder → Result (B × Decoder)) {x : A} (y : B)
    → Restores f dec x
    → ((d : Decoder) → k (x, d) ≡ ok (y, d))
    → Restores f (λ d. dec d >>= k) y
unfolding Runs-last
Restores-last k y m ends = record { part = Runs-last k y m.part ends; paid = m.paid }

pub u-Restores : (n : ℕ) → IsU64 n → Restores (Encoder.u n) Decoder.u n
u-Restores n h = record {
  part = record {
    wire = put_uvarint n;
    charge = 0;
    cost = 0;
    Passed = Unit {0};
    writes = u-Writes n;
    reads = λ _ rest a b e. u_front n rest a h ∙ Reads-ok n rest a b e;
  };
  paid = λ _. Paid-uvarint n;
}

pub str-Restores : (s : Bytes) → IsText s → Restores (Encoder.str s) Decoder.str s
str-Restores s h = record {
  part = record {
    wire = wire_str s;
    charge = length s * 2;
    cost = length s * 2;
    Passed = Unit {0};
    writes = str-Writes s h;
    reads = λ _. str_front s h;
  };
  paid = λ _. Paid-str s;
}

pub tag-Restores : (t : ℕ) → Restores (Encoder.tag t) Decoder.read_byte t
tag-Restores t = record {
  part = record {
    wire = t ∷ [];
    charge = 0;
    cost = 0;
    Passed = Unit {0};
    writes = tag-Writes t;
    reads = λ _ rest a b e. read_byte_front t rest a ∙ Reads-ok t rest a b e;
  };
  paid = λ _. omega arith;
}

abbrev pub AllOption : {A : Type 0} → (A → Type 0) → Option (List A) → Type 0
AllOption P none = Unit {0}
AllOption P (some xs) = (length xs < max_length) × All P xs

abbrev pub map_slice : {A : Type 0} → (A → A) → Option (List A) → Option (List A)
map_slice f none = none
map_slice f (some xs) = some (map f xs)

module _ {A : Type 0} (enc : A → Encoder → Result Encoder) (dec : Decode A) (canon : A → A)
    (P : A → Type 0) (element : (x : A) → P x → Restores (enc x) dec (canon x)) where
  All-Runs :
      (xs : List A)
      → All P xs
      → (m : Runs (write_all enc xs) (read_all (length xs) dec) (map canon xs)) × (m.Passed
          → m.cost + length xs * 208 ≤ 208 * length m.wire)
  unfolding write_all read_all Runs-bind Runs-last
  All-Runs [] h = (
    record {
      wire = [];
      charge = 0;
      cost = 0;
      Passed = Unit {0};
      writes = Writes-ok;
      reads = λ _. Reads-ok [];
    },
    λ _. omega arith,
  )
  All-Runs (x ∷ xs) (hx, hs) =
      let m = element x hx in
      let (ms, paid) = All-Runs xs hs in
      (
        Runs-bind _ m.part (Runs-last _ (canon x ∷ map canon xs) ms (λ d. refl)),
        λ (p, q). omega (arith, length-append m.part.wire ms.wire, m.paid p, paid q),
      )

  pub slice-Restores :
      (size : ℕ) (xs : Option (List A))
      → 0 < size
      → size ≤ 208
      → AllOption P xs
      → Restores
          (Encoder.encode_binary_slice enc xs)
          (Decoder.decode_binary_slice size dec)
          (map_slice canon xs)
  unfolding Encoder.encode_binary_slice Decoder.decode_binary_slice sized
  slice-Restores size none hs hm h = record {
    part = record {
      wire = put_uvarint 0;
      charge = 0;
      cost = 0;
      Passed = Unit {0};
      writes = u-Writes 0;
      reads = λ _ rest a b e. rw (decode_length-none size rest a) (Reads-ok none rest a b e);
    };
    paid = λ _. Paid-uvarint 0;
  }
  slice-Restores size (some xs) hs hm (hl, h) =
      let (m, paid) = All-Runs xs h in
      record {
        part = record {
          wire = put_uvarint (length xs + 1) ++ m.wire;
          charge = m.charge;
          cost = length xs * size + m.cost;
          Passed = m.Passed;
          writes =
              Writes-map (Writes-then (u-Writes (length xs + 1)) (λ _. m.writes)) refl (omega arith)
                (λ r. r.1);
          reads = λ p rest a b e. rw (
            append_assoc (put_uvarint (length xs + 1)) m.wire rest,
            decode_length-some size (length xs) (m.wire ++ rest) a (m.cost + b) hs hl
                (omega (arith, length-append m.wire rest, paid p)) (omega (arith, e)),
            m.reads p rest (m.cost + b) b refl,
          );
        };
        paid = λ p.
            Paid-sized (length xs + 1) (length xs * size + m.cost) m.wire
              (omega (arith, paid p, mul-le-mul_left (length xs) hm));
      }

map_self : {A : Type 0} → (xs : List A) → map (λ x. x) xs ≡ xs
map_self [] = refl
map_self (x ∷ xs) = ap (λ t. x ∷ t) (map_self xs)

map_slice_self : {A : Type 0} → (xs : Option (List A)) → map_slice (λ x. x) xs ≡ xs
map_slice_self none = refl
map_slice_self (some xs) = ap some (map_self xs)

-- Elements that come back as they are.
pub same-Restores :
    {A : Type 0} (enc : A → Encoder → Result Encoder) (dec : Decode A) (P : A → Type 0)
    → ((x : A) → P x → Restores (enc x) dec x)
    → (size : ℕ) (xs : Option (List A)) → 0 < size
    → size ≤ 208
    → AllOption P xs
    → Restores (Encoder.encode_binary_slice enc xs) (Decoder.decode_binary_slice size dec) xs
same-Restores enc dec P element size xs hs hm h =
    subst
      (λ t. Restores (Encoder.encode_binary_slice enc xs) (Decoder.decode_binary_slice size dec) t)
      (map_slice_self xs) (slice-Restores enc dec (λ x. x) P element size xs hs hm h)
