-- ===== src/Payload/Wire/Writes.antt =====
-- What an encoding method does when it succeeds: the bytes it appends, the memory it charges to the
-- mirrored decoder, and what its tests have established. One rule for each way to build a method.
use latticedb_go.Base.{
  ℕ, zero, suc, ◌+◌, ◌-◌, ◌*◌, ◌≤◌, ◌<◌, ◌^◌, ◌≡◌, ◌≢◌, refl, sym, ap, ◌∙◌, Bool, true, false, [],
  ◌∷◌, ◌++◌, append_assoc, append-nil, arith, length, Error, Result, ok, ◌>>=◌, ◌>>◌, >>=-eq-ok,
  refuse,
}
use latticedb_go.Base.Int.{ℤ}
use latticedb_go.Payload.Values.{Bytes}
use latticedb_go.Payload.Varint.{put_uvarint, zigzag}
use latticedb_go.Payload.Encoder.{Encoder, multiply_saturated, admit_decoded, write, u, i, tag, str}
use latticedb_go.Payload.Wire.{wire_str, IsText}
use native.Mathlib.Nat.{le-div_iff_mul-le}

-- From `e` to `e'` the bytes `w` were appended; under a limit, `c` was charged and the limit kept.
pub record Wrote (e e' : Encoder) (w : Bytes) (c : ℕ) : Type 0 where
  pub appended : e'.out ≡ e.out ++ w
  pub same_limit : e'.allocation_limit ≡ e.allocation_limit
  pub charged :
      e.allocation_limit ≢ 0
      → e.allocation_bytes ≤ e.allocation_limit
      → (e'.allocation_bytes ≡ e.allocation_bytes + c) × (e'.allocation_bytes ≤ e.allocation_limit)

pub record Writes (f : Encoder → Result Encoder) (w : Bytes) (c : ℕ) (P : Type 0) : Type 0 where
  pub run : (e e' : Encoder) → f e ≡ ok e' → Wrote e e' w c × P

pub multiply_saturated-eq_mul : (m n : ℕ) → m * n < 2 ^ 64 → multiply_saturated m n ≡ m * n
unfolding multiply_saturated
multiply_saturated-eq_mul zero n h = ground arith
multiply_saturated-eq_mul (suc m) n h =
    ground (
      arith,
      (le-div_iff_mul-le {k = suc m} {x = n} {y = 2 ^ 64 - 1} (omega arith)).1 (omega arith),
    )

Wrote-refl : (e : Encoder) → Wrote e e [] 0
Wrote-refl e = record {
  appended = sym (append-nil e.out);
  same_limit = refl;
  charged = λ h k. (omega arith, k);
}

Wrote-trans :
    (e f g : Encoder) (w x : Bytes) (c d : ℕ)
    → Wrote e f w c
    → Wrote f g x d
    → Wrote e g (w ++ x) (c + d)
Wrote-trans e f g w x c d p q = record {
  appended = q.appended ∙ ap (λ t. t ++ x) p.appended ∙ append_assoc e.out w x;
  same_limit = q.same_limit ∙ p.same_limit;
  charged = λ h k.
      let (p0, p1) = p.charged h k in
      let (q0, q1) = q.charged (λ z. h (sym p.same_limit ∙ z)) (omega (arith, p.same_limit)) in
      (omega arith, omega (arith, p.same_limit));
}

pub Writes-then :
    {f g : Encoder → Result Encoder} {w x : Bytes} {c d : ℕ} {P Q : Type 0}
    → Writes f w c P
    → (P → Writes g x d Q)
    → Writes (λ e. f e >>= g) (w ++ x) (c + d) (P × Q)
Writes-then {f} {g} {w} {x} {c} {d} p q = record {
  run = λ e e' h.
      let (m, hm, hg) = >>=-eq-ok (f e) g h in
      let (wm, pm) = p.run e m hm in
      let (wg, qg) = (q pm).run m e' hg in (Wrote-trans e m e' w x c d wm wg, (pm, qg));
}

pub Writes-guard :
    {f : Encoder → Result Encoder} {w : Bytes} {c : ℕ} {P : Type 0} (b : Bool) (x : Error)
    → (b ≡ false → Writes f w c P)
    → Writes (λ e. refuse b x >> f e) w c P
Writes-guard true x p = record { run = λ e e' h. cc }
Writes-guard false x p = p refl

pub Writes-map :
    {f : Encoder → Result Encoder} {w w' : Bytes} {c c' : ℕ} {P Q : Type 0}
    → Writes f w c P
    → w ≡ w'
    → c ≡ c'
    → (P → Q)
    → Writes f w' c' Q
Writes-map {f} {w} {w'} {c} {c'} p ew ec k = record {
  run = λ e e' h.
      let (wr, pr) = p.run e e' h in
      (
        record {
          appended = wr.appended ∙ ap (λ t. e.out ++ t) ew;
          same_limit = wr.same_limit;
          charged =
              λ n l. let (x, y) = wr.charged n l in (x ∙ ap (λ t. e.allocation_bytes + t) ec, y);
        },
        k pr,
      );
}

pub Writes-ok : Writes ok [] 0 (Unit {0})
Writes-ok = record {
  run = λ e e' h. (
    record {
      appended = ground (arith, append-nil e.out);
      same_limit = ground arith;
      charged = λ n l. ground arith;
    },
    tt,
  );
}

pub write-Writes : (bs : Bytes) → Writes (write bs) bs 0 (Unit {0})
unfolding write
write-Writes bs = record {
  run = λ e e' h. (
    record { appended = ground arith; same_limit = ground arith; charged = λ n l. ground arith },
    tt,
  );
}

pub admit_decoded-Writes :
    (count size : ℕ)
    → count * size < 2 ^ 64
    → Writes (admit_decoded count size) [] (count * size) (Unit {0})
unfolding admit_decoded
admit_decoded-Writes count size small = record {
  run = λ e e' h. (
    record {
      appended = ground (arith, append-nil e.out);
      same_limit = ground arith;
      charged = λ n l. ground (arith, multiply_saturated-eq_mul count size small);
    },
    tt,
  );
}

pub u-Writes : (n : ℕ) → Writes (u n) (put_uvarint n) 0 (Unit {0})
unfolding u
u-Writes n = write-Writes (put_uvarint n)

pub i-Writes : (z : ℤ) → Writes (i z) (put_uvarint (zigzag z)) 0 (Unit {0})
unfolding i
i-Writes z = write-Writes (put_uvarint (zigzag z))

pub tag-Writes : (t : ℕ) → Writes (tag t) (t ∷ []) 0 (Unit {0})
unfolding tag
tag-Writes t = write-Writes (t ∷ [])

pub str-Writes : (s : Bytes) → IsText s → Writes (str s) (wire_str s) (length s * 2) (Unit {0})
unfolding str
str-Writes s h =
    Writes-map
      (Writes-then (admit_decoded-Writes (length s) 2 (omega arith))
        (λ _. Writes-then (u-Writes (length s)) (λ _. write-Writes s)))
      refl (omega arith) (λ _. tt)
