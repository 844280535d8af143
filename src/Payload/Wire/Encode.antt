-- ===== src/Payload/Wire/Encode.antt =====
-- The encoder writes the bytes of the canonical value, charges its cost, and lets only storable
-- values through.
use latticedb_go.Base.{
  ℕ, suc, ◌+◌, ◌*◌, ◌≤◌, ◌<◌, ◌^◌, ◌≡◌, refl, ap, Bool-cases, inl, inr, none, some, List, [], ◌∷◌,
  ◌++◌, arith, length, All, ltb, ltb→le, Result, ◌>>◌, if◌then◌else◌,
}
use latticedb_go.Payload.Values.{
  Bytes, PersistedValue, Items, Fields, empty, null, bool, int, float, string, bytes, vector,
  nil_list, list, nil_map, map, unknown, no_items, item, no_fields, field, count_items,
  count_fields, non_finite32, non_finite64, bytes_less,
}
use latticedb_go.Payload.Varint.{put_uvarint, put_big_endian}
use latticedb_go.Payload.Encoder.{
  Encoder, Action, i, write_all, write_bytes, vector_item, check_depth, insert_entry, sort_entries,
  write_entries, write_properties, value, write_items, actions, properties,
}
use latticedb_go.Payload.Wire.{
  wire, wire_items, wire_fields, wire_floats, cost, cost_items, cost_fields, IsStorable,
  AreStorable, AreStorableFields, Distinct, IsText, IsFloat32, max_length,
}
use latticedb_go.Payload.Wire.Canonical.{
  IsStored, AreStored, AreStoredFields, insert_field, canonical, canonical_items, canonical_fields,
  count_fields-canonical, count_items-canonical, Distinct-canonical,
}
use latticedb_go.Payload.Wire.Writes.{
  Writes, Writes-then, Writes-guard, Writes-map, Writes-ok, write-Writes, admit_decoded-Writes,
  u-Writes, i-Writes, tag-Writes, str-Writes,
}

-- The depth test in front of a method.
pub Writes-check_depth :
    {f : Encoder → Result Encoder} {w : Bytes} {c : ℕ} {P : Type 0} (depth : ℕ)
    → (depth ≤ 65 → Writes f w c P)
    → Writes (λ e. check_depth depth >> f e) w c P
unfolding check_depth
Writes-check_depth depth p = Writes-guard (ltb 65 depth) _ (λ h. p (ltb→le 65 depth h))

pub write_bytes-Writes :
    (b : Bytes)
    → length b < max_length
    → Writes (write_bytes (some b)) (put_uvarint (length b + 1) ++ b) (length b * 1) (Unit {0})
unfolding write_bytes
write_bytes-Writes b h =
    Writes-map
      (Writes-then (admit_decoded-Writes (length b) 1 (omega arith))
        (λ _. Writes-then (u-Writes (length b + 1)) (λ _. write-Writes b)))
      refl (omega arith) (λ _. tt)

pub write_bytes_none-Writes : Writes (write_bytes none) (put_uvarint 0) 0 (Unit {0})
unfolding write_bytes
write_bytes_none-Writes =
    Writes-map (Writes-then (admit_decoded-Writes 0 1 (omega arith)) (λ _. u-Writes 0)) refl
      (omega arith) (λ _. tt)

floats-Writes :
    (fs : List ℕ)
    → All (λ f. f < 2 ^ 32) fs
    → Writes (write_all vector_item fs) (wire_floats fs) 0 (All IsFloat32 fs)
unfolding write_all vector_item
floats-Writes [] h = Writes-ok
floats-Writes (f ∷ fs) (hf, hs) =
    Writes-map
      (Writes-then
        (Writes-guard (non_finite32 f) _
          (λ fin. Writes-map (write-Writes (put_big_endian 4 f)) refl refl (λ _. fin)))
        (λ _. floats-Writes fs hs))
      refl (omega arith) (λ (fin, r). ((hf, fin), r))

-- Entries whose actions write the values of `gs`, in the same order.
abbrev Matches : ℕ → List (Bytes × Action) → Fields → Type 0
Matches d [] no_fields = Unit {0}
Matches d [] (field k v gs) = ⊥
Matches d ((j, a) ∷ acts) no_fields = ⊥
Matches d ((j, a) ∷ acts) (field k v gs) =
    (j ≡ k) × IsText k × Writes (a d) (wire v) (cost v) (IsStorable d v) × Matches d acts gs

insert_entry-Matches :
    (d : ℕ) (k : Bytes) (a : Action) (v : PersistedValue) (acts : List (Bytes × Action))
    (gs : Fields)
    → IsText k
    → Writes (a d) (wire v) (cost v) (IsStorable d v)
    → Matches d acts gs
    → Matches d (insert_entry k a acts) (insert_field k v gs)
unfolding insert_entry insert_field
insert_entry-Matches d k a v [] no_fields t w m = (refl, t, w, tt)
insert_entry-Matches d k a v [] (field j x gs) t w m = absurd m
insert_entry-Matches d k a v ((j, b) ∷ acts) no_fields t w m = absurd m
insert_entry-Matches d k a v ((j, b) ∷ acts) (field i x gs) t w (e, ti, wi, m) =
    elim (Bool-cases (bytes_less i k)) [
      | inl before ↦ rw (e, before) (refl, ti, wi, insert_entry-Matches d k a v acts gs t w m)
      | inr after ↦ rw (e, after) (refl, t, w, (refl, ti, wi, m))
    ]

write_entries-Writes :
    (d : ℕ) (acts : List (Bytes × Action)) (gs : Fields)
    → Matches d acts gs
    → Writes (write_entries acts d) (wire_fields gs) (cost_fields gs) (AreStorableFields d gs)
unfolding write_entries wire cost
write_entries-Writes d [] no_fields m = Writes-ok
write_entries-Writes d [] (field k v gs) m = absurd m
write_entries-Writes d ((k, a) ∷ acts) no_fields m = absurd m
write_entries-Writes d ((j, a) ∷ acts) (field k v gs) (e, t, w, m) = rw e (
    Writes-map
      (Writes-then (str-Writes k t) (λ _. Writes-then w (λ _. write_entries-Writes d acts gs m)))
      refl refl (λ (_, (s, r)). (t, s, r)))

length-insert_entry :
    (k : Bytes) (a : Action) (acts : List (Bytes × Action))
    → length (insert_entry k a acts) ≡ suc (length acts)
unfolding insert_entry
length-insert_entry k a [] = refl
length-insert_entry k a ((j, b) ∷ acts) = ground (arith, length-insert_entry k a acts)

length-actions : (fs : Fields) → length (actions fs) ≡ count_fields fs
unfolding value
length-actions no_fields = refl
length-actions (field k v fs) = ap suc (length-actions fs)

-- The map itself, once its sorted entries match.
write_properties-Writes :
    (d : ℕ) (fs : Fields)
    → count_fields fs < max_length
    → Distinct fs
    → Matches d (sort_entries (actions fs)) (canonical_fields fs)
    → Writes
        (write_properties (some (actions fs)) d)
        (put_uvarint (count_fields (canonical_fields fs) + 1) ++ wire_fields (canonical_fields fs))
        (count_fields (canonical_fields fs) * 208 + cost_fields (canonical_fields fs))
        ((d ≤ 65)
          × (count_fields (canonical_fields fs) < max_length)
          × Distinct (canonical_fields fs)
          × AreStorableFields d (canonical_fields fs))
unfolding write_properties
write_properties-Writes d fs h dist m =
    rw (count_fields-canonical fs, ← length-actions fs)
      (Writes-map
        (Writes-then {Q = (d ≤ 65) × AreStorableFields d (canonical_fields fs)}
          (admit_decoded-Writes (length (actions fs)) 208 (omega (arith, length-actions fs)))
          (λ _. Writes-check_depth d (λ hd.
            Writes-map
              (Writes-then (u-Writes (length (actions fs) + 1))
                (λ _. write_entries-Writes d (sort_entries (actions fs)) (canonical_fields fs) m))
              refl refl (λ r. (hd, r.1)))))
        refl (omega arith)
        (λ r. (r.1.0, omega (arith, length-actions fs), Distinct-canonical fs dist, r.1.1)))

pub write_properties_nil-Writes :
    (d : ℕ) → Writes (write_properties none d) (put_uvarint 0) 0 (d ≤ 65)
unfolding write_properties
write_properties_nil-Writes d =
    Writes-map
      (Writes-then {Q = d ≤ 65} (admit_decoded-Writes 0 208 (omega arith))
        (λ _. Writes-check_depth d (λ hd. Writes-map (u-Writes 0) refl refl (λ _. hd))))
      refl (omega arith) (λ r. r.1)

mutual
  unfolding value canonical wire cost sort_entries

  pub value-Writes :
      (v : PersistedValue) (depth : ℕ)
      → IsStored v
      → Writes
          (value v depth)
          (wire (canonical v))
          (cost (canonical v))
          (IsStorable depth (canonical v))
  value-Writes empty depth s =
      Writes-check_depth depth (λ hd. Writes-map (tag-Writes 0) refl refl (λ _. hd))
  value-Writes null depth s =
      Writes-check_depth depth (λ hd. Writes-map (tag-Writes 1) refl refl (λ _. hd))
  value-Writes (bool b) depth s = Writes-check_depth depth (λ hd.
      Writes-map (Writes-then (tag-Writes 2) (λ _. tag-Writes (if b then 1 else 0))) refl refl
        (λ _. hd))
  value-Writes (int z) depth s =
      Writes-check_depth depth
        (λ hd. Writes-map (Writes-then (tag-Writes 3) (λ _. i-Writes z)) refl refl (λ _. (hd, s)))
  value-Writes (float bits) depth s = Writes-check_depth depth (λ hd.
      Writes-guard (non_finite64 bits) _ (λ fin.
        Writes-map (Writes-then (tag-Writes 4) (λ _. write-Writes (put_big_endian 8 bits))) refl
          refl (λ _. (hd, s, fin))))
  value-Writes (string t) depth s = Writes-check_depth depth (λ hd.
      Writes-map (Writes-then (tag-Writes 5) (λ _. str-Writes t s)) refl (omega arith)
        (λ _. (hd, s)))
  value-Writes (bytes none) depth s = Writes-check_depth depth (λ hd.
      Writes-map (Writes-then (tag-Writes 6) (λ _. write_bytes_none-Writes)) refl refl (λ _. hd))
  value-Writes (bytes (some b)) depth s = Writes-check_depth depth (λ hd.
      Writes-map (Writes-then (tag-Writes 6) (λ _. write_bytes-Writes b s)) refl (omega arith)
        (λ _. (hd, s)))
  value-Writes (vector none) depth s = Writes-check_depth depth (λ hd.
      Writes-map
        (Writes-then (admit_decoded-Writes 0 4 (omega arith))
          (λ _. Writes-then (tag-Writes 7) (λ _. u-Writes 0)))
        refl refl (λ _. hd))
  value-Writes (vector (some fs)) depth (h, hs) = Writes-check_depth depth (λ hd.
      Writes-map
        (Writes-then (admit_decoded-Writes (length fs) 4 (omega arith)) (λ _.
          Writes-then (tag-Writes 7)
            (λ _. Writes-then (u-Writes (length fs + 1)) (λ _. floats-Writes fs hs))))
        refl (omega arith) (λ (_, (_, (_, r))). (hd, h, r)))
  value-Writes nil_list depth s = Writes-check_depth depth (λ hd.
      Writes-map
        (Writes-then (admit_decoded-Writes 0 136 (omega arith))
          (λ _. Writes-then (tag-Writes 8) (λ _. u-Writes 0)))
        refl refl (λ _. hd))
  value-Writes (list vs) depth (h, hs) = rw (count_items-canonical vs) (
      Writes-check_depth depth (λ hd.
        Writes-map
          (Writes-then (admit_decoded-Writes (count_items vs) 136 (omega arith)) (λ _.
            Writes-then (tag-Writes 8) (λ _.
              Writes-then (u-Writes (count_items vs + 1))
                (λ _. write_items-Writes vs (depth + 1) hs))))
          refl (omega arith) (λ (_, (_, (_, r))). (hd, h, r))))
  value-Writes nil_map depth s = Writes-check_depth depth (λ hd.
      Writes-map (Writes-then (tag-Writes 9) (λ _. write_properties_nil-Writes (depth + 1))) refl
        refl (λ r. r.1))
  value-Writes (map fs) depth (h, dist, hs) = Writes-check_depth depth (λ hd.
      Writes-map
        (Writes-then (tag-Writes 9)
          (λ _. write_properties-Writes (depth + 1) fs h dist (actions-Matches fs (depth + 1) hs)))
        refl (omega arith) (λ r. r.1))
  value-Writes (unknown kind) depth s =
      Writes-check_depth depth (λ hd. record { run = λ e e' h. cc })

  write_items-Writes :
      (vs : Items) (depth : ℕ)
      → AreStored vs
      → Writes
          (write_items vs depth)
          (wire_items (canonical_items vs))
          (cost_items (canonical_items vs))
          (AreStorable depth (canonical_items vs))
  write_items-Writes no_items depth s = Writes-ok
  write_items-Writes (item v vs) depth (s, ss) =
      Writes-then (value-Writes v depth s) (λ _. write_items-Writes vs depth ss)

  actions-Matches :
      (fs : Fields) (depth : ℕ)
      → AreStoredFields fs
      → Matches depth (sort_entries (actions fs)) (canonical_fields fs)
  actions-Matches no_fields depth s = tt
  actions-Matches (field k v fs) depth (t, s, ss) =
      insert_entry-Matches depth k (value v) (canonical v) (sort_entries (actions fs))
        (canonical_fields fs) t (value-Writes v depth s) (actions-Matches fs depth ss)

-- `properties` of a node or an edge.
pub properties-Writes :
    (fs : Fields) (d : ℕ)
    → IsStored (map fs)
    → Writes
        (properties (some fs) d)
        (put_uvarint (count_fields (canonical_fields fs) + 1) ++ wire_fields (canonical_fields fs))
        (count_fields (canonical_fields fs) * 208 + cost_fields (canonical_fields fs))
        ((d ≤ 65)
          × (count_fields (canonical_fields fs) < max_length)
          × Distinct (canonical_fields fs)
          × AreStorableFields d (canonical_fields fs))
unfolding properties
properties-Writes fs d (h, dist, s) = write_properties-Writes d fs h dist (actions-Matches fs d s)
