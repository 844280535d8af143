-- ===== src/Stream/NameMap.antt =====
-- Go's maps from names: a list of entries with distinct keys. A lookup returns `none` where Go
-- returns the zero value and `false`.
use latticedb_go.Base.{
  ℕ, List, [], ◌∷◌, Bool, true, false, Option, none, some, ◌≡◌, refl, sym, ap, ◌∙◌, if◌then◌else◌,
  Bool-cases, inl, inr, ==_iff, ==_self, ◌==◌, ◌&&◌,
}
use latticedb_go.Payload.Values.{Bytes, same_bytes}

module _ {ℓ} {V : Type ℓ} where
  unfoldable pub lookup : List (Bytes × V) → Bytes → Option V
  lookup [] name = none
  lookup ((key, v) ∷ entries) name =
      let rest = lookup entries name in if same_bytes key name then some v else rest

  unfoldable pub assign : List (Bytes × V) → Bytes → V → List (Bytes × V)
  assign [] name v = (name, v) ∷ []
  assign ((key, old) ∷ entries) name v =
      let rest = assign entries name v in
      if same_bytes key name then (key, v) ∷ entries else (key, old) ∷ rest

pub same_bytes_self : (s : Bytes) → same_bytes s s ≡ true
unfolding same_bytes
same_bytes_self [] = refl
same_bytes_self (b ∷ s) = rw (==_self b) (same_bytes_self s)

pub same_bytes_eq : (s t : Bytes) → same_bytes s t ≡ true → s ≡ t
unfolding same_bytes
same_bytes_eq [] [] h = refl
same_bytes_eq [] (c ∷ t) h = cc
same_bytes_eq (b ∷ s) [] h = cc
same_bytes_eq (b ∷ s) (c ∷ t) h = elim (Bool-cases (b == c)) [
  | inl same ↦
      let tails : same_bytes s t ≡ true = sym (ap (λ (x : Bool). x && same_bytes s t) same) ∙ h in
      let heads : b ≡ c = (==_iff b c).0 same in
      ap (λ (x : ℕ). x ∷ s) heads ∙ ap (λ (x : Bytes). c ∷ x) (same_bytes_eq s t tails)
  | inr differs ↦
      let never : false ≡ true = sym (ap (λ (x : Bool). x && same_bytes s t) differs) ∙ h in cc
]

module _ {ℓ} {V : Type ℓ} where
  pub lookup-assign :
      (entries : List (Bytes × V)) (name : Bytes) (v : V)
      → lookup (assign entries name v) name ≡ some v
  unfolding lookup assign
  lookup-assign [] name v = rw (same_bytes_self name)
  lookup-assign ((key, old) ∷ entries) name v = elim (Bool-cases (same_bytes key name)) [
    | inl same ↦ rw (same, same)
    | inr other ↦ rw (other, other) (lookup-assign entries name v)
  ]

  pub lookup-assign_other :
      (entries : List (Bytes × V)) (name other : Bytes) (v : V)
      → same_bytes name other ≡ false
      → lookup (assign entries name v) other ≡ lookup entries other
  unfolding lookup assign
  lookup-assign_other [] name other v h = rw h
  lookup-assign_other ((key, old) ∷ entries) name other v h =
      elim (Bool-cases (same_bytes key name)) [
        | inl same ↦
            let beside = ap (λ (k : Bytes). same_bytes k other) (same_bytes_eq key name same) ∙ h in
            rw (same, beside)
        | inr differs ↦ rw differs (
            ap (λ (t : Option V). if same_bytes key other then some old else t)
              (lookup-assign_other entries name other v h))
      ]
