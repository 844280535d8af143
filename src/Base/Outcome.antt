-- ===== src/Base/Outcome.antt =====
-- Go's `(value, error)` pairs and sticky error fields: the first error ends the computation.
use mathlib.Core.Path.{◌≡◌, refl, ap}
use mathlib.Core.Bool.{Bool, true, false}

-- One constructor for each error value that the modelled code creates.
pub data Error : Type 0 where
  unexpected_eof varint_overflow load_resource_limit value_limit : Error
  non_finite invalid_utf8 duplicate_key invalid_bool unknown_tag unknown_kind trailing_data : Error
  invalid_header checksum_mismatch key_mismatch invalid_entity_id invalid_label : Error
  invalid_edge_type dimensions_overflow invalid_delete_flag invalid_presence_flag : Error
  missing_snapshot missing_delta unknown_wal_kind unknown_wal_tag : Error

pub data Result {ℓ} (Value : Type ℓ) : Type ℓ where
  err : Error → Result Value
  ok : Value → Result Value

-- `if err != nil { return err }` between two calls.
infixl 5 ◌>>=◌
abbrev pub ◌>>=◌ {ℓ κ} : {V : Type ℓ} {W : Type κ} → Result V → (V → Result W) → Result W
err x >>= next = err x
ok v >>= next = next v

-- `if bad { return err }`
abbrev pub refuse : Bool → Error → Result (Unit {0})
refuse false x = ok tt
refuse true x = err x

-- The statements behind a test.
infixl 5 ◌>>◌
abbrev pub ◌>>◌ {ℓ} : {W : Type ℓ} → Result (Unit {0}) → Result W → Result W
test >> next = test >>= λ passed. next

-- A chain that succeeds went through its first call.
pub >>=-eq-ok {ℓ κ} :
    {V : Type ℓ} {W : Type κ} (call : Result V) (next : V → Result W) {w : W}
    → (call >>= next) ≡ ok w
    → (v : V) × (call ≡ ok v) × (next v ≡ ok w)
>>=-eq-ok (err x) next chain = cc
>>=-eq-ok (ok v) next chain = (v, refl, chain)

pub ok-injective {ℓ} : {A : Type ℓ} {a b : A} → ◌≡◌ {A = Result A} (ok a) (ok b) → a ≡ b
ok-injective {a} {b} e = ap (λ r. elim r [ ok x ↦ x | err _ ↦ a ]) e
