-- ===== src/Event/Json.antt =====
-- JSON values and `validate_json_value` (src/model.rs), and the errors of the contract.
use contextmesh_rs.Event.Magnitude.{beyond_iff}
use contextmesh_rs.Common.{
  ◌≢◌, ==_iff, ℕ, zero, suc, ◌+◌, ◌-◌, ◌*◌, ◌/◌, ◌%◌, ◌^◌, leb, ◌==◌, ◌&&◌, ◌||◌, inl, inr,
  Bool-cases, ◌≤◌, ◌<◌, max, ◌≡◌, refl, ◌↔◌, Bool, true, false, not, arith, Bytes, ltb,
  if◌then◌else◌, Result, ok, err, ◌>>◌, refuse, Result-cases,
}

pub data ContractError : Type 0 where
  wire_too_large json_syntax duplicate_key unknown_field missing_field unsupported_version :
      ContractError
  invalid_encoding invalid_kind parent_order limit_exceeded unsafe_number canonicalization :
      ContractError
  entropy author_mismatch id_mismatch signature_invalid : ContractError

abbrev pub Contract : Type 0 → Type 0
Contract = Result ContractError

-- A number that fits u64, a negative one that fits i64 with its magnitude, or an f64 by its 64 bits.
pub data Number : Type 0 where
  unsigned negative : ℕ → Number
  float : (bits : ℕ) → Number

-- The fields of an object stand in key order, as in a `serde_json::Map`.
mutual
  pub data Json : Type 0 where
    null : Json
    bool : Bool → Json
    number : Number → Json
    string : Bytes → Json
    array : Items → Json
    object : Fields → Json

  pub data Items : Type 0 where
    nil : Items
    cons : Json → Items → Items

  pub data Fields : Type 0 where
    end : Fields
    field : Bytes → Json → Fields → Fields

abbrev pub max_payload_depth : ℕ
max_payload_depth = 64

abbrev pub max_safe_integer : ℕ
max_safe_integer = 9_007_199_254_740_991

-- The parts of an f64: its exponent field, its significand, which is `… · 2 ^ (scale - 1075)` in value.
abbrev pub exponent_of : ℕ → ℕ
exponent_of bits = (bits / 2 ^ 52) % 2048

abbrev pub significand_of : ℕ → ℕ
significand_of bits = if exponent_of bits == 0 then bits % 2 ^ 52 else 2 ^ 52 + bits % 2 ^ 52

abbrev pub scale_of : ℕ → ℕ
scale_of bits = if exponent_of bits == 0 then 1 else exponent_of bits

-- `value.is_finite()`, `value.fract() == 0.0` and `value.abs() > MAX_SAFE_INTEGER as f64`
unfoldable pub is_finite : ℕ → Bool
is_finite bits = not (exponent_of bits == 2047)

unfoldable pub has_no_fraction : ℕ → Bool
has_no_fraction bits =
    if leb 1075 (scale_of bits) then true else significand_of bits % 2 ^ (1075 - scale_of bits) == 0

unfoldable pub is_beyond_safe : ℕ → Bool
is_beyond_safe bits =
    if leb 1075 (scale_of bits)
    then ltb max_safe_integer (significand_of bits * 2 ^ (scale_of bits - 1075))
    else ltb (max_safe_integer * 2 ^ (1075 - scale_of bits)) (significand_of bits)

unfoldable pub validate_number : Number → Contract (Unit {0})
unfolding is_finite has_no_fraction is_beyond_safe
validate_number (unsigned n) = refuse (ltb max_safe_integer n) unsafe_number
validate_number (negative n) = refuse (ltb max_safe_integer n) unsafe_number
validate_number (float bits) =
    refuse (not (is_finite bits) || (has_no_fraction bits && is_beyond_safe bits)) unsafe_number

-- The recursion is behind the test of the depth: what a `let` binds waits.
unfoldable mutual
  pub validate_json_value : Json → ℕ → Contract (Unit {0})
  validate_json_value null depth = refuse (ltb max_payload_depth depth) limit_exceeded
  validate_json_value (bool b) depth = refuse (ltb max_payload_depth depth) limit_exceeded
  validate_json_value (string s) depth = refuse (ltb max_payload_depth depth) limit_exceeded
  validate_json_value (number n) depth =
      refuse (ltb max_payload_depth depth) limit_exceeded >> validate_number n
  validate_json_value (array xs) depth =
      let rest = validate_items xs (depth + 1) in
      if ltb max_payload_depth depth then err limit_exceeded else rest
  validate_json_value (object fs) depth =
      let rest = validate_fields fs (depth + 1) in
      if ltb max_payload_depth depth then err limit_exceeded else rest

  pub validate_items : Items → ℕ → Contract (Unit {0})
  validate_items nil depth = ok tt
  validate_items (cons x xs) depth =
      let rest = validate_items xs depth in validate_json_value x depth >> rest

  pub validate_fields : Fields → ℕ → Contract (Unit {0})
  validate_fields end depth = ok tt
  validate_fields (field k x fs) depth =
      let rest = validate_fields fs depth in validate_json_value x depth >> rest

-- The independent description: every number is safe, and every value at depth `depth + n` has
-- `depth + n ≤ 64`. An f64 is safe where it is neither infinite nor a NaN, and its absolute value, which is
-- `significand * 2 ^ scale / 2 ^ 1075`, is no natural number above 2^53 - 1.
abbrev pub NumberIsSafe : Number → Type 0
NumberIsSafe (unsigned n) = n ≤ max_safe_integer
NumberIsSafe (negative n) = n ≤ max_safe_integer
NumberIsSafe (float bits) =
    (exponent_of bits ≢ 2047)
    × ((n : ℕ) → n * 2 ^ 1075 ≡ significand_of bits * 2 ^ scale_of bits → n ≤ max_safe_integer)

unfoldable mutual
  pub NumbersAreSafe : Json → Type 0
  NumbersAreSafe null = Unit
  NumbersAreSafe (bool b) = Unit
  NumbersAreSafe (string s) = Unit
  NumbersAreSafe (number n) = NumberIsSafe n
  NumbersAreSafe (array xs) = ItemsAreSafe xs
  NumbersAreSafe (object fs) = FieldsAreSafe fs

  pub ItemsAreSafe : Items → Type 0
  ItemsAreSafe nil = Unit
  ItemsAreSafe (cons x xs) = NumbersAreSafe x × ItemsAreSafe xs

  pub FieldsAreSafe : Fields → Type 0
  FieldsAreSafe end = Unit
  FieldsAreSafe (field k x fs) = NumbersAreSafe x × FieldsAreSafe fs

-- How deep a value nests, itself included.
unfoldable mutual
  pub depth_of : Json → ℕ
  depth_of null = 1
  depth_of (bool b) = 1
  depth_of (string s) = 1
  depth_of (number n) = 1
  depth_of (array xs) = suc (depth_items xs)
  depth_of (object fs) = suc (depth_fields fs)

  pub depth_items : Items → ℕ
  depth_items nil = 0
  depth_items (cons x xs) = max (depth_of x) (depth_items xs)

  pub depth_fields : Fields → ℕ
  depth_fields end = 0
  depth_fields (field k x fs) = max (depth_of x) (depth_fields fs)

float_tests :
    (finite whole beyond : Bool)
    → (refuse (not finite || (whole && beyond)) unsafe_number ≡ ok tt)
      ↔ ((finite ≡ true) × (whole ≡ true → beyond ≡ false))
float_tests false whole beyond = ground arith
float_tests true false beyond = ground arith
float_tests true true beyond = ground arith

finite_iff : (e : ℕ) → (not (e == 2047) ≡ true) ↔ (e ≢ 2047)
finite_iff e = elim (Bool-cases (e == 2047)) [
  | inl same ↦ rw same (λ h. cc, λ other. absurd (other ((==_iff e 2047).0 same)))
  | inr other ↦ rw other (λ _ same. ground (arith, other, (==_iff e 2047).1 same), λ _. refl)
]

float_iff : (bits : ℕ) → (validate_number (float bits) ≡ ok tt) ↔ NumberIsSafe (float bits)
unfolding validate_number is_finite has_no_fraction is_beyond_safe
float_iff bits =
    let (down, up) = float_tests (is_finite bits) (has_no_fraction bits) (is_beyond_safe bits) in
    let (there, back) = beyond_iff max_safe_integer 1075 (scale_of bits) (significand_of bits) in
    let (out, into) = finite_iff (exponent_of bits) in
    (λ h. let (f, b) = down h in (out f, there b), λ (f, b). up (into f, back b))

validate_number_iff : (n : Number) → (validate_number n ≡ ok tt) ↔ NumberIsSafe n
unfolding validate_number
validate_number_iff (unsigned n) = ground arith
validate_number_iff (negative n) = ground arith
validate_number_iff (float bits) = float_iff bits

depth_of-pos : (j : Json) → 0 < depth_of j
unfolding depth_of depth_items depth_fields
depth_of-pos null = omega arith
depth_of-pos _ = omega arith

-- The depth test of a list of values, which says nothing of an empty one.
abbrev Fits : ℕ → ℕ → Type 0
Fits zero d = Unit
Fits (suc n) d = suc n + d ≤ suc max_payload_depth

Fits-max : (m n d : ℕ) → 0 < m → (Fits (max m n) d ↔ ((m + d ≤ suc max_payload_depth) × Fits n d))
Fits-max zero n d h = absurd (omega arith)
Fits-max (suc m) zero d h = ground arith
Fits-max (suc m) (suc n) d h = ground arith

Fits-suc :
    (n d : ℕ) → ((suc n + d ≤ suc max_payload_depth) ↔ ((d ≤ max_payload_depth) × Fits n (d + 1)))
Fits-suc zero d = ground arith
Fits-suc (suc n) d = ground arith

mutual
  unfolding validate_json_value validate_items validate_fields NumbersAreSafe ItemsAreSafe
      FieldsAreSafe depth_of depth_items depth_fields

  value_iff :
      (j : Json) (d : ℕ)
      → (validate_json_value j d ≡ ok tt)
        ↔ ((depth_of j + d ≤ suc max_payload_depth) × NumbersAreSafe j)
  value_iff null d = ground arith
  value_iff (bool b) d = ground arith
  value_iff (string s) d = ground arith
  value_iff (number n) d = ground (arith, validate_number_iff n)
  value_iff (array xs) d = ground (arith, items_iff xs (d + 1), Fits-suc (depth_items xs) d)
  value_iff (object fs) d = ground (arith, fields_iff fs (d + 1), Fits-suc (depth_fields fs) d)

  items_iff :
      (xs : Items) (d : ℕ)
      → (validate_items xs d ≡ ok tt) ↔ (Fits (depth_items xs) d × ItemsAreSafe xs)
  items_iff nil d = (λ h. (tt, tt), λ h. refl)
  items_iff (cons x xs) d = ground (
    arith,
    value_iff x d,
    items_iff xs d,
    Fits-max (depth_of x) (depth_items xs) d,
    depth_of-pos x,
    Result-cases (validate_json_value x d),
  )

  fields_iff :
      (fs : Fields) (d : ℕ)
      → (validate_fields fs d ≡ ok tt) ↔ (Fits (depth_fields fs) d × FieldsAreSafe fs)
  fields_iff end d = (λ h. (tt, tt), λ h. refl)
  fields_iff (field k x fs) d = ground (
    arith,
    value_iff x d,
    fields_iff fs d,
    Fits-max (depth_of x) (depth_fields fs) d,
    depth_of-pos x,
    Result-cases (validate_json_value x d),
  )

-- A payload is accepted exactly when it nests at most 64 deep, itself counted, and holds no unsafe
-- number.
pub validate_json_value_iff :
    (j : Json)
    → (validate_json_value j 1 ≡ ok tt) ↔ ((depth_of j ≤ max_payload_depth) × NumbersAreSafe j)
validate_json_value_iff j = ground (arith, value_iff j 1)
