-- ===== src/Event/Kind.antt =====
-- The grammar of event kinds (`validate_kind`, src/model.rs) and of ref and peer names
-- (`validate_name`, src/store.rs), whose loops are the same.
use contextmesh_rs.Common.{
  ℕ, ◌≤◌, ◌≡◌, refl, ◌↔◌, ◌⊎◌, Bool, true, false, not, ◌&&◌, ◌||◌, [], ◌∷◌, arith, Bytes, ◌==◌, ltb,
  leb, if◌then◌else◌, length, ok, ◌>>◌, refuse,
}
use contextmesh_rs.Event.Json.{Contract, invalid_kind}

abbrev pub max_kind_bytes : ℕ
max_kind_bytes = 64

abbrev pub is_lowercase : ℕ → Bool
is_lowercase b = leb b'a' b && leb b b'z'

abbrev pub is_alphanumeric : ℕ → Bool
is_alphanumeric b = is_lowercase b || leb b'0' b && leb b b'9'

abbrev pub is_separator : ℕ → Bool
is_separator b = b == b'.' || b == b'_' || b == b'-'

-- The loop over the bytes behind the first, with its flag, and the test behind the loop.
unfoldable pub scan_label : Bool → Bytes → Bool
scan_label separator [] = not separator
scan_label separator (b ∷ bs) =
    let after_letter = scan_label false bs in
    let after_separator = scan_label true bs in
    if is_alphanumeric b
    then after_letter
    else if is_separator b && not separator
    then after_separator
    else false

unfoldable pub starts_lowercase : Bytes → Bool
starts_lowercase [] = false
starts_lowercase (b ∷ bs) = is_lowercase b

unfoldable pub scan_rest : Bytes → Bool
unfolding scan_label
scan_rest [] = true
scan_rest (b ∷ bs) = scan_label false bs

unfoldable pub validate_kind : Bytes → Contract (Unit {0})
validate_kind kind = do
  refuse (ltb max_kind_bytes (length kind) || not (starts_lowercase kind)) invalid_kind
  refuse (not (scan_rest kind)) invalid_kind

-- The grammar `[a-z]([a-z0-9] | [._-][a-z0-9])*`, read off the bytes.
abbrev pub LabelTail : Bytes → Type 0
LabelTail [] = Unit
LabelTail (b ∷ []) = is_alphanumeric b ≡ true
LabelTail (b ∷ c ∷ bs) =
    (is_alphanumeric b ≡ true) × LabelTail (c ∷ bs)
    ⊎ (is_separator b ≡ true) × (is_alphanumeric c ≡ true) × LabelTail bs

abbrev pub IsLabel : Bytes → Type 0
IsLabel [] = ⊥
IsLabel (b ∷ bs) = (is_lowercase b ≡ true) × LabelTail bs

separator_no_letter : (b : ℕ) → is_separator b ≡ true → is_alphanumeric b ≡ false
separator_no_letter b h = ground arith

scan_label_iff : (bs : Bytes) → (scan_label false bs ≡ true) ↔ LabelTail bs
unfolding scan_label
scan_label_iff [] = (λ h. tt, λ h. refl)
scan_label_iff (b ∷ []) = ground arith
scan_label_iff (b ∷ c ∷ bs) = ground (
  arith,
  scan_label_iff (c ∷ bs),
  scan_label_iff bs,
  separator_no_letter b,
  separator_no_letter c,
)

-- A kind or name passes the two tests exactly when it is within its bound and in the grammar.
pub IsLabel-iff : (bs : Bytes) → ((starts_lowercase bs ≡ true) × (scan_rest bs ≡ true)) ↔ IsLabel bs
unfolding starts_lowercase scan_rest
IsLabel-iff [] = (λ h. cc, λ h. absurd h)
IsLabel-iff (b ∷ bs) = ground (arith, scan_label_iff bs)

kind_tests :
    (kind : Bytes)
    → (validate_kind kind ≡ ok tt)
      ↔ ((starts_lowercase kind ≡ true) × (scan_rest kind ≡ true) × (length kind ≤ max_kind_bytes))
unfolding validate_kind
kind_tests kind = ground arith

-- `validate_kind` accepts exactly the labels of the grammar of at most 64 bytes.
pub validate_kind_iff :
    (kind : Bytes) → (validate_kind kind ≡ ok tt) ↔ (IsLabel kind × (length kind ≤ max_kind_bytes))
validate_kind_iff kind = (
  λ h.
      let (first, rest, short) = (kind_tests kind).0 h in
      ((IsLabel-iff kind).0 (first, rest), short),
  λ (label, short).
      let (first, rest) = (IsLabel-iff kind).1 label in (kind_tests kind).1 (first, rest, short),
)
