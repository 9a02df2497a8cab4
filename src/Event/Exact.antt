-- ===== src/Event/Exact.antt =====
-- The values that come back from their canonical text, and how deep they nest. An f64 is left out, since an
-- integral one is written as an integer, and -0 as 0 (`canonicalize`, src/model.rs).
use contextmesh_rs.Common.{ℕ, ◌≤◌, ◌≡◌, true, List, [], ◌∷◌, arith, Bytes, bytes_lt, ok}
use contextmesh_rs.Event.Json
use contextmesh_rs.Event.Json.{
  Json, Items, Fields, Number, max_safe_integer, max_payload_depth, depth_of, depth_items,
  validate_json_value, validate_json_value_iff,
}
use contextmesh_rs.Event.Body.{items}

-- How deep the parser of serde_json nests: it refuses a value at its limit of 128.
abbrev pub max_parsed_depth : ℕ
max_parsed_depth = 127

abbrev pub IsInteger : Number → Type 0
IsInteger (Json.unsigned n) = n ≤ max_safe_integer
IsInteger (Json.negative n) = (1 ≤ n) × (n ≤ max_safe_integer)
IsInteger (Json.float bits) = ⊥

-- The key stands before that of the first field.
abbrev pub Precedes : Bytes → Fields → Type 0
Precedes k Json.end = Unit
Precedes k (Json.field j x fs) = bytes_lt k j ≡ true

-- All numbers are integers that every JSON parser keeps, and the fields of an object are in the order of a map.
unfoldable mutual
  pub IsExact : Json → Type 0
  IsExact Json.null = Unit
  IsExact (Json.bool b) = Unit
  IsExact (Json.string s) = Unit
  IsExact (Json.number n) = IsInteger n
  IsExact (Json.array xs) = ItemsAreExact xs
  IsExact (Json.object fs) = FieldsAreExact fs

  pub ItemsAreExact : Items → Type 0
  ItemsAreExact Json.nil = Unit
  ItemsAreExact (Json.cons x xs) = IsExact x × ItemsAreExact xs

  pub FieldsAreExact : Fields → Type 0
  FieldsAreExact Json.end = Unit
  FieldsAreExact (Json.field k x fs) = IsExact x × Precedes k fs × FieldsAreExact fs

-- A value that a parser takes back from its canonical text.
abbrev pub IsReadable : Json → Type 0
IsReadable j = IsExact j × (depth_of j ≤ max_parsed_depth)

pub items-ItemsAreExact :
    (render : ℕ → Bytes) (ns : List ℕ)
    → ItemsAreExact (items render ns) × (depth_items (items render ns) ≤ 1)
unfolding IsExact ItemsAreExact depth_of depth_items
items-ItemsAreExact render [] = (tt, omega arith)
items-ItemsAreExact render (n ∷ ns) =
    let (exact, deep) = items-ItemsAreExact render ns in ((tt, exact), omega (arith, deep))

pub validated_depth : (j : Json) → validate_json_value j 1 ≡ ok tt → depth_of j ≤ max_payload_depth
validated_depth j h = ((validate_json_value_iff j).0 h).0
