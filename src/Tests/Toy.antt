-- ===== src/Tests/Toy.antt =====
-- Libraries small enough to run. A value is written as a program for a stack machine, one pair of
-- numbers for each instruction, in postfix order, and read by running it.
use Prim.Native.Nat.{◌%◌}
use contextmesh_rs.Common.{
  ℕ, ◌+◌, ◌*◌, arith, ◌≡◌, refl, ap, ◌∙◌, true, false, not, Option, none, some, List, [], ◌∷◌,
  Bytes, ◌==◌, ==_refl, if◌then◌else◌, ok, err,
}
use contextmesh_rs.Event.Json
use contextmesh_rs.Event.Json.{
  Contract, Json, Items, Fields, Number, unsigned, negative, float, json_syntax, invalid_encoding,
}
use contextmesh_rs.Event.Body.{Libraries}
use contextmesh_rs.Event.Wire.{has_bom}
use contextmesh_rs.Event.Wire.RoundTrip.{Documented}

pub data Value : Type 0 where
  bytes : Bytes → Value
  json : Json → Value
  items : Items → Value
  fields : Fields → Value

-- The instructions that take something from the stack; what does not fit leaves it.
unfoldable pub add_byte : ℕ → List Value → List Value
add_byte n (bytes s ∷ st) = bytes (n ∷ s) ∷ st
add_byte n st = st

unfoldable pub to_string : List Value → List Value
to_string (bytes s ∷ st) = json (Json.string s) ∷ st
to_string st = st

unfoldable pub add_item : List Value → List Value
add_item (items xs ∷ json x ∷ st) = items (Json.cons x xs) ∷ st
add_item st = st

unfoldable pub to_array : List Value → List Value
to_array (items xs ∷ st) = json (Json.array xs) ∷ st
to_array st = st

unfoldable pub add_field : List Value → List Value
add_field (fields fs ∷ json x ∷ bytes k ∷ st) = fields (Json.field k x fs) ∷ st
add_field st = st

unfoldable pub to_object : List Value → List Value
to_object (fields fs ∷ st) = json (Json.object fs) ∷ st
to_object st = st

-- One instruction with its operand.
unfoldable pub step : ℕ → ℕ → List Value → List Value
unfolding add_byte to_string add_item to_array add_field to_object
step op n st =
    if op == 0
    then bytes [] ∷ st
    else if op == 1
    then add_byte n st
    else if op == 2
    then json Json.null ∷ st
    else if op == 3
    then json (Json.bool false) ∷ st
    else if op == 4
    then json (Json.bool true) ∷ st
    else if op == 5
    then json (Json.number (unsigned n)) ∷ st
    else if op == 6
    then json (Json.number (negative n)) ∷ st
    else if op == 7
    then json (Json.number (float n)) ∷ st
    else if op == 9
    then to_string st
    else if op == 10
    then items Json.nil ∷ st
    else if op == 11
    then add_item st
    else if op == 12
    then to_array st
    else if op == 13
    then fields Json.end ∷ st
    else if op == 14
    then add_field st
    else to_object st

unfoldable pub run : Bytes → List Value → List Value
run (op ∷ n ∷ rest) st = run rest (step op n st)
run _ st = st

unfoldable pub write_bytes : Bytes → Bytes → Bytes
write_bytes [] rest = 0 ∷ 0 ∷ rest
write_bytes (b ∷ s) rest = write_bytes s (1 ∷ b ∷ rest)

unfoldable pub write_number : Number → Bytes → Bytes
write_number (unsigned n) rest = 5 ∷ n ∷ rest
write_number (negative n) rest = 6 ∷ n ∷ rest
write_number (float bits) rest = 7 ∷ bits ∷ rest

unfoldable mutual
  unfolding write_bytes write_number

  pub write_json : Json → Bytes → Bytes
  write_json Json.null rest = 2 ∷ 0 ∷ rest
  write_json (Json.bool false) rest = 3 ∷ 0 ∷ rest
  write_json (Json.bool true) rest = 4 ∷ 0 ∷ rest
  write_json (Json.number n) rest = write_number n rest
  write_json (Json.string s) rest = write_bytes s (9 ∷ 0 ∷ rest)
  write_json (Json.array xs) rest = write_items xs (12 ∷ 0 ∷ rest)
  write_json (Json.object fs) rest = write_fields fs (15 ∷ 0 ∷ rest)

  pub write_items : Items → Bytes → Bytes
  write_items Json.nil rest = 10 ∷ 0 ∷ rest
  write_items (Json.cons x xs) rest = write_json x (write_items xs (11 ∷ 0 ∷ rest))

  pub write_fields : Fields → Bytes → Bytes
  write_fields Json.end rest = 13 ∷ 0 ∷ rest
  write_fields (Json.field k x fs) rest =
      write_bytes k (write_json x (write_fields fs (14 ∷ 0 ∷ rest)))

run_bytes :
    (s : Bytes) (rest : Bytes) (st : List Value)
    → run (write_bytes s rest) st ≡ run rest (bytes s ∷ st)
unfolding run step add_byte write_bytes
run_bytes [] rest st = refl
run_bytes (b ∷ s) rest st = run_bytes s (1 ∷ b ∷ rest) st

run_number :
    (n : Number) (rest : Bytes) (st : List Value)
    → run (write_number n rest) st ≡ run rest (json (Json.number n) ∷ st)
unfolding run step write_number
run_number (unsigned n) rest st = refl
run_number (negative n) rest st = refl
run_number (float bits) rest st = refl

mutual
  unfolding run step to_string add_item to_array add_field to_object write_json

  run_json :
      (j : Json) (rest : Bytes) (st : List Value)
      → run (write_json j rest) st ≡ run rest (json j ∷ st)
  run_json Json.null rest st = refl
  run_json (Json.bool false) rest st = refl
  run_json (Json.bool true) rest st = refl
  run_json (Json.number n) rest st = run_number n rest st
  run_json (Json.string s) rest st = run_bytes s (9 ∷ 0 ∷ rest) st
  run_json (Json.array xs) rest st = run-items xs (12 ∷ 0 ∷ rest) st
  run_json (Json.object fs) rest st = run_fields fs (15 ∷ 0 ∷ rest) st

  run-items :
      (xs : Items) (rest : Bytes) (st : List Value)
      → run (write_items xs rest) st ≡ run rest (items xs ∷ st)
  run-items Json.nil rest st = refl
  run-items (Json.cons x xs) rest st =
      run_json x (write_items xs (11 ∷ 0 ∷ rest)) st ∙ run-items xs (11 ∷ 0 ∷ rest) (json x ∷ st)

  run_fields :
      (fs : Fields) (rest : Bytes) (st : List Value)
      → run (write_fields fs rest) st ≡ run rest (fields fs ∷ st)
  run_fields Json.end rest st = refl
  run_fields (Json.field k x fs) rest st =
      run_bytes k (write_json x (write_fields fs (14 ∷ 0 ∷ rest))) st
      ∙ (run_json x (write_fields fs (14 ∷ 0 ∷ rest)) (bytes k ∷ st)
          ∙ run_fields fs (14 ∷ 0 ∷ rest) (json x ∷ bytes k ∷ st))

-- The value on top of the stack.
unfoldable pub result : List Value → Contract Json
result (json j ∷ st) = ok j
result _ = err json_syntax

-- Three zeros, that are no byte order mark, and the program of the value.
unfoldable pub read : Bytes → Contract Json
unfolding run result
read (a ∷ b ∷ c ∷ program) = result (run program [])
read _ = err json_syntax

unfoldable pub read_id : Bytes → Contract ℕ
read_id (n ∷ []) = ok n
read_id _ = err invalid_encoding

unfoldable pub digest : Bytes → ℕ
digest [] = 7
digest (b ∷ bs) = (b + 31 * digest bs) % 1_000_003

abbrev value_of : Contract Json → Option Json
value_of (ok j) = some j
value_of (err e) = none

abbrev pub toy : Libraries
toy = record {
  parse = read;
  from_slice = λ w. value_of (read w);
  canonical = λ j. some (0 ∷ 0 ∷ 0 ∷ write_json j []);
  derive_key = λ domain content. digest content;
  hash = λ content. digest content ∷ [];
  id_bytes = λ n. n ∷ [];
  valid_key = λ key. not (key == 0);
  verify_strict = λ key m signature. signature == key + digest m;
  public_key = λ seed. seed + 1;
  sign = λ seed m. seed + 1 + digest m;
  id_text = λ k n. n ∷ [];
  parse_id = λ k text. read_id text;
  is_id = λ k n. true;
}

read_canonical :
    (j : Json) (w : Bytes) → some (0 ∷ 0 ∷ 0 ∷ write_json j []) ≡ some w → read w ≡ ok j
unfolding read run result
read_canonical j w h =
    let same : 0 ∷ 0 ∷ 0 ∷ write_json j [] ≡ w = cc in rw (← same) (ap result (run_json j [] []))

plain : (j : Json) (w : Bytes) → some (0 ∷ 0 ∷ 0 ∷ write_json j []) ≡ some w → has_bom w ≡ false
unfolding has_bom
plain j w h = let same : 0 ∷ 0 ∷ 0 ∷ write_json j [] ≡ w = cc in rw (← same) refl

pub toy-Documented : Documented toy
unfolding read_id
toy-Documented = record {
  parse_canonical = λ j w r h. read_canonical j w h;
  slice_canonical = λ j w r h. ap value_of (read_canonical j w h);
  plain_canonical = λ j w h. plain j w h;
  parse_text = λ k n i. refl;
  key_valid = λ seed. ground arith;
  signature_verifies = λ seed m. ==_refl (seed + 1 + digest m);
}
