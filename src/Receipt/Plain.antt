-- ===== src/Receipt/Plain.antt =====
-- Receipts without a null structured form, and the parts of their wire (src/receipt.rs).
use contextmesh_rs.Common.{
  ◌≡◌, refl, none, some, Option, List, [], ◌∷◌, arith, Bytes, ok, inl, inr, Result-cases,
}
use contextmesh_rs.Event.Json.{Json, null, end}
use contextmesh_rs.Event.Body.{Libraries}
use contextmesh_rs.Event.Wire.{into_string}
use contextmesh_rs.Receipt.{
  TaskRecord, SelectorRecord, ReceiptBody, SignedReceipt, new_task, new_selector, validate_receipt,
  option_json, validate_task, validate_selector, validate_structured, verify_receipt,
  verify_receipt_parts, derive_receipt_id, receipt_canonical_bytes, receipt_body_json, task_json,
  selector_json, texts,
}
use contextmesh_rs.Receipt.Wire.{parse_strings, parse_structured, parse_selector, parse_task}

-- A structured form that is null is written as no structured form.
abbrev pub drop_null : Option Json → Option Json
drop_null none = none
drop_null (some null) = none
drop_null (some j) = some j

abbrev pub plain_task : TaskRecord → TaskRecord
plain_task t = record t { structured = drop_null t.structured }

abbrev pub plain_body : ReceiptBody → ReceiptBody
plain_body b = record b { task = plain_task b.task }

abbrev pub plain : SignedReceipt → SignedReceipt
plain r = record r { body = plain_body r.body }

pub parse_strings-texts : (ss : List Bytes) → parse_strings (texts ss) ≡ ok ss
unfolding parse_strings into_string
parse_strings-texts [] = refl
parse_strings-texts (s ∷ ss) = simp (parse_strings-texts ss)

pub parse_selector-json :
    (s : SelectorRecord) → validate_selector s ≡ ok tt → parse_selector (selector_json s) ≡ ok s
unfolding parse_selector selector_json new_selector
parse_selector-json s v = rw v refl

-- The two readings of a structured form, written and read again.
option_json-drop_null : (o : Option Json) → option_json (drop_null o) ≡ option_json o
option_json-drop_null none = refl
option_json-drop_null (some null) = refl
option_json-drop_null (some j) = refl

parse_structured-option_json :
    (o : Option Json) → parse_structured (some (option_json o, end)) ≡ drop_null o
unfolding parse_structured
parse_structured-option_json none = refl
parse_structured-option_json (some null) = refl
parse_structured-option_json (some j) = refl

module _ (lib : Libraries) where
  validate_structured-drop_null :
      (o : Option Json)
      → validate_structured lib o ≡ ok tt
      → validate_structured lib (drop_null o) ≡ ok tt
  unfolding validate_structured
  validate_structured-drop_null none h = h
  validate_structured-drop_null (some null) h = refl
  validate_structured-drop_null (some j) h = h

  plain_task_valid :
      (t : TaskRecord) → validate_task lib t ≡ ok tt → validate_task lib (plain_task t) ≡ ok tt
  unfolding validate_task
  plain_task_valid t h = ground (arith, validate_structured-drop_null t.structured)

  pub parse_task-json :
      (t : TaskRecord)
      → validate_task lib t ≡ ok tt
      → parse_task lib (task_json t) ≡ ok (plain_task t)
  unfolding parse_task task_json new_task
  parse_task-json t h = rw (parse_structured-option_json t.structured, plain_task_valid t h) refl

  task_json-plain : (t : TaskRecord) → task_json (plain_task t) ≡ task_json t
  unfolding task_json
  task_json-plain t = rw (option_json-drop_null t.structured) refl

  receipt_body_json-plain :
      (b : ReceiptBody) → receipt_body_json lib (plain_body b) ≡ receipt_body_json lib b
  unfolding receipt_body_json
  receipt_body_json-plain b = rw (task_json-plain b.task) refl

  pub validate_receipt_task :
      (b : ReceiptBody) → validate_receipt lib b ≡ ok tt → validate_task lib b.task ≡ ok tt
  unfolding validate_receipt
  validate_receipt_task b h = ground arith

  pub plain_body_valid :
      (b : ReceiptBody)
      → validate_receipt lib b ≡ ok tt
      → validate_receipt lib (plain_body b) ≡ ok tt
  unfolding validate_receipt
  plain_body_valid b h = ground (arith, receipt_body_json-plain b, plain_task_valid b.task)

  derive_receipt_id-plain :
      (b : ReceiptBody)
      → validate_receipt lib b ≡ ok tt
      → derive_receipt_id lib (plain_body b) ≡ derive_receipt_id lib b
  unfolding derive_receipt_id receipt_canonical_bytes
  derive_receipt_id-plain b h = rw (h, plain_body_valid b h, receipt_body_json-plain b) refl

  -- What is verified is valid, and stays verified without a null.
  pub verify_receipt-valid :
      (r : SignedReceipt) → verify_receipt lib r ≡ ok tt → validate_receipt lib r.body ≡ ok tt
  unfolding verify_receipt verify_receipt_parts
  verify_receipt-valid r h = elim (Result-cases (validate_receipt lib r.body)) [
    | inl (u, v) ↦ v
    | inr (x, v) ↦ cc (rw v at h)
  ]

  pub plain_verifies :
      (r : SignedReceipt) → verify_receipt lib r ≡ ok tt → verify_receipt lib (plain r) ≡ ok tt
  unfolding verify_receipt verify_receipt_parts
  plain_verifies r h =
      let v = verify_receipt-valid r h in
      rw (plain_body_valid r.body v, derive_receipt_id-plain r.body v) (rw v at h)
