-- ===== src/Receipt/Wire.antt =====
-- The strict wire form of a receipt (`from_wire`, `to_wire` and the parsers, src/receipt.rs).
use contextmesh_rs.Event.Body.{event_id, context_id, author_id, event_signature, receipt_id}
use contextmesh_rs.Common.{
  ℕ, Option, none, some, List, [], ◌∷◌, Bytes, codes, ◌==◌, ltb, if◌then◌else◌, length, ok, err,
  ◌>>=◌, ◌>>◌, refuse,
}
use contextmesh_rs.Event.Json
use contextmesh_rs.Event.Json.{
  ContractError, Contract, Json, Items, Fields, json_syntax, unsupported_version, wire_too_large,
}
use contextmesh_rs.Event.Body.{Libraries, canonicalize}
use contextmesh_rs.Event.Wire.{
  into_object, into_string, reject_unknown, take_required, remove_field, parse_text, parse_parents,
  strict_json,
}
use contextmesh_rs.Receipt.{
  TaskRecord, SelectorRecord, ReceiptBody, SignedReceipt, receipt_version, max_receipt_wire_bytes,
  new_task, new_selector, validate_receipt, verify_receipt, verify_receipt_parts, receipt_body_json,
}

abbrev receipt_keys : List Bytes
receipt_keys = codes "receipt_id" ∷ codes "body" ∷ codes "signature" ∷ []

abbrev receipt_body_keys : List Bytes
receipt_body_keys =
    codes "version"
    ∷ codes "context"
    ∷ codes "events"
    ∷ codes "task"
    ∷ codes "recipient"
    ∷ codes "selector"
    ∷ codes "omissions"
    ∷ codes "uncertainty"
    ∷ codes "created_at"
    ∷ codes "author"
    ∷ []

abbrev task_keys : List Bytes
task_keys = codes "verbatim" ∷ codes "content_hash" ∷ codes "structured" ∷ []

abbrev selector_keys : List Bytes
selector_keys = codes "identity" ∷ codes "version" ∷ codes "config_hash" ∷ []

unfoldable pub parse_receipt_version : Json → Contract ℕ
parse_receipt_version (Json.number (Json.unsigned n)) =
    if n == receipt_version then ok receipt_version else err unsupported_version
parse_receipt_version (Json.number _) = err unsupported_version
parse_receipt_version _ = err json_syntax

-- `match object.remove("structured")`
unfoldable pub parse_structured : Option (Json × Fields) → Option Json
parse_structured none = none
parse_structured (some (Json.null, fs)) = none
parse_structured (some (j, fs)) = some j

unfoldable pub parse_strings : Items → Contract (List Bytes)
parse_strings Json.nil = ok []
parse_strings (Json.cons x xs) = do s ← into_string x; ss ← parse_strings xs; ok (s ∷ ss)

unfoldable pub parse_notes : Json → Contract (List Bytes)
unfolding parse_strings
parse_notes (Json.array xs) = parse_strings xs
parse_notes _ = err json_syntax

unfoldable pub parse_selector : Json → Contract SelectorRecord
unfolding into_object into_string reject_unknown take_required
parse_selector value = do
  object ← into_object value
  reject_unknown object selector_keys
  (identity_value, object) ← take_required object (codes "identity")
  identity ← into_string identity_value
  (version_value, object) ← take_required object (codes "version")
  version ← into_string version_value
  (config_hash_value, object) ← take_required object (codes "config_hash")
  config_hash ← into_string config_hash_value
  new_selector identity version config_hash

module _ (lib : Libraries) where
  unfoldable pub parse_task : Json → Contract TaskRecord
  unfolding into_object into_string reject_unknown take_required remove_field parse_structured
  parse_task value = do
    object ← into_object value
    reject_unknown object task_keys
    (verbatim_value, object) ← take_required object (codes "verbatim")
    verbatim ← into_string verbatim_value
    (content_hash_value, object) ← take_required object (codes "content_hash")
    content_hash ← into_string content_hash_value
    new_task lib verbatim content_hash (parse_structured (remove_field (codes "structured") object))

  unfoldable pub parse_recipient : Json → Contract ℕ
  unfolding into_object reject_unknown take_required parse_text
  parse_recipient value = do
    object ← into_object value
    reject_unknown object (codes "head" ∷ [])
    (head_value, object) ← take_required object (codes "head")
    parse_text lib event_id head_value

  unfoldable pub parse_receipt_body : Json → Contract ReceiptBody
  unfolding into_object into_string reject_unknown take_required parse_receipt_version parse_text
      parse_parents parse_recipient
  parse_receipt_body value = do
    object ← into_object value
    reject_unknown object receipt_body_keys
    (version_value, object) ← take_required object (codes "version")
    (context_value, object) ← take_required object (codes "context")
    (events_value, object) ← take_required object (codes "events")
    (task_value, object) ← take_required object (codes "task")
    (recipient_value, object) ← take_required object (codes "recipient")
    (selector_value, object) ← take_required object (codes "selector")
    (omissions_value, object) ← take_required object (codes "omissions")
    (uncertainty_value, object) ← take_required object (codes "uncertainty")
    (created_at_value, object) ← take_required object (codes "created_at")
    (author_value, object) ← take_required object (codes "author")
    version ← parse_receipt_version version_value
    context ← parse_text lib context_id context_value
    events ← parse_parents lib events_value
    task ← parse_task task_value
    head ← parse_recipient recipient_value
    selector ← parse_selector selector_value
    omissions ← parse_notes omissions_value
    uncertainty ← parse_notes uncertainty_value
    created_at ← into_string created_at_value
    author ← parse_text lib author_id author_value
    let body : ReceiptBody = record {
      version = version;
      context = context;
      events = events;
      task = task;
      head = head;
      selector = selector;
      omissions = omissions;
      uncertainty = uncertainty;
      created_at = created_at;
      author = author;
    }
    validate_receipt lib body
    ok body

  -- `SignedReceiptV1::from_wire` up to the check of the parts: body, identifier and signature.
  unfoldable pub parse_receipt : Bytes → Contract (ReceiptBody × ℕ × ℕ)
  unfolding strict_json into_object reject_unknown take_required parse_text
  parse_receipt input = do
    refuse (ltb max_receipt_wire_bytes (length input)) wire_too_large
    value ← strict_json lib input
    object ← into_object value
    reject_unknown object receipt_keys
    (id_value, object) ← take_required object (codes "receipt_id")
    (body_value, object) ← take_required object (codes "body")
    (signature_value, object) ← take_required object (codes "signature")
    body ← parse_receipt_body body_value
    id ← parse_text lib receipt_id id_value
    signature ← parse_text lib event_signature signature_value
    ok (body, id, signature)

  unfoldable pub check_receipt : ReceiptBody × ℕ × ℕ → Contract SignedReceipt
  check_receipt (body, id, signature) = do
    verify_receipt_parts lib body id signature
    ok (record { receipt_id = id; body = body; signature = signature })

  -- `SignedReceiptV1::from_wire`
  unfoldable pub receipt_from_wire : Bytes → Contract SignedReceipt
  unfolding check_receipt
  receipt_from_wire input = do parts ← parse_receipt input; check_receipt parts

  -- `Serialize for SignedReceiptV1`, in the key order of the canonical form.
  unfoldable pub receipt_json : SignedReceipt → Json
  unfolding receipt_body_json
  receipt_json r = Json.object (
      Json.field (codes "body") (receipt_body_json lib r.body) (
        Json.field (codes "receipt_id") (Json.string (lib.id_text receipt_id r.receipt_id)) (
          Json.field (codes "signature") (Json.string (lib.id_text event_signature r.signature))
            Json.end)))

  -- `SignedReceiptV1::to_wire`
  unfoldable pub receipt_to_wire : SignedReceipt → Contract Bytes
  unfolding receipt_json
  receipt_to_wire r = do verify_receipt lib r; canonicalize lib (receipt_json r)
