-- ===== src/Receipt.antt =====
-- Receipts (src/receipt.rs): the records of a task and of a selector, the body and its checks, the
-- issue and the verification of a signed receipt. The wire form is in Wire, the check against a
-- store in Dag, the timestamps are in Time.
pub mod Time
pub mod Calendar
pub mod Stamp
pub mod Wire
pub mod Plain
pub mod RoundTrip
pub mod Dag
use contextmesh_rs.Event.Body.{IdKind, event_id, context_id, author_id, event_signature, receipt_id}
use contextmesh_rs.Common.{
  ℕ, ◌+◌, ◌-◌, ◌*◌, ◌/◌, ◌%◌, ◌≤◌, ◌≡◌, Bool, true, false, not, ◌&&◌, ◌||◌, Option, none, some,
  List, [], ◌∷◌, ◌++◌, arith, Bytes, codes, ◌==◌, ltb, if◌then◌else◌, length, is_empty, any,
  out_of_order, IsAscending, out_of_order-IsAscending, ok, err, ◌>>=◌, ◌>>◌, refuse,
}
use contextmesh_rs.Event.Json
use contextmesh_rs.Event.Json.{
  ContractError, Contract, Json, Items, Fields, validate_json_value, unsupported_version,
  limit_exceeded, parent_order, invalid_encoding, author_mismatch, id_mismatch, signature_invalid,
}
use contextmesh_rs.Event.Body.{Libraries, items, canonicalize, canonical_payload_bytes}
use contextmesh_rs.Receipt.Time.{valid_utc_timestamp}

abbrev pub receipt_version : ℕ
receipt_version = 1

abbrev pub max_receipt_events : ℕ
max_receipt_events = 4096

abbrev pub max_task_bytes : ℕ
max_task_bytes = 65_536

abbrev pub max_selector_identity_bytes : ℕ
max_selector_identity_bytes = 128

abbrev pub max_selector_version_bytes : ℕ
max_selector_version_bytes = 64

abbrev pub max_selector_config_hash_bytes : ℕ
max_selector_config_hash_bytes = 128

abbrev pub max_receipt_note_bytes : ℕ
max_receipt_note_bytes = 512

abbrev pub max_receipt_notes : ℕ
max_receipt_notes = 4096

abbrev pub max_receipt_wire_bytes : ℕ
max_receipt_wire_bytes = 2_097_152

pub record TaskRecord : Type 0 where
  pub verbatim : Bytes
  pub content_hash : Bytes
  pub structured : Option Json

pub record SelectorRecord : Type 0 where
  pub identity : Bytes
  pub version : Bytes
  pub config_hash : Bytes

pub record ReceiptBody : Type 0 where
  pub version : ℕ
  pub context : ℕ
  pub events : List ℕ
  pub task : TaskRecord
  pub head : ℕ
  pub selector : SelectorRecord
  pub omissions : List Bytes
  pub uncertainty : List Bytes
  pub created_at : Bytes
  pub author : ℕ

pub record SignedReceipt : Type 0 where
  pub receipt_id : ℕ
  pub body : ReceiptBody
  pub signature : ℕ

-- `bytes.is_empty() || bytes.len() > max`
abbrev pub out_of_bound : ℕ → Bytes → Bool
out_of_bound bound s = is_empty s || ltb bound (length s)

-- `text.starts_with(prefix)`
unfoldable pub starts_with : Bytes → Bytes → Bool
starts_with [] s = true
starts_with (p ∷ ps) [] = false
starts_with (p ∷ ps) (b ∷ s) = p == b && starts_with ps s

-- `{byte:02x}`
abbrev pub hex_digit : ℕ → ℕ
hex_digit n = if ltb n 10 then b'0' + n else b'a' + n - 10

unfoldable pub hex : Bytes → Bytes
hex [] = []
hex (b ∷ bs) = hex_digit (b / 16) ∷ hex_digit (b % 16) ∷ hex bs

-- `SelectorRecordV1::validate`
unfoldable pub validate_selector : SelectorRecord → Contract (Unit {0})
validate_selector s = do
  refuse (out_of_bound max_selector_identity_bytes s.identity) limit_exceeded
  refuse (out_of_bound max_selector_version_bytes s.version) limit_exceeded
  refuse (out_of_bound max_selector_config_hash_bytes s.config_hash) limit_exceeded

-- `SelectorRecordV1::new`
unfoldable pub new_selector : Bytes → Bytes → Bytes → Contract SelectorRecord
new_selector identity version config_hash = do
  let selector : SelectorRecord = record {
    identity = identity;
    version = version;
    config_hash = config_hash;
  }
  validate_selector selector
  ok selector

abbrev pub texts : List Bytes → Items
texts [] = Json.nil
texts (s ∷ ss) = Json.cons (Json.string s) (texts ss)

-- `Option<Value>`, which serializes `None` as null.
abbrev pub option_json : Option Json → Json
option_json none = Json.null
option_json (some j) = j

-- `Serialize` of the records, in the key order of the canonical form.
unfoldable pub task_json : TaskRecord → Json
task_json t = Json.object (
    Json.field (codes "content_hash") (Json.string t.content_hash) (
      Json.field (codes "structured") (option_json t.structured)
        (Json.field (codes "verbatim") (Json.string t.verbatim) Json.end)))

unfoldable pub selector_json : SelectorRecord → Json
selector_json s = Json.object (
    Json.field (codes "config_hash") (Json.string s.config_hash) (
      Json.field (codes "identity") (Json.string s.identity)
        (Json.field (codes "version") (Json.string s.version) Json.end)))

module _ (lib : Libraries) where
  -- `task_content_hash`
  unfoldable pub task_content_hash : Bytes → Bytes
  unfolding hex
  task_content_hash s = codes "blake3_" ++ hex (lib.hash s)

  unfoldable pub validate_structured : Option Json → Contract (Unit {0})
  validate_structured none = ok tt
  validate_structured (some j) = do
    validate_json_value j 1
    bytes ← canonical_payload_bytes lib j
    ok tt

  -- `TaskRecordV1::validate`
  unfoldable pub validate_task : TaskRecord → Contract (Unit {0})
  validate_task t = do
    refuse (out_of_bound max_task_bytes t.verbatim) limit_exceeded
    refuse (is_empty t.content_hash || not (starts_with (codes "blake3_") t.content_hash))
        invalid_encoding
    validate_structured t.structured

  -- `TaskRecordV1::new`
  unfoldable pub new_task : Bytes → Bytes → Option Json → Contract TaskRecord
  new_task verbatim content_hash structured = do
    let task : TaskRecord = record {
      verbatim = verbatim;
      content_hash = content_hash;
      structured = structured;
    }
    validate_task task
    ok task

  -- `TaskRecordV1::from_verbatim`
  unfoldable pub task_from_verbatim : Bytes → Option Json → Contract TaskRecord
  unfolding new_task
  task_from_verbatim verbatim structured = new_task verbatim (task_content_hash verbatim) structured

  unfoldable pub receipt_body_json : ReceiptBody → Json
  receipt_body_json b = Json.object (
      Json.field (codes "author") (Json.string (lib.id_text author_id b.author)) (
        Json.field (codes "context") (Json.string (lib.id_text context_id b.context)) (
          Json.field (codes "created_at") (Json.string b.created_at) (
            Json.field (codes "events") (Json.array (items (lib.id_text event_id) b.events)) (
              Json.field (codes "omissions") (Json.array (texts b.omissions)) (
                Json.field (codes "recipient")
                  (Json.object (
                    Json.field (codes "head") (Json.string (lib.id_text event_id b.head)) Json.end))
                  (Json.field (codes "selector") (selector_json b.selector) (
                    Json.field (codes "task") (task_json b.task) (
                      Json.field (codes "uncertainty") (Json.array (texts b.uncertainty)) (
                        Json.field (codes "version") (Json.number (Json.unsigned b.version))
                          Json.end))))))))))

  -- `ReceiptBodyV1::validate`
  unfoldable pub validate_receipt : ReceiptBody → Contract (Unit {0})
  validate_receipt b = do
    refuse (not (b.version == receipt_version)) unsupported_version
    refuse (ltb max_receipt_events (length b.events)) limit_exceeded
    refuse (out_of_order b.events) parent_order
    validate_task b.task
    validate_selector b.selector
    refuse (ltb max_receipt_notes (length b.omissions + length b.uncertainty)) limit_exceeded
    refuse (any (out_of_bound max_receipt_note_bytes) (b.omissions ++ b.uncertainty)) limit_exceeded
    refuse (not (valid_utc_timestamp b.created_at)) invalid_encoding
    canonical ← canonicalize lib (receipt_body_json b)
    refuse (ltb max_receipt_wire_bytes (length canonical)) limit_exceeded

  -- `ReceiptBodyV1::canonical_bytes`
  unfoldable pub receipt_canonical_bytes : ReceiptBody → Contract Bytes
  receipt_canonical_bytes b = do validate_receipt b; canonicalize lib (receipt_body_json b)

  unfoldable pub derive_receipt_id : ReceiptBody → Contract ℕ
  derive_receipt_id b = do
    canonical ← receipt_canonical_bytes b
    ok (lib.derive_key (codes "org.aaif.contextmesh.receipt-id.v1") canonical)

  -- `RECEIPT_SIGNATURE_DOMAIN`, a zero byte at its end.
  abbrev pub receipt_domain : Bytes
  receipt_domain = codes "org.aaif.contextmesh.receipt-signature.v1" ++ (0 ∷ [])

  -- `SigningIdentity::sign_domain_message`
  unfoldable pub sign_domain_message : ℕ → Bytes → Bytes → ℕ
  sign_domain_message seed domain message = lib.sign seed (domain ++ message)

  unfoldable pub verify_domain_message : ℕ → Bytes → Bytes → ℕ → Contract (Unit {0})
  verify_domain_message author domain message signature = do
    refuse (not (lib.valid_key author)) signature_invalid
    refuse (not (lib.verify_strict author (domain ++ message) signature)) signature_invalid

  -- `verify_parts`
  unfoldable pub verify_receipt_parts : ReceiptBody → ℕ → ℕ → Contract (Unit {0})
  unfolding verify_domain_message
  verify_receipt_parts b supplied signature = do
    validate_receipt b
    expected ← derive_receipt_id b
    refuse (not (supplied == expected)) id_mismatch
    verify_domain_message b.author receipt_domain (lib.id_bytes supplied) signature

  -- `SignedReceiptV1::verify`
  unfoldable pub verify_receipt : SignedReceipt → Contract (Unit {0})
  verify_receipt r = verify_receipt_parts r.body r.receipt_id r.signature

  -- `SignedReceiptV1::issue`
  unfoldable pub issue : ℕ → ReceiptBody → Contract SignedReceipt
  unfolding sign_domain_message
  issue seed b = do
    validate_receipt b
    refuse (not (b.author == lib.public_key seed)) author_mismatch
    id ← derive_receipt_id b
    let receipt : SignedReceipt = record {
      receipt_id = id;
      body = b;
      signature = sign_domain_message seed receipt_domain (lib.id_bytes id);
    }
    verify_receipt receipt
    ok receipt

  -- `ReceiptBodyV1::new`
  unfoldable pub new_receipt_body :
      ℕ
      → List ℕ
      → TaskRecord
      → ℕ
      → SelectorRecord
      → List Bytes
      → List Bytes
      → Bytes
      → ℕ
      → Contract ReceiptBody
  new_receipt_body context events task head selector omissions uncertainty created_at author = do
    let body : ReceiptBody = record {
      version = receipt_version;
      context = context;
      events = events;
      task = task;
      head = head;
      selector = selector;
      omissions = omissions;
      uncertainty = uncertainty;
      created_at = created_at;
      author = author;
    }
    validate_receipt body
    ok body
