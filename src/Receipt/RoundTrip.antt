-- ===== src/Receipt/RoundTrip.antt =====
-- The wire form of a receipt (`from_wire`, `to_wire`, src/receipt.rs) under the documented behaviour
-- of the libraries, and receipts that are issued.
use contextmesh_rs.Common.{All, true, some}
use contextmesh_rs.Event.Json.{Json, Fields}
use contextmesh_rs.Event.Exact.{IsExact}
use contextmesh_rs.Receipt.{option_json}
use contextmesh_rs.Event.Body.{event_id, context_id, author_id, event_signature, receipt_id}
use contextmesh_rs.Common.{ℕ, ◌≡◌, sym, some, ◌++◌, codes, ==_refl, ok}
use contextmesh_rs.Event.Json
use contextmesh_rs.Event.Json.{
  Contract, Json, Fields, null, end, limit_exceeded, unsupported_version, parent_order,
}
use contextmesh_rs.Event.Body.{Libraries}
use contextmesh_rs.Event.Wire.RoundTrip.{Documented}
use contextmesh_rs.Receipt.{
  ReceiptBody, SignedReceipt, validate_receipt, verify_receipt, verify_receipt_parts,
  derive_receipt_id, issue, verify_domain_message, sign_domain_message, receipt_domain,
}
use contextmesh_rs.Receipt.Wire.{parse_recipient}

-- The identifiers of a receipt are of their types, and the numbers of its structured form are integers.
pub record IsWritableBody (lib : Libraries) (b : ReceiptBody) : Type 0 where
  pub structured : IsExact (option_json b.task.structured)
  pub context : lib.is_id context_id b.context ≡ true
  pub events : All (λ p. lib.is_id event_id p ≡ true) b.events
  pub head : lib.is_id event_id b.head ≡ true
  pub author : lib.is_id author_id b.author ≡ true

pub record IsWritableReceipt (lib : Libraries) (r : SignedReceipt) : Type 0 where
  pub body : IsWritableBody lib r.body
  pub identity : lib.is_id receipt_id r.receipt_id ≡ true
  pub signature : lib.is_id event_signature r.signature ≡ true

module _ (lib : Libraries) (laws : Documented lib) where
  parse_recipient-json :
      (head : ℕ)
      → lib.is_id event_id head ≡ true
      → parse_recipient lib
          (Json.object (Json.field (codes "head") (Json.string (lib.id_text event_id head)) end))
        ≡ ok head
  unfolding parse_recipient
  parse_recipient-json head identity = simp (laws.parse_text event_id head identity)

  signed_receipt_parts :
      (seed id : ℕ) (b : ReceiptBody)
      → validate_receipt lib b ≡ ok tt
      → b.author ≡ lib.public_key seed
      → derive_receipt_id lib b ≡ ok id
      → verify_receipt_parts lib b id (lib.sign seed (receipt_domain lib ++ lib.id_bytes id))
        ≡ ok tt
  unfolding verify_receipt_parts verify_domain_message
  signed_receipt_parts seed id b v a d =
      simp (v, d, ==_refl, a, laws.key_valid, laws.signature_verifies)

  -- The body with its identifier and the signature over it by the seed.
  abbrev pub signed_by : ℕ → ℕ → ReceiptBody → SignedReceipt
  signed_by seed id b = record {
    receipt_id = id;
    body = b;
    signature = lib.sign seed (receipt_domain lib ++ lib.id_bytes id);
  }

  -- A valid body by the author's seed is issued, with the identifier derived from it and the
  -- signature over that, and the receipt verifies.
  pub issue-verify :
      (seed id : ℕ) (b : ReceiptBody)
      → validate_receipt lib b ≡ ok tt
      → b.author ≡ lib.public_key seed
      → derive_receipt_id lib b ≡ ok id
      → (issue lib seed b ≡ ok (signed_by seed id b))
        × (verify_receipt lib (signed_by seed id b) ≡ ok tt)
  unfolding issue verify_receipt sign_domain_message
  issue-verify seed id b v a d =
      let parts = signed_receipt_parts seed id b v a d in
      (simp (v, ==_refl, sym a, d, parts), parts)
