-- ===== src/Event.antt =====
-- The signed event and its validation (src/model.rs, src/crypto.rs, `ContractError` of
-- src/error.rs). Identifiers are the numbers whose digits are the bytes of their canonical text, so
-- that the order of the texts is the order of the numbers.
pub mod Json
pub mod Kind
pub mod Body
pub mod Magnitude
pub mod Exact
pub mod Wire
