-- ===== src/Selection/Sources.antt =====
-- The data of a selection (src/selection.rs): errors, budgets, markers, the view of a stored event and
-- the reference to it.
use contextmesh_rs.Common.{ℕ, Bytes, length, Result, ok, ◌>>=◌, map_err}
use contextmesh_rs.Event.Json.{Json}
use contextmesh_rs.Event.Body.{SignedEvent, Libraries, canonical_payload_bytes}

pub data SelectionError : Type 0 where
  empty_task invalid_task budget_exceeded unverifiable_source too_many_candidates selector_error :
      SelectionError

abbrev pub SelectionResult : Type 0 → Type 0
SelectionResult = Result SelectionError

abbrev pub max_selection_candidates : ℕ
max_selection_candidates = 65_536

abbrev pub max_selected_events : ℕ
max_selected_events = 4096

abbrev pub max_selected_bytes : ℕ
max_selected_bytes = 2_097_152

pub record SelectionBudget : Type 0 where
  pub selected_events : ℕ
  pub exported_bytes : ℕ

pub data SelectionMarker : Type 0 where
  no_sources no_match : SelectionMarker

-- The text of a source is its canonical payload, which is UTF-8 already.
pub record SourceEvent : Type 0 where
  pub event : ℕ
  pub context : ℕ
  pub kind : Bytes
  pub author : ℕ
  pub payload : Json
  pub payload_text : Bytes
  pub payload_bytes : ℕ

pub record SourceReference : Type 0 where
  pub event : ℕ
  pub context : ℕ
  pub kind : Bytes
  pub author : ℕ
  pub payload_bytes : ℕ

-- `SourceReference::from_source`
unfoldable pub from_source : SourceEvent → SourceReference
from_source s = record {
  event = s.event;
  context = s.context;
  kind = s.kind;
  author = s.author;
  payload_bytes = s.payload_bytes;
}

-- `SourceEvent::from_signed`
unfoldable pub from_signed : Libraries → SignedEvent → SelectionResult SourceEvent
from_signed lib e = do
  bytes ← map_err (λ _. unverifiable_source) (canonical_payload_bytes lib e.body.payload)
  let source : SourceEvent = record {
    event = e.event_id;
    context = e.body.context;
    kind = e.body.kind;
    author = e.body.author;
    payload = e.body.payload;
    payload_text = bytes;
    payload_bytes = length bytes;
  }
  ok source
