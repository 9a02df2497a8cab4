-- ===== src/Selection/Select.antt =====
-- `select_sources` (src/selection.rs): a task, a budget and a selector over candidates of the store.
use contextmesh_rs.Common.{
  ℕ, Bool, true, false, ◌&&◌, ◌||◌, Option, none, some, List, [], ◌∷◌, Bytes, codes, ◌==◌, ltb, leb,
  if◌then◌else◌, length, is_empty, sort_dedup, ok, err, ◌>>=◌, ◌>>◌, refuse, map_err,
}
use contextmesh_rs.Event.Json.{Json}
use contextmesh_rs.Event.Body.{SignedEvent, Libraries}
use contextmesh_rs.Store.State.{StoreResult, Db}
use contextmesh_rs.Store.Rows.{event}
use contextmesh_rs.Receipt.{TaskRecord, SelectorRecord, task_from_verbatim, new_selector}
use contextmesh_rs.Selection.Sources.{
  SelectionResult, SelectionBudget, SelectionMarker, SourceEvent, SourceReference, from_signed,
  empty_task, invalid_task, unverifiable_source, too_many_candidates, selector_error, no_sources,
  no_match, max_selection_candidates,
}
use contextmesh_rs.Selection.Baseline.{Selector}
use contextmesh_rs.Compiler.{CompiledContext, compile_context}

-- `SelectionResult`
pub record Selected : Type 0 where
  pub context : CompiledContext
  pub marker : Option SelectionMarker
  pub uncertainty : List Bytes
  pub selector : SelectorRecord

-- The bytes that have been read of a white space character of more than one byte in UTF-8.
pub data Space : Type 0 where
  fresh c2 e1 e1_9a e2 e2_80 e2_81 e3 e3_80 stuck : Space

-- U+0009 to U+000D and the space, U+0085, U+00A0, U+1680, U+2000 to U+200A, U+2028, U+2029, U+202F,
-- U+205F and U+3000.
unfoldable pub space_step : Space → ℕ → Space
space_step fresh b =
    if b == 0x20 || leb 9 b && leb b 13
    then fresh
    else if b == 0xc2
    then c2
    else if b == 0xe1
    then e1
    else if b == 0xe2
    then e2
    else if b == 0xe3
    then e3
    else stuck
space_step c2 b = if b == 0x85 || b == 0xa0 then fresh else stuck
space_step e1 b = if b == 0x9a then e1_9a else stuck
space_step e1_9a b = if b == 0x80 then fresh else stuck
space_step e2 b = if b == 0x80 then e2_80 else if b == 0x81 then e2_81 else stuck
space_step e2_80 b =
    if leb 0x80 b && leb b 0x8a || (b == 0xa8 || (b == 0xa9 || b == 0xaf)) then fresh else stuck
space_step e2_81 b = if b == 0x9f then fresh else stuck
space_step e3 b = if b == 0x80 then e3_80 else stuck
space_step e3_80 b = if b == 0x80 then fresh else stuck
space_step stuck b = stuck

unfoldable pub all_space : Space → Bytes → Bool
unfolding space_step
all_space fresh [] = true
all_space _ [] = false
all_space s (b ∷ bs) = all_space (space_step s b) bs

-- `text.trim().is_empty()`
unfoldable pub is_blank : Bytes → Bool
unfolding all_space
is_blank s = all_space fresh s

-- `match store.event(*id).await`
unfoldable pub load_source :
    Libraries → StoreResult (Option SignedEvent) → SelectionResult SourceEvent
load_source lib (ok (some e)) = from_signed lib e
load_source lib (ok none) = err unverifiable_source
load_source lib (err x) = err selector_error

-- The loop over the candidates.
unfoldable pub load_sources : Libraries → Db → List ℕ → SelectionResult (List SourceEvent)
unfolding load_source
load_sources lib db [] = ok []
load_sources lib db (id ∷ ids) = do
  source ← load_source lib (event lib db id)
  sources ← load_sources lib db ids
  ok (source ∷ sources)

-- `NO_SOURCES_NOTE` and `NO_MATCH_NOTE`
abbrev pub no_sources_note : Bytes
no_sources_note = codes "no sources in context history"

abbrev pub no_match_note : Bytes
no_match_note = codes "no source matches the task"

-- The two ends of `select_sources`: without candidates, and behind the ranking.
unfoldable pub select_nothing : SelectionBudget → SelectorRecord → SelectionResult Selected
select_nothing budget provenance = do
  context ← compile_context [] budget
  let result : Selected = record {
    context = context;
    marker = some no_sources;
    uncertainty = no_sources_note ∷ [];
    selector = provenance;
  }
  ok result

unfoldable pub select_ranked :
    SelectionBudget → SelectorRecord → List SourceReference → SelectionResult Selected
select_ranked budget provenance references = do
  context ← compile_context references budget
  let result : Selected = record {
    context = context;
    marker = if is_empty references then some no_match else none;
    uncertainty = if is_empty references then no_match_note ∷ [] else [];
    selector = provenance;
  }
  ok result

unfoldable pub select_from :
    Libraries
    → Db
    → TaskRecord
    → SelectionBudget
    → Selector
    → SelectorRecord
    → List ℕ
    → SelectionResult Selected
unfolding load_sources select_ranked select_nothing
select_from lib db task budget selector provenance [] = select_nothing budget provenance
select_from lib db task budget selector provenance (id ∷ ids) = do
  sources ← load_sources lib db (id ∷ ids)
  references ← selector.select task sources
  select_ranked budget provenance references

unfoldable pub select_sources :
    Libraries
    → Db
    → Bytes
    → Option Json
    → SelectionBudget
    → Selector
    → List ℕ
    → SelectionResult Selected
unfolding is_blank select_from
select_sources lib db task_text structured budget selector candidates = do
  refuse (is_blank task_text) empty_task
  task ← map_err (λ _. invalid_task) (task_from_verbatim lib task_text structured)
  let ids = sort_dedup candidates
  refuse (ltb max_selection_candidates (length ids)) too_many_candidates
  provenance ←
      map_err (λ _. selector_error)
        (new_selector selector.identity selector.version selector.config_hash)
  select_from lib db task budget selector provenance ids
