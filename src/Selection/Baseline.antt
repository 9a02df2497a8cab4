-- ===== src/Selection/Baseline.antt =====
-- The baseline selector (src/selection.rs): its tokens, its scores and its ranking.
use contextmesh_rs.Common.{
  ℕ, ◌+◌, Bool, ◌&&◌, ◌||◌, List, [], ◌∷◌, ◌++◌, map, Bytes, codes, bytes_eq, ◌==◌, ltb, leb,
  if◌then◌else◌, is_empty, keep, ok, ◌>>◌, refuse,
}
use contextmesh_rs.Event.Body.{Libraries}
use contextmesh_rs.Receipt.{TaskRecord, task_content_hash}
use contextmesh_rs.Selection.Sources.{
  SelectionResult, SourceEvent, SourceReference, from_source, empty_task,
}

-- The trait `Selector`.
pub record Selector : Type 0 where
  pub identity : Bytes
  pub version : Bytes
  pub config_hash : Bytes
  pub select : TaskRecord → List SourceEvent → SelectionResult (List SourceReference)

abbrev pub is_upper : ℕ → Bool
is_upper c = leb b'A' c && leb c b'Z'

-- `is_ascii_alphanumeric`
abbrev pub is_word : ℕ → Bool
is_word c = (leb b'a' c && leb c b'z') || (is_upper c || leb b'0' c && leb c b'9')

-- `to_ascii_lowercase`
abbrev pub lower : ℕ → ℕ
lower c = if is_upper c then c + 32 else c

-- The loop of `tokenize` over the bytes, with `current`: the bytes of a character beyond ASCII are no
-- words, as the character is not.
unfoldable pub tokenize_from : Bytes → Bytes → List Bytes
tokenize_from current [] = if is_empty current then [] else current ∷ []
tokenize_from current (c ∷ cs) =
    let longer = tokenize_from (current ++ (lower c ∷ [])) cs in
    let next = tokenize_from [] cs in
    if is_word c then longer else if is_empty current then next else current ∷ next

unfoldable pub tokenize : Bytes → List Bytes
unfolding tokenize_from
tokenize s = tokenize_from [] s

-- `tokens.iter().filter(|token| *token == term).count()`
unfoldable pub occurrences : Bytes → List Bytes → ℕ
occurrences term [] = 0
occurrences term (t ∷ ts) = (if bytes_eq t term then 1 else 0) + occurrences term ts

unfoldable pub sum_occurrences : List Bytes → List Bytes → ℕ
unfolding occurrences
sum_occurrences [] tokens = 0
sum_occurrences (t ∷ ts) tokens = occurrences t tokens + sum_occurrences ts tokens

unfoldable pub score_source : List Bytes → SourceEvent → ℕ
unfolding tokenize sum_occurrences
score_source terms s = sum_occurrences terms (tokenize (s.kind ++ (b' ' ∷ s.payload_text)))

pub record Scored : Type 0 where
  pub score : ℕ
  pub source : SourceEvent

-- The comparison of `sort_by` is not `Greater`: a higher score first, then the lower identifier.
abbrev pub ranks_before : Scored → Scored → Bool
ranks_before a b = ltb b.score a.score || a.score == b.score && leb a.source.event b.source.event

-- `sort_by`, which keeps the order of what compares equal.
unfoldable pub insert_ranked : Scored → List Scored → List Scored
insert_ranked a [] = a ∷ []
insert_ranked a (b ∷ bs) =
    let rest = insert_ranked a bs in if ranks_before a b then a ∷ b ∷ bs else b ∷ rest

unfoldable pub sort_ranked : List Scored → List Scored
unfolding insert_ranked
sort_ranked [] = []
sort_ranked (a ∷ as') = insert_ranked a (sort_ranked as')

abbrev pub with_score : List Bytes → SourceEvent → Scored
with_score terms s = record { score = score_source terms s; source = s }

-- The sources that `select` returns references to, in their order.
unfoldable pub ranked : List Bytes → List SourceEvent → List Scored
unfolding sort_ranked keep
ranked terms sources =
    keep (λ (a : Scored). ltb 0 a.score) (sort_ranked (map (with_score terms) sources))

-- `BaselineSelector::select`
unfoldable pub baseline_select :
    TaskRecord → List SourceEvent → SelectionResult (List SourceReference)
unfolding ranked
baseline_select task sources = do
  let terms = tokenize task.verbatim
  refuse (is_empty terms) empty_task
  ok (map (λ (a : Scored). from_source a.source) (ranked terms sources))

-- `BaselineSelector` at a version
unfoldable pub baseline : Libraries → Bytes → Selector
baseline lib version = record {
  identity = codes "ob-baseline-lexical-tf";
  version = version;
  config_hash = task_content_hash lib (codes "{}");
  select = baseline_select;
}
