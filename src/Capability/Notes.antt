-- ===== src/Capability/Notes.antt =====
-- The notes of a handoff as a set, and the search for an event in a note (src/handoff.rs,
-- src/capability.rs).
use contextmesh_rs.Event.Body.{event_id}
use mathlib.Core.List.Memᴰ
use contextmesh_rs.Common.{
  ◌≡◌, refl, subst, ◌↔◌, ◌⊎◌, inl, inr, ⊎_elim, Bool, true, ◌||◌, List, [], ◌∷◌, ◌++◌, Memᴰ,
  Memᴰ-cons, Memᴰ-concat, arith, Bytes, bytes_eq, bytes_eq_iff, codes, any, Bool-cases, ok, refuse,
  >>=-eq-ok, ltb, length, is_empty,
}
use contextmesh_rs.Event.Body.{Libraries}
use contextmesh_rs.Selection.Sources.{SourceReference}
use contextmesh_rs.Closure.Select.{insert_kind, sort_kinds, dedup_kinds}
use contextmesh_rs.Receipt.{starts_with}
use contextmesh_rs.Handoff.{
  Handoff, with_uncertainty, invalid_state, max_uncertainty_notes, max_note_bytes,
}
use contextmesh_rs.Capability.{has_text, mismatch_note, flags}

Memᴰ-insert_kind :
    (b a : Bytes) (xs : List Bytes) → Memᴰ b (insert_kind a xs) ↔ ((b ≡ a) ⊎ Memᴰ b xs)
unfolding insert_kind
Memᴰ-insert_kind b a [] = Memᴰ-cons b a []
Memᴰ-insert_kind b a (x ∷ xs) = ground (
  arith,
  Memᴰ-insert_kind b a xs,
  Memᴰ-cons b a (x ∷ xs),
  Memᴰ-cons b x xs,
  Memᴰ-cons b x (insert_kind a xs),
)

Memᴰ-sort_kinds : (b : Bytes) (xs : List Bytes) → Memᴰ b (sort_kinds xs) ↔ Memᴰ b xs
unfolding sort_kinds
Memᴰ-sort_kinds b [] = (λ m. m, λ m. m)
Memᴰ-sort_kinds b (x ∷ xs) =
    ground (arith, Memᴰ-sort_kinds b xs, Memᴰ-insert_kind b x (sort_kinds xs), Memᴰ-cons b x xs)

Memᴰ-dedup_kinds : (b : Bytes) (xs : List Bytes) → Memᴰ b (dedup_kinds xs) ↔ Memᴰ b xs
unfolding dedup_kinds
Memᴰ-dedup_kinds b [] = (λ m. m, λ m. m)
Memᴰ-dedup_kinds b (x ∷ []) = (λ m. m, λ m. m)
Memᴰ-dedup_kinds b (x ∷ y ∷ ys) = elim (Bool-cases (bytes_eq x y)) [
  | inl same ↦
      let (both, _) = bytes_eq_iff x y in
      let equal = both same in
      rw same (
        ground
          (arith, Memᴰ-dedup_kinds b (y ∷ ys), Memᴰ-cons b x (y ∷ ys), Memᴰ-cons b y ys, equal))
  | inr other ↦ rw other (
      ground (
        arith,
        Memᴰ-dedup_kinds b (y ∷ ys),
        Memᴰ-cons b x (y ∷ ys),
        Memᴰ-cons b x (dedup_kinds (y ∷ ys)),
      ))
]

-- A handoff with one note more.
pub record Notes (h f : Handoff) (note : Bytes) : Type 0 where
  pub delta : f.delta ≡ h.delta
  pub omissions : f.omissions ≡ h.omissions
  pub re_included : f.re_included ≡ h.re_included
  pub notes : (b : Bytes) → Memᴰ b f.uncertainty ↔ (Memᴰ b h.uncertainty ⊎ (b ≡ note))

pub with_uncertainty-Notes :
    (h f : Handoff) (note : Bytes) → with_uncertainty h note ≡ ok f → Notes h f note
unfolding with_uncertainty
with_uncertainty-Notes h f note e =
    let (_, _, h₁) =
      >>=-eq-ok (refuse (is_empty note || ltb max_note_bytes (length note)) invalid_state) _ e in
    let (_, _, h₂) =
      >>=-eq-ok
        (refuse
          (ltb max_uncertainty_notes
            (length (dedup_kinds (sort_kinds (h.uncertainty ++ (note ∷ []))))))
          invalid_state)
        _ h₁ in
    let made : record h { uncertainty = dedup_kinds (sort_kinds (h.uncertainty ++ (note ∷ []))) }
        ≡ f =
      cc in
    subst (λ (f : Handoff). Notes h f note) made
      (record {
        delta = refl;
        omissions = refl;
        re_included = refl;
        notes = λ b. ground (
          arith,
          Memᴰ-dedup_kinds b (sort_kinds (h.uncertainty ++ (note ∷ []))),
          Memᴰ-sort_kinds b (h.uncertainty ++ (note ∷ [])),
          Memᴰ-concat b note h.uncertainty,
        );
      })

starts_with-append : (p s : Bytes) → starts_with p (p ++ s) ≡ true
unfolding starts_with
starts_with-append [] s = refl
starts_with-append (b ∷ p) s = ground (arith, starts_with-append p s)

has_text-nothing : (s : Bytes) → has_text s [] ≡ true
unfolding has_text starts_with
has_text-nothing [] = refl
has_text-nothing (b ∷ s) = ground arith

has_text-append : (before part rest : Bytes) → has_text (before ++ (part ++ rest)) part ≡ true
unfolding has_text
has_text-append [] [] rest = has_text-nothing rest
has_text-append [] (b ∷ part) rest = rw (starts_with-append (b ∷ part) rest) refl
has_text-append (b ∷ before) part rest = rw (has_text-append before part rest) (ground arith)

any-Memᴰ {ℓ} :
    {A : Type ℓ} (test : A → Bool) (x : A) (xs : List A)
    → Memᴰ x xs
    → test x ≡ true
    → any test xs ≡ true
unfolding any
any-Memᴰ test x [] m passes = absurd (Memᴰ.not-nil m)
any-Memᴰ test x (y ∷ ys) m passes =
    ⊎_elim (λ e. rw (← e, passes) refl) (λ n. rw (any-Memᴰ test x ys n passes) (ground arith))
      ((Memᴰ-cons x y ys).0 m)

-- The note of a mismatch flags its event.
pub flags-mismatch_note :
    (lib : Libraries) (notes : List Bytes) (r : SourceReference)
    → Memᴰ (mismatch_note lib r) notes
    → flags lib notes r.event ≡ true
unfolding flags
flags-mismatch_note lib notes r m = any-Memᴰ _ (mismatch_note lib r) notes m (
    rw
      (has_text-append (codes "capability mismatch: event ") (lib.id_text event_id r.event)
        (codes " kind " ++ r.kind))
      refl)
