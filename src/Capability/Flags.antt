-- ===== src/Capability/Flags.antt =====
-- What `shape_handoff` flags and `verify_handoff` accepts (src/capability.rs).
use mathlib.Core.List.Memᴰ
use mathlib.Core.List.{append_assoc, append-nil}
use contextmesh_rs.Common.{
  ℕ, ◌+◌, ◌≡◌, refl, sym, ap, subst, ◌∙◌, ◌↔◌, ◌⊎◌, inl, inr, ⊎_elim, true, false, not, List, [],
  ◌∷◌, ◌++◌, map, Memᴰ, Memᴰ-cons, arith, Bytes, keep, length, Bool-cases, ok, refuse, map_err,
  >>=-eq-ok, ltb,
}
use contextmesh_rs.Event.Body.{Libraries}
use contextmesh_rs.Store.State.{Db}
use contextmesh_rs.Selection.Sources.{SourceReference}
use contextmesh_rs.Handoff.{Handoff, with_uncertainty}
use contextmesh_rs.Capability.{
  RecipientCapabilities, CapabilityMismatch, ShapedHandoff, covers, mismatch, mismatch_note,
  sort_mismatches, shape, shape_handoff, flags, check_omissions, check_references, verify_handoff,
  handoff, note_too_long, max_mismatch_note_bytes,
}
use contextmesh_rs.Capability.Notes.{Notes, with_uncertainty-Notes, flags-mismatch_note}

-- The references that a recipient cannot act on.
abbrev pub uncovered : RecipientCapabilities → List SourceReference → List SourceReference
uncovered caps = keep (λ (r : SourceReference). not (covers caps r.kind))

-- A handoff that has got the notes of these references.
pub record Flagged (lib : Libraries) (h f : Handoff) (rs : List SourceReference) : Type 0 where
  pub delta : f.delta ≡ h.delta
  pub omissions : f.omissions ≡ h.omissions
  pub re_included : f.re_included ≡ h.re_included
  pub notes :
      (b : Bytes)
      → Memᴰ b f.uncertainty ↔ (Memᴰ b h.uncertainty ⊎ Memᴰ b (map (mismatch_note lib) rs))

module _ (lib : Libraries) (caps : RecipientCapabilities) where
  Flagged-cons :
      (h g f : Handoff) (r : SourceReference) (rs : List SourceReference)
      → Notes h g (mismatch_note lib r)
      → Flagged lib g f rs
      → Flagged lib h f (r ∷ rs)
  Flagged-cons h g f r rs one rest = record {
    delta = rest.delta ∙ one.delta;
    omissions = rest.omissions ∙ one.omissions;
    re_included = rest.re_included ∙ one.re_included;
    notes = λ b. ground (
      arith,
      rest.notes b,
      one.notes b,
      Memᴰ-cons b (mismatch_note lib r) (map (mismatch_note lib) rs),
    );
  }

  shape-Flagged :
      (rs : List SourceReference) (h f : Handoff) (ms ns : List CapabilityMismatch)
      → shape lib caps rs h ms ≡ ok (f, ns)
      → Flagged lib h f (uncovered caps rs) × (ns ≡ ms ++ map mismatch (uncovered caps rs))
  unfolding shape keep
  shape-Flagged [] h f ms ns e =
      let same : h ≡ f = cc in
      let kept : ms ≡ ns = cc in
      (
        subst (λ (f : Handoff). Flagged lib h f []) same
            (record {
              delta = refl;
              omissions = refl;
              re_included = refl;
              notes = λ b. (inl, ⊎_elim (λ m. m) (λ n. absurd (Memᴰ.not-nil n)));
            }),
        sym kept ∙ sym (append-nil ms),
      )
  shape-Flagged (r ∷ rs) h f ms ns e = elim (Bool-cases (covers caps r.kind)) [
    | inl covered ↦ rw covered (shape-Flagged rs h f ms ns (rw (covered, shape) at e))
    | inr open_kind ↦
        let e' = rw (open_kind, shape) at e in
        let (_, _, e₁) =
          >>=-eq-ok
            (refuse (ltb max_mismatch_note_bytes (length (mismatch_note lib r))) note_too_long) _
            e' in
        let (g, adds, e₂) =
          >>=-eq-ok (map_err handoff (with_uncertainty h (mismatch_note lib r))) _ e₁ in
        let made : with_uncertainty h (mismatch_note lib r) ≡ ok g = ground (arith, adds) in
        let (flagged, counted) = shape-Flagged rs g f (ms ++ (mismatch r ∷ [])) ns e₂ in
        rw open_kind (
          Flagged-cons h g f r (uncovered caps rs)
              (with_uncertainty-Notes h g (mismatch_note lib r) made) flagged,
          counted ∙ append_assoc ms (mismatch r ∷ []) (map mismatch (uncovered caps rs)),
        )
  ]

  -- Each reference that the recipient cannot act on has a note.
  abbrev AllFlagged : List Bytes → List SourceReference → Type 0
  AllFlagged notes rs =
      (r : SourceReference)
      → Memᴰ r rs
      → covers caps r.kind ≡ false
      → flags lib notes r.event ≡ true

  check_references_lem :
      (notes : List Bytes) (rs : List SourceReference) (checked n : ℕ)
      (ms : List CapabilityMismatch)
      → AllFlagged notes rs
      → checked + length rs ≡ n
      → check_references lib caps notes rs checked ms
        ≡ ok (n, ms ++ map mismatch (uncovered caps rs))
  unfolding check_references keep
  check_references_lem notes [] checked n ms flagged count =
      let same : checked ≡ n = omega (arith, count) in rw (append-nil ms, same) refl
  check_references_lem notes (r ∷ rs) checked n ms flagged count =
      let later : AllFlagged notes rs = λ q m. flagged q (Memᴰ.tail m) in
      let counts : checked + 1 + length rs ≡ n = omega (arith, count) in
      elim (Bool-cases (covers caps r.kind)) [
        | inl covered ↦
            rw (covered, check_references)
              (check_references_lem notes rs (checked + 1) n ms later counts)
        | inr open_kind ↦
            let flag = flagged r (Memᴰ.head refl) open_kind in
            let rest =
              check_references_lem notes rs (checked + 1) n (ms ++ (mismatch r ∷ [])) later
                counts in
            rw (open_kind, flag, check_references)
              (rest
                ∙ ap (λ (ns : List CapabilityMismatch). ok (n, ns))
                    (append_assoc ms (mismatch r ∷ []) (map mismatch (uncovered caps rs))))
      ]

  Memᴰ-notes :
      (r : SourceReference) (rs : List SourceReference)
      → Memᴰ r rs
      → covers caps r.kind ≡ false
      → Memᴰ (mismatch_note lib r) (map (mismatch_note lib) (uncovered caps rs))
  unfolding keep
  Memᴰ-notes r [] m o = absurd (Memᴰ.not-nil m)
  Memᴰ-notes r (q ∷ rs) m o =
      ⊎_elim (λ e. rw (← e, o) (Memᴰ.head refl))
        (λ n. elim (Bool-cases (covers caps q.kind)) [
          | inl covered ↦ rw covered (Memᴰ-notes r rs n o)
          | inr open_kind ↦ rw open_kind (Memᴰ.tail (Memᴰ-notes r rs n o))
        ])
        ((Memᴰ-cons r q rs).0 m)

  -- Shaping keeps the delta, the omissions and the re-inclusions of a handoff, adds exactly the notes of
  -- the carried references that the recipient cannot act on, and reports these references.
  pub shape_handoff-Flagged :
      (h : Handoff) (s : ShapedHandoff)
      → shape_handoff lib h caps ≡ ok s
      → Flagged lib h s.handoff (uncovered caps h.delta.references)
        × (s.report.mismatches ≡ sort_mismatches (map mismatch (uncovered caps h.delta.references)))
  unfolding shape_handoff
  shape_handoff-Flagged h s e =
      let ((f, ms), shapes, e₁) = >>=-eq-ok (shape lib caps h.delta.references h []) _ e in
      let (flagged, counted) = shape-Flagged h.delta.references h f [] ms shapes in
      let same : f ≡ s.handoff = ground (arith, e₁) in
      let report : sort_mismatches ms ≡ s.report.mismatches = ground (arith, e₁) in
      (
        subst (λ (f : Handoff). Flagged lib h f (uncovered caps h.delta.references)) same flagged,
        sym report ∙ ap sort_mismatches counted,
      )

  -- A shaped handoff verifies against any store whose check of its omissions passes: the check counts every
  -- reference and finds the mismatches that the shaping reported.
  pub verify_handoff-shape_handoff :
      (db : Db) (h : Handoff) (s : ShapedHandoff) (n : ℕ)
      → shape_handoff lib h caps ≡ ok s
      → check_omissions lib db caps h.omissions 0 ≡ ok n
      → verify_handoff lib db s.handoff caps
        ≡ ok (record {
          valid = true;
          checked = n + length h.delta.references;
          mismatches = s.report.mismatches;
        })
  unfolding verify_handoff
  verify_handoff-shape_handoff db h s n shapes passes =
      let (flagged, report) = shape_handoff-Flagged h s shapes in
      let all : AllFlagged s.handoff.uncertainty h.delta.references = λ r m o.
        flags-mismatch_note lib s.handoff.uncertainty r
          ((flagged.notes (mismatch_note lib r)).1 (inr (Memᴰ-notes r h.delta.references m o))) in
      let finds =
        check_references_lem s.handoff.uncertainty h.delta.references n
          (n + length h.delta.references) [] all refl in
      rw (flagged.omissions, flagged.delta, passes, finds, report) refl
