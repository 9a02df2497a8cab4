-- ===== src/Handoff/Valid.antt =====
-- When a handoff is valid (`verify_valid`, src/handoff.rs).
use contextmesh_rs.Common.{
  ℕ, ◌≡◌, refl, ◌↔◌, true, Option, none, some, arith, ◌==◌, ==_iff, Bool-cases, inl, inr, ok, err,
  >>=-eq-ok,
}
use contextmesh_rs.Event.Body.{SignedEvent, Libraries}
use contextmesh_rs.Store.State.{StoreResult, Db}
use contextmesh_rs.Store.Rows.{event}
use contextmesh_rs.Handoff.{Handoff, check_known, check_stated, same_head, verify_valid}

module _ (lib : Libraries) (db : Db) (context : ℕ) where
  -- A head, where there is one, is an event of the store in the context.
  abbrev pub HeadPresent : Option ℕ → Type 0
  HeadPresent none = Unit
  HeadPresent (some head) =
      (e : SignedEvent) × (event lib db head ≡ ok (some e)) × (e.body.context ≡ context)

  check_known_iff :
      (head : ℕ) (r : StoreResult (Option SignedEvent))
      → (check_known context head r ≡ ok tt)
        ↔ ((e : SignedEvent) × (r ≡ ok (some e)) × (e.body.context ≡ context))
  unfolding check_known
  check_known_iff head (ok (some e)) = elim (Bool-cases (e.body.context == context)) [
    | inl same ↦ (λ _. (e, refl, (==_iff e.body.context context).0 same), λ _. rw same refl)
    | inr other ↦ (λ h. ground arith, λ (f, there, inside). ground (arith, there, inside))
  ]
  check_known_iff head (ok none) = (λ h. cc, λ (e, there, _). cc)
  check_known_iff head (err x) = (λ h. cc, λ (e, there, _). cc)

  check_stated_iff :
      (head : Option ℕ) → (check_stated lib db context head ≡ ok tt) ↔ HeadPresent head
  unfolding check_stated
  check_stated_iff none = (λ h. tt, λ h. refl)
  check_stated_iff (some head) = check_known_iff head (event lib db head)

same_head_iff : (a b : Option ℕ) → (same_head a b ≡ true) ↔ (a ≡ b)
unfolding same_head
same_head_iff none none = (λ h. refl, λ h. refl)
same_head_iff none (some b) = (λ h. cc, λ h. cc)
same_head_iff (some a) none = (λ h. cc, λ h. cc)
same_head_iff (some a) (some b) = ground (arith, ==_iff a b)

-- A handoff is valid for a head exactly when it was computed against that head and the store has the
-- head, where there is one, in the context of the handoff.
pub verify_valid_iff :
    (lib : Libraries) (db : Db) (h : Handoff) (current : Option ℕ)
    → (verify_valid lib db h current ≡ ok tt)
      ↔ ((h.delta.recipient_head ≡ current) × HeadPresent lib db h.delta.context current)
unfolding verify_valid
verify_valid_iff lib db h current =
    let context = h.delta.context in
    let (far, near) = check_stated_iff lib db context current in
    let (own, owned) = check_stated_iff lib db context h.delta.recipient_head in
    let (same, sames) = same_head_iff h.delta.recipient_head current in
    (
      λ v.
          let (_, _, h₁) = >>=-eq-ok (check_stated lib db context h.delta.recipient_head) _ v in
          let (u, there, h₂) = >>=-eq-ok (check_stated lib db context current) _ h₁ in
          (same (ground (arith, h₂)), far there),
      λ (e, there).
          let embedded : check_stated lib db context h.delta.recipient_head ≡ ok tt =
            rw e (near there) in
          rw (embedded, near there, sames e) refl,
    )
