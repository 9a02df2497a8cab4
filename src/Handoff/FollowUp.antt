-- ===== src/Handoff/FollowUp.antt =====
-- What a follow-up does with the omissions of a handoff (`follow_up`, src/handoff.rs).
use contextmesh_rs.Common.{
  ◌≡◌, refl, sym, ap, subst, ◌⊎◌, inl, inr, not, [], ◌∷◌, ◌++◌, Memᴰ, Memᴰ-keep, ◌∙◌, arith,
  Bool-cases, any, sort, ok, refuse, map_err, >>=-eq-ok,
}
use contextmesh_rs.Event.Body.{Libraries}
use contextmesh_rs.Store.State.{Db}
use contextmesh_rs.Closure.Select.{ClosedSelection, binary_search}
use contextmesh_rs.Closure.Closes.{binary_search-Memᴰ}
use contextmesh_rs.Delta.{RecipientState}
use contextmesh_rs.Delta.Compute.{
  Delta, compute_delta, reference_events, IsDelta, compute_delta-IsDelta,
}
use contextmesh_rs.Handoff.{
  Handoff, Omission, OmissionChallenge, events, omits, from_delta, carry_over, verify_valid,
  follow_up, delta, unknown_omission, invalid_state,
}
use contextmesh_rs.Handoff.Valid.{verify_valid_iff}

from_delta_delta : (d : Delta) (h : Handoff) → from_delta d ≡ ok h → h.delta ≡ d
unfolding from_delta
from_delta_delta d h e = ground (arith, e)

-- A follow-up to a challenge: over a delta for the recipient that carries the challenged event, with the
-- challenge recorded behind the earlier ones, and no omission lost: each is listed still or carried.
pub record FollowsUp (closed : ClosedSelection) (recipient : RecipientState) (c : OmissionChallenge)
    (h f : Handoff) : Type 0 where
  pub computed : IsDelta closed recipient f.delta
  pub bound : h.delta.recipient_head ≡ recipient.head
  pub carried : Memᴰ c.event (events f)
  pub recorded : f.re_included ≡ h.re_included ++ (record { event = c.event; challenge = c } ∷ [])
  pub notes : f.uncertainty ≡ h.uncertainty
  pub kept : (o : Omission) → Memᴰ o h.omissions → Memᴰ o f.omissions ⊎ Memᴰ o.event (events f)
  pub listed : (o : Omission) → Memᴰ o f.omissions → Memᴰ o h.omissions

-- What `follow_up` returns is a follow-up to the challenge.
pub follow_up-FollowsUp :
    (lib : Libraries) (db : Db) (h f : Handoff) (closed : ClosedSelection)
    (recipient : RecipientState) (c : OmissionChallenge)
    → follow_up lib db h closed recipient c ≡ ok f
    → FollowsUp closed recipient c h f
unfolding follow_up
follow_up-FollowsUp lib db h f closed recipient c e =
    let (u, valid, h₁) = >>=-eq-ok (verify_valid lib db h recipient.head) _ e in
    let (_, _, h₂) =
      >>=-eq-ok (refuse (not (any (omits c.event) h.omissions)) (unknown_omission c.event)) _ h₁ in
    let (_, _, h₃) =
      >>=-eq-ok
        (refuse (not (binary_search (sort (reference_events closed.references)) c.event))
          invalid_state)
        _ h₂ in
    let (d, computes, h₄) =
      >>=-eq-ok (map_err delta (compute_delta lib db closed recipient)) _ h₃ in
    let (_, sends, h₅) =
      >>=-eq-ok (refuse (not (binary_search (reference_events d.references) c.event)) invalid_state)
        _ h₄ in
    let (fresh, starts, h₆) = >>=-eq-ok (from_delta d) _ h₅ in
    let same : carry_over h d c fresh ≡ f = cc in
    let fresh_delta = from_delta_delta d fresh starts in
    let sent : f.delta ≡ d = ap (λ (f : Handoff). f.delta) (sym same) ∙ fresh_delta in
    let made : compute_delta lib db closed recipient ≡ ok d = ground (arith, computes) in
    let there : Memᴰ c.event (reference_events d.references) =
      binary_search-Memᴰ (reference_events d.references) c.event (ground (arith, sends)) in
    let lists = λ (o : Omission).
      Memᴰ-keep (λ (o : Omission). not (binary_search (reference_events d.references) o.event)) o
        h.omissions in
    let omissions = ap (λ (f : Handoff). f.omissions) same in
    record {
      computed = rw sent (compute_delta-IsDelta lib db closed recipient d made);
      bound = ((verify_valid_iff lib db h recipient.head).0 valid).0;
      carried = rw sent there;
      recorded = ap (λ (f : Handoff). f.re_included) (sym same);
      notes = ap (λ (f : Handoff). f.uncertainty) (sym same);
      kept = λ o m. elim (Bool-cases (binary_search (reference_events d.references) o.event)) [
        | inl now ↦ inr (rw sent (binary_search-Memᴰ (reference_events d.references) o.event now))
        | inr still ↦ inl (subst (Memᴰ o) omissions ((lists o).1 (m, rw still refl)))
      ];
      listed = λ o m. ((lists o).0 (subst (Memᴰ o) (sym omissions) m)).0;
    }
