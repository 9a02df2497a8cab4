-- ===== src/Store/Bundle/Sent.antt =====
-- The parts of an export (`export_bundle`, src/store/bundle.rs): the events that it loads and those that it sends.
use mathlib.Core.List.Memᴰ
use contextmesh_rs.Common.{
  ℕ, ◌≡◌, sym, ap, subst, ◌∙◌, ◌↔◌, ◌⊎◌, inl, inr, ⊎_elim, Bool, true, not, some, List, [], ◌∷◌,
  Memᴰ, Memᴰ-cons, All, arith, Bytes, bytes_eq, bytes_eq_iff, ◌==◌, ==_iff, Bool-cases, contains,
  contains_iff, keep, ok, refuse, ok_or, map_err, >>=-eq-ok,
}
use contextmesh_rs.Common.Table.{id_eq, lookup}
use contextmesh_rs.Event.Json.{Contract}
use contextmesh_rs.Event.Body.{SignedEvent, Libraries}
use contextmesh_rs.Event.Wire.{from_wire, to_wire}
use contextmesh_rs.Walk.{finished}
use contextmesh_rs.Walk.Reach.{Reach, from_head, to_parent}
use contextmesh_rs.Walk.Outcomes.{and_then-finished}
use contextmesh_rs.Store.State.{Db, EventRow, corrupt_storage, contract, parent_missing}
use contextmesh_rs.Store.Rows.{event_wire, reparse, validate_stored_event, row_matches}
use contextmesh_rs.Store.Admit.Atomic.{map_err-eq-ok}
use contextmesh_rs.Store.Project.{project_on, load_verified_event, default_limits}
use contextmesh_rs.Store.Project.Order.{ids, ParentsFirst, Nothing}
use contextmesh_rs.Store.Project.Keeps.{loaded_parents, Loads}
use contextmesh_rs.Store.Project.Complete.{project_on-Projects}
use contextmesh_rs.Event.Wire.RoundTrip.{ReadsBack}
use contextmesh_rs.Store.Bundle.Export.{unknown_events, project_ids}

module _ (lib : Libraries) (db : Db) where
  -- A stored event that loads has its wire in the row, and the wire parses back to it.
  stored_wire :
      (id : ℕ) (r : EventRow) (w : Bytes)
      → lookup id db.events ≡ some r
      → event_wire db id ≡ some w
      → r.wire ≡ w
  unfolding event_wire
  stored_wire id r w at h = ground (arith, rw (at, event_wire) at h)

  validate_stored_event-wire :
      (e : SignedEvent) (w v : Bytes)
      → validate_stored_event lib db e ≡ ok tt
      → event_wire db e.event_id ≡ some w
      → to_wire lib e ≡ ok v
      → v ≡ w
  unfolding validate_stored_event row_matches
  validate_stored_event-wire e w v h found writes =
      let (r, at, h₁) = >>=-eq-ok (ok_or (lookup e.event_id db.events) corrupt_storage) _ h in
      let row : lookup e.event_id db.events ≡ some r = ground (arith, at) in
      let (u, wires, matches) = >>=-eq-ok (map_err contract (to_wire lib e)) _ h₁ in
      let same : ◌≡◌ {A = Contract Bytes} (ok u) (ok v) =
        sym (map_err-eq-ok contract (to_wire lib e) u wires) ∙ writes in
      let bytes : bytes_eq r.wire u ≡ true = ground (arith, matches) in
      let values : u ≡ v = cc same in
      sym values ∙ sym ((bytes_eq_iff r.wire u).0 bytes) ∙ stored_wire e.event_id r w row found

  load_verified_event-ReadsBack :
      (id : ℕ) (e : SignedEvent) → load_verified_event lib db id ≡ ok e → ReadsBack lib e
  unfolding load_verified_event reparse
  load_verified_event-ReadsBack id e h v writes =
      let (w, at, h₁) = >>=-eq-ok (ok_or (event_wire db id) (parent_missing id)) _ h in
      let (f, parses, h₂) = >>=-eq-ok (reparse lib w) _ h₁ in
      let (_, named, h₃) = >>=-eq-ok (refuse (not (f.event_id == id)) corrupt_storage) _ h₂ in
      let (u, valid, last) = >>=-eq-ok (validate_stored_event lib db f) _ h₃ in
      let same : f ≡ e = ground (arith, last) in
      let found : event_wire db id ≡ some w = ground (arith, at) in
      let ids : f.event_id ≡ id = (==_iff f.event_id id).0 (ground (arith, named)) in
      let there : event_wire db f.event_id ≡ some w = rw ids found in
      let wire = validate_stored_event-wire f w v valid there (rw same writes) in
      rw wire (map_err-eq-ok (λ _. corrupt_storage) (from_wire lib w) f parses ∙ ap ok same)

pub Memᴰ-unknown :
    (j : ℕ) (known : List ℕ) (es : List SignedEvent)
    → Memᴰ j (ids (unknown_events known es)) ↔ (Memᴰ j (ids es) × (Memᴰ j known → ⊥))
unfolding keep
Memᴰ-unknown j known [] = (λ m. absurd (Memᴰ.not-nil m), λ h. absurd (Memᴰ.not-nil h.0))
Memᴰ-unknown j known (e ∷ es) =
    let (out, into) = Memᴰ-unknown j known es in
    let (there, back) = contains_iff e.event_id known in
    elim (Bool-cases (contains known e.event_id)) [
      | inl is_known ↦ rw is_known (
        λ m. let (n, free) = out m in (Memᴰ.tail n, free),
        λ (m, free).
            ⊎_elim (λ same. absurd (free (subst (λ i. Memᴰ i known) (sym same) (there is_known))))
              (λ n. into (n, free)) ((Memᴰ-cons j e.event_id (ids es)).0 m),
      )
      | inr fresh ↦ rw fresh (
        λ m.
            ⊎_elim
              (λ same. (
                Memᴰ.head same,
                λ k. absurd (ground (arith, fresh, back (subst (λ i. Memᴰ i known) same k))),
              ))
              (λ n. let (k, free) = out n in (Memᴰ.tail k, free))
              ((Memᴰ-cons j e.event_id (ids (unknown_events known es))).0 m),
        λ (m, free).
            ⊎_elim (λ same. Memᴰ.head same) (λ n. Memᴰ.tail (into (n, free)))
              ((Memᴰ-cons j e.event_id (ids es)).0 m),
      )
    ]

-- What is known is left out of a list in which each event comes once and behind its parents: each comes once and
-- behind those of its parents that are not known.
pub ParentsFirst-unknown :
    (known : List ℕ) (before behind : ℕ → Type 0) (es : List SignedEvent)
    → ((j : ℕ) → before j → behind j)
    → ((j : ℕ) → Memᴰ j known → behind j)
    → ((j : ℕ) → behind j → before j ⊎ Memᴰ j known)
    → ParentsFirst before es
    → ParentsFirst behind (unknown_events known es)
unfolding keep
ParentsFirst-unknown known before behind [] into knows back first = tt
ParentsFirst-unknown known before behind (e ∷ es) into knows back (parents, (fresh, others)) =
    let (there, here) = contains_iff e.event_id known in
    elim (Bool-cases (contains known e.event_id)) [
      | inl is_known ↦ rw is_known (
          ParentsFirst-unknown known (λ j. (j ≡ e.event_id) ⊎ before j) behind es
            (λ j.
              ⊎_elim (λ same. knows j (subst (λ i. Memᴰ i known) (sym same) (there is_known)))
                (into j))
            knows (λ j b. ⊎_elim (λ o. inl (inr o)) inr (back j b)) others)
      | inr is_fresh ↦
          let free : Memᴰ e.event_id known → ⊥ = λ m. ground (arith, is_fresh, here m) in
          rw is_fresh (
            λ q m. into q (parents q m),
            (
              λ b. ⊎_elim fresh free (back e.event_id b),
              ParentsFirst-unknown known (λ j. (j ≡ e.event_id) ⊎ before j)
                  (λ j. (j ≡ e.event_id) ⊎ behind j) es (λ j. ⊎_elim inl (λ o. inr (into j o)))
                  (λ j k. inr (knows j k))
                  (λ j.
                    ⊎_elim (λ same. inl (inl same)) (λ b. ⊎_elim (λ o. inl (inr o)) inr (back j b)))
                  others,
            ),
          )
    ]

pub All-keep {ℓ κ} :
    {A : Type ℓ} (P : A → Type κ) (test : A → Bool) (xs : List A) → All P xs → All P (keep test xs)
unfolding keep
All-keep P test [] all = tt
All-keep P test (x ∷ xs) all = elim (Bool-cases (test x)) [
  | inl kept ↦ rw kept (all.0, All-keep P test xs all.1)
  | inr dropped ↦ rw dropped (All-keep P test xs all.1)
]

-- A difference of sets, where both are known by other descriptions.
pub without {ℓ₁ ℓ₂ ℓ₃ ℓ₄ ℓ₅} :
    {S : Type ℓ₁} {A : Type ℓ₂} {K : Type ℓ₃} {A' : Type ℓ₄} {K' : Type ℓ₅}
    → S ↔ (A × (K → ⊥))
    → A ↔ A'
    → K ↔ K'
    → S ↔ (A' × (K' → ⊥))
without sent all known = (
  λ s. let (a, free) = sent.0 s in (all.0 a, λ k. free (known.1 k)),
  λ (a, free). sent.1 (all.1 a, λ k. free (known.0 k)),
)

module _ (lib : Libraries) (db : Db) (context : ℕ) where
  no_heads : {j : ℕ} → Reach (loaded_parents lib db context) [] j → ⊥
  no_heads (from_head m) = Memᴰ.not-nil m
  no_heads (to_parent r m) = no_heads r

  pub project_ids-exact :
      (heads known_ids : List ℕ) (j : ℕ)
      → project_ids lib db context heads ≡ finished known_ids
      → Memᴰ j known_ids ↔ Reach (loaded_parents lib db context) heads j
  unfolding project_ids
  project_ids-exact [] known_ids j h =
      let same : [] ≡ known_ids = ground (arith, h) in
      rw (← same) (λ m. absurd (Memᴰ.not-nil m), λ r. absurd (no_heads r))
  project_ids-exact (x ∷ xs) known_ids j h =
      let (a, walks, last) =
        and_then-finished (project_on lib db context default_limits (x ∷ xs)) _ h in
      let same : ids a.ordered ≡ known_ids = cc last in
      rw (← same) ((project_on-Projects lib db context default_limits (x ∷ xs) a walks).exact j)

  pub loaded_reads :
      (es : List SignedEvent)
      → All (λ (e : SignedEvent). Loads lib db context e.event_id e) es
      → All (ReadsBack lib) es
  loaded_reads [] all = tt
  loaded_reads (e ∷ es) all =
      (load_verified_event-ReadsBack lib db e.event_id e all.0.0, loaded_reads es all.1)

  pub project_ids-ParentsFirst :
      (heads known_ids : List ℕ) (es : List SignedEvent)
      → project_ids lib db context heads ≡ finished known_ids
      → ParentsFirst Nothing es
      → ParentsFirst
          (λ j. Reach (loaded_parents lib db context) heads j)
          (unknown_events known_ids es)
  project_ids-ParentsFirst heads known_ids es walks first =
      ParentsFirst-unknown known_ids Nothing (λ j. Reach (loaded_parents lib db context) heads j) es
        (λ j o. absurd o) (λ j k. (project_ids-exact heads known_ids j walks).0 k)
        (λ j r. inr ((project_ids-exact heads known_ids j walks).1 r)) first
