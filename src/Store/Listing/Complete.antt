-- ===== src/Store/Listing/Complete.antt =====
-- What the listing of local refs holds (`sync_local_ref_snapshot`, src/store/sync.rs): the filter and the order of
-- its query, stated by the rows of the table.
use mathlib.Core.List.Memᴰ
use contextmesh_rs.Common.{
  ℕ, ◌≤◌, ◌≡◌, refl, ap, sym, ◌∙◌, subst, ◌⊎◌, inl, inr, ⊎_elim, ◌↔◌, true, false, some, List, [],
  ◌∷◌, map, arith, All, Memᴰ, Memᴰ-cons, Bytes, bytes_lt, ◌==◌, ==_iff, Bool-cases, ltb, length, ok,
  refuse, ok_or, >>=-eq-ok,
}
use contextmesh_rs.Common.Table.{Table}
use contextmesh_rs.Event.Body.{Libraries}
use contextmesh_rs.Store.State.{Db, bundle_limit_exceeded, context_unknown}
use contextmesh_rs.Store.Rows.{context_row}
use contextmesh_rs.Store.Admit.Keeps.{HasState, context_row-HasState}
use contextmesh_rs.Store.Bundle.{max_bundle_refs}
use contextmesh_rs.Store.Bundle.Export.{LocalRef, advertise_all}
use contextmesh_rs.Store.Bundle.Transfer.{AreNamed}
use contextmesh_rs.Store.Sync.Page.{check_active}
use contextmesh_rs.Store.Listing.{
  local_rows, insert_row, order_rows, list_local_refs, sync_local_ref_snapshot, as_row,
  as_advertised, read_rows-IsRead,
}

bytes_lt_asym : (a b : Bytes) → bytes_lt a b ≡ true → bytes_lt b a ≡ false
unfolding bytes_lt
bytes_lt_asym [] [] h = refl
bytes_lt_asym [] (y ∷ ys) h = refl
bytes_lt_asym (x ∷ xs) [] h = cc
bytes_lt_asym (x ∷ xs) (y ∷ ys) h = ground (arith, bytes_lt_asym xs ys, ==_iff x y, ==_iff y x)

-- The first row of the list, if there is one, does not stand before this name.
abbrev Leads : Bytes → Table Bytes ℕ → Type 0
Leads name [] = Unit
Leads name ((n, h) ∷ rows) = bytes_lt n name ≡ false

-- The rows stand in the ascending order of their names.
abbrev pub AreOrdered : Table Bytes ℕ → Type 0
AreOrdered [] = Unit
AreOrdered ((n, h) ∷ rows) = Leads n rows × AreOrdered rows

Leads-insert_row :
    (name : Bytes) (r : Bytes × ℕ) (rows : Table Bytes ℕ)
    → bytes_lt r.0 name ≡ false
    → Leads name rows
    → Leads name (insert_row r rows)
unfolding insert_row
Leads-insert_row name r [] before leads = before
Leads-insert_row name r ((n, h) ∷ rows) before leads = elim (Bool-cases (bytes_lt n r.0)) [
  | inl lower ↦ rw lower leads
  | inr upper ↦ rw upper before
]

insert_row-AreOrdered :
    (r : Bytes × ℕ) (rows : Table Bytes ℕ) → AreOrdered rows → AreOrdered (insert_row r rows)
unfolding insert_row
insert_row-AreOrdered r [] ordered = (tt, tt)
insert_row-AreOrdered r ((n, h) ∷ rows) ordered = elim (Bool-cases (bytes_lt n r.0)) [
  | inl lower ↦ rw lower (
    Leads-insert_row n r rows (bytes_lt_asym n r.0 lower) ordered.0,
    insert_row-AreOrdered r rows ordered.1,
  )
  | inr upper ↦ rw upper (upper, ordered)
]

insert_row-Memᴰ :
    (x r : Bytes × ℕ) (rows : Table Bytes ℕ) → Memᴰ x (insert_row r rows) ↔ ((x ≡ r) ⊎ Memᴰ x rows)
unfolding insert_row
insert_row-Memᴰ x r [] = Memᴰ-cons x r []
insert_row-Memᴰ x r (q ∷ rows) = elim (Bool-cases (bytes_lt q.0 r.0)) [
  | inl lower ↦
      let (there, back) = insert_row-Memᴰ x r rows in
      let (split, join) = Memᴰ-cons x q (insert_row r rows) in
      let (split', join') = Memᴰ-cons x q rows in
      rw lower (
        λ m.
            ⊎_elim (λ e. inr (join' (inl e))) (λ n. ⊎_elim inl (λ o. inr (join' (inr o))) (there n))
              (split m),
        ⊎_elim (λ e. join (inr (back (inl e))))
            (λ n. ⊎_elim (λ e. join (inl e)) (λ o. join (inr (back (inr o)))) (split' n)),
      )
  | inr upper ↦ rw upper (Memᴰ-cons x r (q ∷ rows))
]

order_rows-AreOrdered : (rows : Table Bytes ℕ) → AreOrdered (order_rows rows)
unfolding order_rows
order_rows-AreOrdered [] = tt
order_rows-AreOrdered (r ∷ rows) =
    insert_row-AreOrdered r (order_rows rows) (order_rows-AreOrdered rows)

order_rows-Memᴰ : (x : Bytes × ℕ) (rows : Table Bytes ℕ) → Memᴰ x (order_rows rows) ↔ Memᴰ x rows
unfolding order_rows
order_rows-Memᴰ x [] = (λ m. m, λ m. m)
order_rows-Memᴰ x (r ∷ rows) =
    let (there, back) = insert_row-Memᴰ x r (order_rows rows) in
    let (down, up) = order_rows-Memᴰ x rows in
    let (split, join) = Memᴰ-cons x r rows in
    (
      λ m. join (⊎_elim inl (λ n. inr (down n)) (there m)),
      λ m. back (⊎_elim inl (λ n. inr (up n)) (split m)),
    )

local_rows-Memᴰ :
    (context : ℕ) (n : Bytes) (h : ℕ) (rows : Table (ℕ × Bytes) ℕ)
    → Memᴰ (n, h) (local_rows context rows) ↔ Memᴰ ((context, n), h) rows
unfolding local_rows
local_rows-Memᴰ context n h [] = (λ m. absurd (Memᴰ.not-nil m), λ m. absurd (Memᴰ.not-nil m))
local_rows-Memᴰ context n h (((c, name), v) ∷ rows) =
    let (down, up) = local_rows-Memᴰ context n h rows in
    let (split, join) = Memᴰ-cons ((context, n), h) ((c, name), v) rows in
    elim (Bool-cases (c == context)) [
      | inl same ↦
          let (split', join') = Memᴰ-cons (n, h) (name, v) (local_rows context rows) in
          let here : c ≡ context = (==_iff c context).0 same in
          rw same (
            λ m. join (
                ⊎_elim
                  (λ (e : (n, h) ≡ (name, v)). inl (
                    ap (λ (q : Bytes × ℕ). ((context, q.0), q.1)) e
                    ∙ ap (λ (k : ℕ). ((k, name), v)) (sym here)))
                  (λ o. inr (down o)) (split' m)),
            λ m. join' (
                ⊎_elim
                  (λ (e : ((context, n), h) ≡ ((c, name), v)).
                    inl (ap (λ (q : (ℕ × Bytes) × ℕ). (q.0.1, q.1)) e))
                  (λ o. inr (up o)) (split m)),
          )
      | inr other ↦ rw other (
        λ m. join (inr (down m)),
        λ m.
            ⊎_elim
              (λ (e : ((context, n), h) ≡ ((c, name), v)).
                absurd
                  (ground (arith, other, ==_iff c context, ap (λ (q : (ℕ × Bytes) × ℕ). q.0.0) e)))
              up (split m),
      )
    ]

module _ (lib : Libraries) (db : Db) (context : ℕ) where
  -- A listing of local refs: exactly the rows of the context, in the order of their names, with names of the grammar
  -- and such that an export of the same store takes them, of an active context.
  pub record IsListing (refs : List LocalRef) : Type 0 where
    pub exact :
        (n : Bytes) (h : ℕ)
        → Memᴰ (n, h) (map (as_row lib db context) refs) ↔ Memᴰ ((context, n), h) db.local_refs
    pub ordered : AreOrdered (map (as_row lib db context) refs)
    pub inside : All (λ (r : LocalRef). r.context ≡ context) refs
    pub named : AreNamed lib db context refs
    pub advertised :
        advertise_all lib db context refs ≡ ok (map (as_advertised lib db context) refs)
    pub running : HasState db context 1
    pub few : length refs ≤ max_bundle_refs

  check_active-HasState : check_active db context ≡ ok tt → HasState db context 1
  unfolding check_active
  check_active-HasState h =
      let (found, a, h₁) = >>=-eq-ok (context_row db context) _ h in
      let ((expected, state), b, last) = >>=-eq-ok (ok_or found context_unknown) _ h₁ in
      let there : found ≡ some (expected, state) = ground (arith, b) in
      let one : state ≡ 1 = ground (arith, last, ==_iff state 1) in
      context_row-HasState db context expected 1
        (a ∙ ap ok (there ∙ ap (λ (s : ℕ). some (expected, s)) one))

  -- The snapshot of the local refs holds exactly the rows of the context, in ascending order of their names, at most
  -- 256, each with a name of the grammar. The context is active, and an export of the same store advertises each ref.
  pub sync_local_ref_snapshot-IsListing :
      (refs : List LocalRef) → sync_local_ref_snapshot lib db context ≡ ok refs → IsListing refs
  unfolding sync_local_ref_snapshot list_local_refs
  sync_local_ref_snapshot-IsListing refs h =
      let (_, checked, h₁) = >>=-eq-ok (check_active db context) _ h in
      let (read, reads, h₂) = >>=-eq-ok (list_local_refs lib db context) _ h₁ in
      let (_, few, last) =
        >>=-eq-ok (refuse (ltb max_bundle_refs (length read)) bundle_limit_exceeded) _ h₂ in
      let same : read ≡ refs = ground (arith, last) in
      let rows = local_rows context db.local_refs in
      let listed = read_rows-IsRead lib db context (order_rows rows) read reads in
      subst IsListing same (record {
        exact = λ n x.
            let (down, up) = order_rows-Memᴰ (n, x) rows in
            let (out, back) = local_rows-Memᴰ context n x db.local_refs in
            (
              λ m. out (down (subst (Memᴰ (n, x)) listed.exact m)),
              λ m. subst (Memᴰ (n, x)) (sym listed.exact) (up (back m)),
            );
        ordered = subst AreOrdered (sym listed.exact) (order_rows-AreOrdered rows);
        inside = listed.inside;
        named = listed.named;
        advertised = listed.advertised;
        running = check_active-HasState checked;
        few = ground (arith, few);
      })
