-- ===== src/Receipt/Dag.antt =====
-- The check of a receipt against a store (`verify_against_dag`, src/receipt.rs).
use mathlib.Core.List.{append_assoc, append-nil}
use contextmesh_rs.Common.{
  ◌≢◌, ◌⊎◌, ap, sym, ◌∙◌, ℕ, suc, ◌+◌, ◌≡◌, refl, Bool, true, ◌↔◌, inl, inr, Option, none, some,
  List, [], ◌∷◌, ◌++◌, arith, ◌==◌, ==_iff, if◌then◌else◌, length, length-append, is_empty, ok,
  ◌>>=◌, Bool-cases, subst, >>=-eq-ok,
}
use contextmesh_rs.Event.Body.{SignedEvent, Libraries}
use contextmesh_rs.Store.State.{StoreResult, Db}
use contextmesh_rs.Store.Rows.{event}
use contextmesh_rs.Receipt.{SignedReceipt}

pub data EventCheck : Type 0 where
  present wrong_context missing : EventCheck

-- The texts of `reason`.
pub data Reason : Type 0 where
  missing wrong_context recipient_missing recipient_wrong_context : Reason

pub record ReceiptDagFinding : Type 0 where
  pub reason : Reason
  pub event : ℕ

pub record ReceiptDagReport : Type 0 where
  pub valid : Bool
  pub checked_events : ℕ
  pub findings : List ReceiptDagFinding

-- The variables of `verify_against_dag`.
pub record Checking : Type 0 where
  pub checked : ℕ
  pub findings : List ReceiptDagFinding

abbrev pub found_event : ℕ → Option SignedEvent → EventCheck
found_event context none = EventCheck.missing
found_event context (some e) =
    if e.body.context == context then EventCheck.present else EventCheck.wrong_context

-- The three arms of `match check_event(…)`, with the reasons of the place.
unfoldable pub record_check : Reason → Reason → ℕ → EventCheck → Checking → Checking
record_check absent foreign id EventCheck.present c = record c { checked = c.checked + 1 }
record_check absent foreign id EventCheck.wrong_context c = record c {
  findings = c.findings ++ (record { reason = foreign; event = id } ∷ []);
}
record_check absent foreign id EventCheck.missing c = record c {
  findings = c.findings ++ (record { reason = absent; event = id } ∷ []);
}

module _ (lib : Libraries) (db : Db) (context : ℕ) where
  unfoldable pub check_event : ℕ → StoreResult EventCheck
  check_event id = do found ← event lib db id; ok (found_event context found)

  -- The loop over the events of the body.
  unfoldable pub check_events : List ℕ → Checking → StoreResult Checking
  unfolding check_event record_check
  check_events [] c = ok c
  check_events (id ∷ ids) c = do
    checked ← check_event id
    check_events ids (record_check Reason.missing Reason.wrong_context id checked c)

abbrev pub report_of : Checking → ReceiptDagReport
report_of c = record {
  valid = is_empty c.findings;
  checked_events = c.checked;
  findings = c.findings;
}

-- `SignedReceiptV1::verify_against_dag`
unfoldable pub verify_against_dag : Libraries → Db → SignedReceipt → StoreResult ReceiptDagReport
unfolding check_events check_event record_check
verify_against_dag lib db r = do
  let start : Checking = record { checked = 0; findings = [] }
  c ← check_events lib db r.body.context r.body.events start
  head ← check_event lib db r.body.context r.body.head
  let final : Checking =
      record_check Reason.recipient_missing Reason.recipient_wrong_context r.body.head head c
  ok (report_of final)

module _ (lib : Libraries) (db : Db) (context : ℕ) where
  -- The store gives the event, and it belongs to the context.
  abbrev pub IsPresent : ℕ → Type 0
  IsPresent id = (e : SignedEvent) × (event lib db id ≡ ok (some e)) × (e.body.context ≡ context)

  -- What a report says of one event, with the reasons of its place: nothing where it is present, and one finding
  -- with its reason where the store does not give it or it belongs to another context.
  abbrev pub IsReported : Reason → Reason → ℕ → List ReceiptDagFinding → Type 0
  IsReported absent foreign id fs =
      (IsPresent id × (fs ≡ []))
      ⊎ (((event lib db id ≡ ok none) × (fs ≡ record { reason = absent; event = id } ∷ []))
          ⊎ ((e : SignedEvent) × (event lib db id ≡ ok (some e))
              × (e.body.context ≢ context)
              × (fs ≡ record { reason = foreign; event = id } ∷ [])))

  -- What a report says of a list of events, in their order.
  abbrev pub AreReported : List ℕ → List ReceiptDagFinding → Type 0
  AreReported [] fs = fs ≡ []
  AreReported (id ∷ ids) fs =
      (here : List ReceiptDagFinding) × (rest : List ReceiptDagFinding) × (fs ≡ here ++ rest)
      × IsReported Reason.missing Reason.wrong_context id here
      × AreReported ids rest

  -- What a step adds, which counts the event or has a finding.
  Adds : Reason → Reason → ℕ → Checking → Checking → Type 0
  Adds absent foreign id c d =
      (here : List ReceiptDagFinding) × (d.findings ≡ c.findings ++ here)
      × IsReported absent foreign id here
      × (d.checked + length here ≡ suc c.checked)

  record_check-Adds :
      (absent foreign : Reason) (id : ℕ) (found : Option SignedEvent) (c : Checking)
      → event lib db id ≡ ok found
      → Adds absent foreign id c (record_check absent foreign id (found_event context found) c)
  unfolding record_check Adds
  record_check-Adds absent foreign id none c there = (_, refl, inr (inl (there, refl)), omega arith)
  record_check-Adds absent foreign id (some e) c there =
      elim (Bool-cases (e.body.context == context)) [
        | inl same ↦ rw same (
          [],
          sym (append-nil c.findings),
          inl ((e, there, (==_iff e.body.context context).0 same), refl),
          omega arith,
        )
        | inr other ↦ rw other (
          _,
          refl,
          inr (
              inr (
                e,
                there,
                (λ same. ground (arith, other, (==_iff e.body.context context).1 same)),
                refl,
              )),
          omega arith,
        )
      ]

  check-Adds :
      (absent foreign : Reason) (id : ℕ) (k : EventCheck) (c : Checking)
      → check_event lib db context id ≡ ok k
      → Adds absent foreign id c (record_check absent foreign id k c)
  unfolding check_event
  check-Adds absent foreign id k c h =
      let (found, there, last) = >>=-eq-ok (event lib db id) _ h in
      let same : found_event context found ≡ k = cc in
      subst (λ (k : EventCheck). Adds absent foreign id c (record_check absent foreign id k c)) same
        (record_check-Adds absent foreign id found c there)

  check_events-AreReported :
      (ids : List ℕ) (c d : Checking)
      → check_events lib db context ids c ≡ ok d
      → (more : List ReceiptDagFinding) × (d.findings ≡ c.findings ++ more)
        × AreReported ids more
        × (d.checked + length more ≡ c.checked + length ids)
  unfolding check_events Adds
  check_events-AreReported [] c d h =
      let same : c ≡ d = cc in
      (
        [],
        ap (λ (d : Checking). d.findings) (sym same) ∙ sym (append-nil c.findings),
        refl,
        omega (arith, ap (λ (d : Checking). d.checked) same),
      )
  check_events-AreReported (id ∷ ids) c d h =
      let (k, checks, rest) = >>=-eq-ok (check_event lib db context id) _ h in
      let (here, adds, reported, one) =
        check-Adds Reason.missing Reason.wrong_context id k c checks in
      let (more, all, others, sum) = check_events-AreReported ids _ d rest in
      (
        here ++ more,
        all ∙ ap (λ fs. fs ++ more) adds ∙ append_assoc c.findings here more,
        (here, more, refl, reported, others),
        omega (arith, one, sum, length-append here more),
      )

-- The findings of a report on a receipt are those of its events, in their order, and then those of the head of its
-- recipient: none for what the store gives in the context of the receipt, and one with its identifier and the reason
-- for what is missing or belongs to another context. The counted events and the findings are together as many as the
-- events and the head, and the receipt is valid exactly when there is no finding.
pub verify_against_dag-AreReported :
    (lib : Libraries) (db : Db) (r : SignedReceipt) (report : ReceiptDagReport)
    → verify_against_dag lib db r ≡ ok report
    → ((most : List ReceiptDagFinding) × (last : List ReceiptDagFinding) × (report.findings
          ≡ most ++ last)
        × AreReported lib db r.body.context r.body.events most
        × IsReported lib db r.body.context Reason.recipient_missing Reason.recipient_wrong_context
            r.body.head last)
      × (report.checked_events + length report.findings ≡ suc (length r.body.events))
      × ((report.valid ≡ true) ↔ (report.findings ≡ []))
unfolding verify_against_dag Adds
verify_against_dag-AreReported lib db r report h =
    let context = r.body.context in
    let start : Checking = record { checked = 0; findings = [] } in
    let (c, loop, h₁) = >>=-eq-ok (check_events lib db context r.body.events start) _ h in
    let (k, checks, h₂) = >>=-eq-ok (check_event lib db context r.body.head) _ h₁ in
    let (most, all, reported, sum) =
      check_events-AreReported lib db context r.body.events start c loop in
    let absent = Reason.recipient_missing in
    let foreign = Reason.recipient_wrong_context in
    let (last, adds, final, one) =
      check-Adds lib db context absent foreign r.body.head k c checks in
    let d = record_check absent foreign r.body.head k c in
    let same : report_of d ≡ report = cc in
    let found : d.findings ≡ most ++ last = adds ∙ ap (λ fs. fs ++ last) all in
    subst
      (λ (report : ReceiptDagReport).
        ((most : List ReceiptDagFinding) × (last : List ReceiptDagFinding) × (report.findings
            ≡ most ++ last)
          × AreReported lib db context r.body.events most
          × IsReported lib db context absent foreign r.body.head last)
        × (report.checked_events + length report.findings ≡ suc (length r.body.events))
        × ((report.valid ≡ true) ↔ (report.findings ≡ [])))
      same
      (
        (most, last, found, reported, final),
        omega (arith, sum, one, ap length found, length-append most last),
        empty_iff d.findings,
      )
  where
    empty_iff : (fs : List ReceiptDagFinding) → (is_empty fs ≡ true) ↔ (fs ≡ [])
    empty_iff [] = (λ _. refl, λ _. refl)
    empty_iff (f ∷ fs) = (λ h. cc, λ h. cc)
