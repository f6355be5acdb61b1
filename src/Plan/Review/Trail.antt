-- ===== src/Plan/Review/Trail.antt =====
-- The audit trail of a plan: its records in plan_audit_record account for every version since its
-- approval.
use water_info.Base.{
  ℕ, ◌+◌, ℤ, String, ◌≡◌, refl, sym, ap, ◌∙◌, inl, inr, false, some, List, [], ◌∷◌, ◌++◌, ◌==◌,
  ==_refl, ==_sym, eq_of_==, string_eq, keep, keep-append, Bool-cases, arith,
}
use water_info.Plan.Snapshot.{Runtime}
use water_info.Plan.Tables.{
  PlanStatus, draft, approved, PlanRow, Reviewer, Db, AuditRecord, approve, edit_after_approve,
}
use water_info.Plan.Patch.Frame.{Others, others}
use water_info.Plan.Review.{find_plan}
use water_info.Plan.Review.Success.{edit_draft-ok, edit_approved-ok}
use water_info.Plan.Review.Operation.{
  Op, editing_draft, editing_approved, approving, Step, edits_draft, edits_approved, approves,
  Moves, Step-Moves, Edited-others, approve_plan-ok,
}

-- The records of a plan, in the order in which they were written.
unfoldable pub records_of : String → List AuditRecord → List AuditRecord
unfolding keep
records_of p rs = keep (λ r. r.plan_id == p) rs

-- An approval, and then edits, each from the version that the one before it left.
pub data Chain : List AuditRecord → ℕ → Type 0 where
  approval :
      (r : AuditRecord)
      → r.action ≡ approve
      → r.to_version ≡ r.from_version + 1
      → Chain (r ∷ []) r.to_version
  edit :
      (rs : List AuditRecord) (r : AuditRecord)
      → Chain rs r.from_version
      → r.action ≡ edit_after_approve
      → r.to_version ≡ r.from_version + 1
      → Chain (rs ++ r ∷ []) r.to_version

-- A draft has no audit record, and an approved plan's records lead to its version.
pub record Audited (p : String) (db : Db) : Type 0 where
  pub of_draft :
      (row : PlanRow)
      → find_plan p db ≡ some row
      → row.status ≡ draft
      → records_of p db.audit_records ≡ []
  pub of_approved :
      (row : PlanRow)
      → find_plan p db ≡ some row
      → row.status ≡ approved
      → Chain (records_of p db.audit_records) row.version

records_of-append :
    (p : String) (rs : List AuditRecord) (r : AuditRecord)
    → r.plan_id ≡ p
    → records_of p (rs ++ r ∷ []) ≡ records_of p rs ++ r ∷ []
unfolding records_of
records_of-append p rs r mine =
    keep-append (λ x. x.plan_id == p) rs (r ∷ [])
    ∙ ap (λ xs. records_of p rs ++ xs) (unfold keep in rw (mine, ==_refl p))

records_of-append_other :
    (p q : String) (rs : List AuditRecord) (r : AuditRecord)
    → r.plan_id ≡ p
    → (p == q) ≡ false
    → records_of q (rs ++ r ∷ []) ≡ records_of q rs
unfolding records_of keep
records_of-append_other p q [] r mine apart = rw (mine, apart)
records_of-append_other p q (x ∷ rs) r mine apart =
    ground (arith, records_of-append_other p q rs r mine apart)

-- One record more: the plan's own trail.
grown :
    (p : String) (v : ℤ) (before : PlanStatus) (db after : Db) (r : AuditRecord)
    → (m : Moves p v before approved db after) → after.audit_records ≡ db.audit_records ++ r ∷ []
    → r.plan_id ≡ p
    → r.to_version ≡ m.row.version + 1
    → Chain (records_of p db.audit_records ++ r ∷ []) r.to_version
    → Audited p after
grown p v before db after r m writes mine counts chain =
    let trail : records_of p after.audit_records ≡ records_of p db.audit_records ++ r ∷ [] =
      ap (records_of p) writes ∙ records_of-append p db.audit_records r mine in
    record {
      of_draft = λ row there is_draft. ground (arith, m.stays, m.has, there, is_draft);
      of_approved = λ row there is_approved.
          let same : row.version ≡ r.to_version = cc (m.stays, there, m.counts, counts) in
          rw (trail, same) chain;
    }

module _ (rt : Runtime) (now : ℕ) (p : String) (v : ℤ) (reviewer : Reviewer) where
  Step-Audited :
      (op : Op) (db after : Db)
      → Step rt now p v reviewer op db after
      → Audited p db
      → Audited p after
  unfolding others
  Step-Audited op db after (edits_draft patch d a d' h) i =
      let done = edit_draft-ok rt now p v reviewer patch db a after h in
      let m =
        Step-Moves rt now p v reviewer (editing_draft patch) db after
          (edits_draft patch db a after h) in
      let same : after.audit_records ≡ db.audit_records =
        done.records
        ∙ ap (λ (o : Others). o.audit_records) (Edited-others rt now p v reviewer done.edited) in
      record {
        of_draft =
            λ row there is_draft. ap (records_of p) same ∙ i.of_draft m.row m.is_there m.allows;
        of_approved = λ row there is_approved. ground (arith, m.stays, m.has, there, is_approved);
      }
  Step-Audited op db after (edits_approved patch d a d' h) i =
      let done = edit_approved-ok rt now p v reviewer patch db a after h in
      let m =
        Step-Moves rt now p v reviewer (editing_approved patch) db after
          (edits_approved patch db a after h) in
      let row : done.edited.row ≡ m.row = cc (done.edited.locked.is_there, m.is_there) in
      let version : done.edited.row.version ≡ m.row.version = ap (λ (r : PlanRow). r.version) row in
      let same : done.edited.patched.audit_records ≡ db.audit_records =
        ap (λ (o : Others). o.audit_records) (Edited-others rt now p v reviewer done.edited) in
      let chain : Chain (records_of p db.audit_records) done.edited.row.version =
        rw version (i.of_approved m.row m.is_there m.allows) in
      grown p v approved db after _ m (rw same at done.records) refl (ap (λ n. n + 1) version)
        (edit (records_of p db.audit_records) _ chain refl refl)
  Step-Audited op db after (approves opinion d a d' h) i =
      let (done, _, _) = approve_plan-ok rt now p v reviewer opinion db a after h in
      let m =
        Step-Moves rt now p v reviewer (approving opinion) db after
          (approves opinion db a after h) in
      let row : done.row ≡ m.row = cc (done.locked.is_there, m.is_there) in
      grown p v draft db after _ m done.records refl (ap (λ (r : PlanRow). r.version + 1) row)
        (rw (i.of_draft m.row m.is_there m.allows) (approval _ refl refl))

  -- The records that a step writes are the plan's own.
  Step-records_of :
      (op : Op) (db after : Db) (q : String)
      → Step rt now p v reviewer op db after
      → (q == p) ≡ false
      → records_of q after.audit_records ≡ records_of q db.audit_records
  unfolding others
  Step-records_of op db after q (edits_draft patch d a d' h) apart =
      let done = edit_draft-ok rt now p v reviewer patch db a after h in
      ap (records_of q) (
        done.records
        ∙ ap (λ (o : Others). o.audit_records) (Edited-others rt now p v reviewer done.edited))
  Step-records_of op db after q (edits_approved patch d a d' h) apart =
      let done = edit_approved-ok rt now p v reviewer patch db a after h in
      ap (records_of q) done.records
      ∙ records_of-append_other p q _ _ refl (==_sym p q ∙ apart)
      ∙ ap (λ (o : Others). records_of q o.audit_records)
          (Edited-others rt now p v reviewer done.edited)
  Step-records_of op db after q (approves opinion d a d' h) apart =
      let (done, _, _) = approve_plan-ok rt now p v reviewer opinion db a after h in
      ap (records_of q) done.records
      ∙ records_of-append_other p q db.audit_records _ refl (==_sym p q ∙ apart)

  Step-Audited_other :
      (op : Op) (db after : Db) (q : String)
      → Step rt now p v reviewer op db after
      → (q == p) ≡ false
      → Audited q db
      → Audited q after
  Step-Audited_other op db after q s apart i =
      let m = Step-Moves rt now p v reviewer op db after s in
      let same = Step-records_of op db after q s apart in
      record {
        of_draft =
            λ row there is_draft. same ∙ i.of_draft row (sym (m.other q apart) ∙ there) is_draft;
        of_approved = λ row there is_approved.
            rw same (i.of_approved row (sym (m.other q apart) ∙ there) is_approved);
      }

-- Any number of edits and approvals, of any plans, at any time and by anyone.
pub data History : Db → Db → Type 0 where
  start : (db : Db) → History db db
  next :
      (rt : Runtime) (now : ℕ) (p : String) (v : ℤ) (reviewer : Reviewer) (op : Op)
      (db mid after : Db)
      → History db mid
      → Step rt now p v reviewer op mid after
      → History db after

-- After any history of edits and approvals, if the trail of a plan was in order, it is in order: a
-- draft has no audit record, and an approved plan's records start with an approval, go on with
-- edits, each from the version that the record before it left, and end at the plan's version.
pub History-Audited :
    (q : String) (db after : Db) → History db after → Audited q db → Audited q after
History-Audited q db after (start d) i = i
History-Audited q db after (next rt now p v reviewer op d mid a past s) i =
    let before = History-Audited q db mid past i in
    elim (Bool-cases (q == p)) [
      | inr apart ↦ Step-Audited_other rt now p v reviewer op mid after q s apart before
      | inl same ↦
          let name = eq_of_== q p same in
          rw name (Step-Audited rt now p v reviewer op mid after s (rw (← name) before))
    ]
