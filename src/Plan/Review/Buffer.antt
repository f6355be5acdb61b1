-- ===== src/Plan/Review/Buffer.antt =====
-- The buffer of draft changes (plan_audit_draft): an edit appends to it and an approval moves it
-- under its audit record.
use mathlib.Core.List.Perm
use mathlib.Core.List.{Perm}
use water_info.Base.{
  ℕ, ◌+◌, ◌≤◌, leb, Bool, ℤ, pos, String, ◌≡◌, refl, ap, ◌∙◌, true, false, List, [], ◌∷◌, ◌++◌, map,
  ◌==◌, eq_of_==, string_eq, keep, arith, inl, inr, Bool-cases,
}
use water_info.Base.Int.{is_int4, int_beq, int_beq_iff}
use water_info.Base.Sort.{sort-perm, IsSorted, sort-IsSorted}
use water_info.Plan.Snapshot.{Runtime}
use water_info.Plan.Tables.{
  draft, approved, PlanRow, Reviewer, Db, IsScan, AuditDraft, delete_where,
}
use water_info.Plan.Status.{status_beq, status_beq_iff}
use water_info.Plan.Tx.{transaction, gets, exec, require, pure, ◌>>=◌}
use water_info.Plan.Tx.Inversion.{Returns}
use water_info.Plan.Review.{
  or_not_found, lock_plan, approve_tx, approve_plan, ApproveResponse, reviewer_fits, paths_fit,
  buffered, buffered_rows, insert_audit_record, insert_audit_changes, update_plan,
}
use water_info.Plan.Review.Steps.{Locked}
use water_info.Plan.Review.Operation.{approve_plan-ok, approving}
use water_info.Plan.Review.Refusal.{opinion_fits, approve_plan-tx}

module _ {A : Type 0} (owner : A → String) (p : String) where
  keep-deleted :
      (rows : List A) → keep (λ r. owner r == p) (delete_where (λ r. owner r == p) rows) ≡ []
  unfolding keep delete_where
  keep-deleted [] = refl
  keep-deleted (r ∷ rows) = ground (arith, keep-deleted rows)

  keep-deleted_other :
      (q : String) (rows : List A)
      → (q == p) ≡ false
      → keep (λ r. owner r == q) (delete_where (λ r. owner r == p) rows)
        ≡ keep (λ r. owner r == q) rows
  unfolding keep delete_where
  keep-deleted_other q [] h = refl
  keep-deleted_other q (r ∷ rows) h = elim (Bool-cases (owner r == q)) [
    | inr other ↦ ground (arith, keep-deleted_other q rows h)
    | inl mine ↦
        let apart : (owner r == p) ≡ false = rw (eq_of_== (owner r) q mine) h in
        ground (arith, keep-deleted_other q rows h, apart)
  ]

-- The earlier row first.
abbrev pub InOrder : List AuditDraft → Type 0
InOrder [] = Unit
InOrder (d ∷ []) = Unit
InOrder (d ∷ e ∷ ds) = (d.buffered_at ≤ e.buffered_at) × InOrder (e ∷ ds)

InOrder-sorted :
    (ds : List AuditDraft) → IsSorted (λ a b. leb a.buffered_at b.buffered_at) ds → InOrder ds
InOrder-sorted [] h = tt
InOrder-sorted (d ∷ []) h = tt
InOrder-sorted (d ∷ e ∷ ds) h = (ground (arith, h.0), InOrder-sorted (e ∷ ds) h.1)

-- The rows buffered for a plan.
abbrev pub rows_for : String → Db → List AuditDraft
rows_for p db = keep (λ d. d.plan_id == p) db.audit_drafts

-- What an approval did with the buffer: `moved` are the rows whose changes were written.
pub record Transferred (p : String) (db after : Db) : Type 0 where
  pub moved : List AuditDraft
  pub all_of_it : Perm moved (rows_for p db)
  pub ordered : InOrder moved
  pub written :
      after.audit_changes
      ≡ db.audit_changes
        ++ map (λ d. record { audit_id = db.seq.audit_id; change = d.change }) moved
  pub emptied : rows_for p after ≡ []
  pub others_kept : (q : String) → (q == p) ≡ false → rows_for q after ≡ rows_for q db

map_twice :
    {A B C : Type 0} (f : A → B) (g : B → C) (xs : List A)
    → map g (map f xs) ≡ map (λ x. g (f x)) xs
map_twice f g [] = refl
map_twice f g (x ∷ xs) = ap (λ ys. g (f x) ∷ ys) (map_twice f g xs)

module _ (rt : Runtime) (now : ℕ) (p : String) (v : ℤ) (reviewer : Reviewer) where
  -- An approval that returns has written all the changes buffered for the plan, and nothing else,
  -- under its audit record, earlier ones first: changes of the same time are in any order, that of
  -- the database. None is left in the plan's buffer, and the buffers of other plans are as before.
  pub approve_plan-Transferred :
      (opinion : String) (db : Db) (a : ApproveResponse) (after : Db)
      → IsScan db
      → Returns (approve_plan rt now p v opinion reviewer) db a after
      → Transferred p db after
  unfolding buffered buffered_rows
  approve_plan-Transferred opinion db a after any_order h =
      let (done, _, _) = approve_plan-ok rt now p v reviewer opinion db a after h in
      let le : AuditDraft → AuditDraft → Bool = λ d e. leb d.buffered_at e.buffered_at in
      let total : (d e : AuditDraft) → le d e ≡ false → le e d ≡ true = λ d e later. ground arith in
      record {
        moved = buffered_rows p db;
        all_of_it = Perm.trans (sort-perm le (db.scan (rows_for p db))) (any_order (rows_for p db));
        ordered = InOrder-sorted _ (sort-IsSorted le total (db.scan (rows_for p db)));
        written =
            done.changes ∙ ap (λ cs. db.audit_changes ++ cs) (map_twice _ _ (buffered_rows p db));
        emptied = rw (done.drafts) (keep-deleted (λ (d : AuditDraft). d.plan_id) p db.audit_drafts);
        others_kept = λ q apart.
            rw (done.drafts)
              (keep-deleted_other (λ (d : AuditDraft). d.plan_id) p q db.audit_drafts apart);
      }

  -- An approval of a draft at its current version succeeds, and answers with the next version and
  -- the number of its audit record, when the opinion has between 1 and 500 characters after
  -- stripping and what it writes fits the columns.
  pub approve_plan-Returns :
      (opinion : String) (db : Db) (row : PlanRow)
      → Locked p draft v db row
      → opinion_fits rt (approving opinion) ≡ true
      → reviewer_fits reviewer ≡ true
      → paths_fit (buffered p db) ≡ true
      → is_int4 (pos (row.version + 1)) ≡ true
      → (after : Db) × Returns
          (approve_plan rt now p v opinion reviewer)
          db
          (record {
            plan_id = p;
            status = approved;
            version = row.version + 1;
            audit_record_id = db.seq.audit_id;
          })
          after
  unfolding approve_tx lock_plan or_not_found pure gets require exec insert_audit_record
      insert_audit_changes update_plan transaction ◌>>=◌
  approve_plan-Returns opinion db row locked fits who paths small =
      let gate : status_beq row.status draft ≡ true =
        (status_beq_iff row.status draft).1 locked.allows in
      let current : int_beq (pos row.version) v ≡ true =
        (int_beq_iff (pos row.version) v).1 locked.is_current in
      let m = approve_plan rt now p v opinion reviewer in
      let answers =
        ap (λ x. x.0) (approve_plan-tx rt now p v reviewer opinion db fits)
        ∙ rw (locked.is_there, gate, current, who, paths, small) refl in
      ((m db).1, ap (λ r. (r, (m db).1)) answers)
