-- ===== src/Plan/Review/Steps.antt =====
-- What each statement of an edit or an approval did, once it returned.
use mathlib.Core.List.{append-nil}
use water_info.Base.{
  ℕ, ◌+◌, ℤ, pos, String, ◌≡◌, ◌∙◌, true, Option, none, some, List, [], ◌∷◌, ◌++◌, map, ◌==◌,
  string_eq,
}
use water_info.Base.Int.{is_int4, int_beq_iff}
use water_info.Plan.Snapshot.{ChangeEntry}
use water_info.Plan.Tables.{PlanStatus, PlanRow, Reviewer, AuditRecord, Db, update_where}
use water_info.Plan.Status.{status_beq_iff}
use water_info.Plan.Tx.{pure, raise}
use water_info.Plan.Tx.Inversion.{Returns, >>=-ok, require-ok, pure-ok, gets-ok, exec-ok}
use water_info.Plan.Review.{
  find_plan, or_not_found, lock_plan, update_plan, draft_rows, insert_audit_draft,
  insert_audit_record, insert_audit_changes,
}

-- The plan's row passed the state gate and the version check.
pub record Locked (plan_id : String) (allowed : PlanStatus) (version : ℤ) (db : Db) (row : PlanRow)
    : Type 0 where
  pub is_there : find_plan plan_id db ≡ some row
  pub allows : row.status ≡ allowed
  pub is_current : pos row.version ≡ version

or_not_found-ok :
    (o : Option PlanRow) (db : Db) (row : PlanRow) (db' : Db)
    → Returns (or_not_found o) db row db'
    → (o ≡ some row) × (db' ≡ db)
unfolding or_not_found raise pure
or_not_found-ok none db row db' h = cc
or_not_found-ok (some r) db row db' h = (cc h, cc h)

pub lock_plan-ok :
    (plan_id : String) (allowed : PlanStatus) (version : ℤ) (db : Db) (row : PlanRow) (db' : Db)
    → Returns (lock_plan plan_id allowed version) db row db'
    → Locked plan_id allowed version db row × (db' ≡ db)
unfolding lock_plan
lock_plan-ok plan_id allowed version db row db' h =
    let (found, d₁, g, h₁) = >>=-ok _ _ db row db' h in
    let (r, d₂, o, h₂) = >>=-ok _ _ d₁ row db' h₁ in
    let (u, d₃, s, h₃) = >>=-ok _ _ d₂ row db' h₂ in
    let (v, d₄, w, p) = >>=-ok _ _ d₃ row db' h₃ in
    let (e, e₁) = gets-ok (find_plan plan_id) db found d₁ g in
    let (there, e₂) = or_not_found-ok found d₁ r d₂ o in
    let (gate, e₃) = require-ok _ _ d₂ u d₃ s in
    let (current, e₄) = require-ok _ _ d₃ v d₄ w in
    let (same, e₅) = pure-ok r d₄ row db' p in
    let status : r.status ≡ allowed = (status_beq_iff r.status allowed).0 gate in
    let number : pos r.version ≡ version = (int_beq_iff (pos r.version) version).0 current in
    (
      record {
        is_there = cc (e, there, same);
        allows = cc (status, same);
        is_current = cc (number, same);
      },
      cc (e₁, e₂, e₃, e₄, e₅),
    )

pub update_plan-ok :
    (plan_id : String) (v : ℕ) (set : PlanRow → PlanRow) (db : Db) (u : Unit {0}) (db' : Db)
    → Returns (update_plan plan_id v set) db u db'
    → (is_int4 (pos v) ≡ true)
      × (db' ≡ record db { plans = update_where (λ r. r.plan_id == plan_id) set db.plans })
unfolding update_plan
update_plan-ok plan_id v set db u db' h =
    let (w, mid, r, x) = >>=-ok _ _ db u db' h in
    let (fits, e) = require-ok _ _ db w mid r in (fits, exec-ok _ mid u db' x ∙ rw e)

pub insert_audit_draft-ok :
    (plan_id : String) (now : ℕ) (reviewer : Reviewer) (changes : List ChangeEntry) (db : Db)
    (u : Unit {0}) (db' : Db)
    → Returns (insert_audit_draft plan_id now reviewer changes) db u db'
    → db' ≡ record db { audit_drafts = db.audit_drafts ++ draft_rows plan_id now reviewer changes }
unfolding insert_audit_draft
insert_audit_draft-ok plan_id now reviewer [] db u db' h =
    let (same, e) = pure-ok tt db u db' h in unfold draft_rows in rw append-nil e
insert_audit_draft-ok plan_id now reviewer (c ∷ cs) db u db' h =
    let (w, mid, r, x) = >>=-ok _ _ db u db' h in
    let (fits, e) = require-ok _ _ db w mid r in exec-ok _ mid u db' x ∙ rw e

pub insert_audit_record-ok :
    (row : ℕ → AuditRecord) (db : Db) (id : ℕ) (db' : Db)
    → Returns (insert_audit_record row) db id db'
    → (id ≡ db.seq.audit_id)
      × (db' ≡ record db {
        audit_records = db.audit_records ++ row id ∷ [];
        seq = record db.seq { audit_id = id + 1 };
      })
unfolding insert_audit_record
insert_audit_record-ok row db id db' h =
    let (n, d₁, g, h₁) = >>=-ok _ _ db id db' h in
    let (u, d₂, x, h₂) = >>=-ok _ _ d₁ id db' h₁ in
    let (v, d₃, r, h₃) = >>=-ok _ _ d₂ id db' h₂ in
    let (w, d₄, y, p) = >>=-ok _ _ d₃ id db' h₃ in
    let (e, e₁) = gets-ok (λ d. d.seq.audit_id) db n d₁ g in
    let e₂ = exec-ok _ d₁ u d₂ x in
    let (fits, e₃) = require-ok _ _ d₂ v d₃ r in
    let e₄ = exec-ok _ d₃ w d₄ y in
    let (same, e₅) = pure-ok n d₄ id db' p in (cc (e, same), e₅ ∙ e₄ ∙ rw (e₃, e₂, e₁, same))

pub insert_audit_changes-ok :
    (id : ℕ) (changes : List ChangeEntry) (db : Db) (u : Unit {0}) (db' : Db)
    → Returns (insert_audit_changes id changes) db u db'
    → db' ≡ record db {
      audit_changes = db.audit_changes ++ map (λ c. record { audit_id = id; change = c }) changes;
    }
unfolding insert_audit_changes
insert_audit_changes-ok id changes db u db' h =
    let (w, mid, r, x) = >>=-ok _ _ db u db' h in
    let (fits, e) = require-ok _ _ db w mid r in exec-ok _ mid u db' x ∙ rw e
