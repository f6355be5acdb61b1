-- ===== src/Plan/Review/Operation.antt =====
-- The three operations of services/plan_review.py as steps on the database, and what every
-- successful step does to the plans.
use Prim.Native.String.{count}
use mathlib.Core.Option
use water_info.Base.{
  ℕ, ◌+◌, ℤ, pos, String, ◌≡◌, refl, sym, ap, ◌∙◌, false, some, ◌==◌, string_eq, leb, ltb,
}
use water_info.Plan.Snapshot.{Runtime}
use water_info.Plan.Tables.{PlanStatus, draft, approved, PlanRow, Reviewer, Db, update_where}
use water_info.Plan.Tx.{Tx}
use water_info.Plan.Tx.Inversion.{Returns, if-raise-ok, transaction-ok}
use water_info.Plan.Tx.Preserves.{Preserves}
use water_info.Plan.Patch.{PlanPatch, build_snapshot}
use water_info.Plan.Patch.Apply.{apply_patch}
use water_info.Plan.Patch.Frame.{Others, others}
use water_info.Plan.Patch.Frame.Patches.{apply_patch-others}
use water_info.Plan.Review.{
  find_plan, edit_draft, edit_approved, approve_tx, approve_plan, PlanResponse, ApproveResponse,
}
use water_info.Plan.Review.Steps.{Locked}
use water_info.Plan.Review.Success.{
  Edited, edit_draft-ok, edit_approved-ok, Approved, approve_tx-ok,
}
use water_info.Plan.Review.Rows.{row_of, row_of-updated, row_of-updated_other}

pub data Op : Type 0 where
  editing_draft : PlanPatch → Op
  editing_approved : PlanPatch → Op
  approving : String → Op

-- The status that the operation asks for, and the status it leaves.
abbrev pub status_before : Op → PlanStatus
status_before (editing_draft patch) = draft
status_before (editing_approved patch) = approved
status_before (approving opinion) = draft

abbrev pub status_after : Op → PlanStatus
status_after (editing_draft patch) = draft
status_after (editing_approved patch) = approved
status_after (approving opinion) = approved

-- A call of the operation returned.
pub data Step (rt : Runtime) (now : ℕ) (p : String) (v : ℤ) (reviewer : Reviewer)
    : Op → Db → Db → Type 0 where
  edits_draft :
      (patch : PlanPatch) (db : Db) (a : PlanResponse) (db' : Db)
      → Returns (edit_draft rt now p v patch reviewer) db a db'
      → Step rt now p v reviewer (editing_draft patch) db db'
  edits_approved :
      (patch : PlanPatch) (db : Db) (a : PlanResponse) (db' : Db)
      → Returns (edit_approved rt now p v patch reviewer) db a db'
      → Step rt now p v reviewer (editing_approved patch) db db'
  approves :
      (opinion : String) (db : Db) (a : ApproveResponse) (db' : Db)
      → Returns (approve_plan rt now p v opinion reviewer) db a db'
      → Step rt now p v reviewer (approving opinion) db db'

pub Preserves-ok :
    {O A : Type 0} {obs : Db → O} (m : Tx A) (db : Db) (a : A) (db' : Db)
    → Preserves obs m
    → Returns m db a db'
    → obs db' ≡ obs db
Preserves-ok {obs = obs} m db a db' h k = sym (ap (λ x. obs x.1) k) ∙ h.at db

module _ (rt : Runtime) (now : ℕ) (p : String) (v : ℤ) (reviewer : Reviewer) where
  -- What the patch of an edit left alone.
  pub Edited-others :
      {allowed : PlanStatus} {patch : PlanPatch} {db after : Db}
      → (e : Edited rt now p v reviewer allowed patch db after) → others e.patched ≡ others db
  Edited-others {patch = patch} {db = db} e =
      Preserves-ok (apply_patch rt p now (build_snapshot db p e.row.summary) patch) db e.snapshot
        e.patched (apply_patch-others rt p now (build_snapshot db p e.row.summary) patch) e.applies

  pub approve_plan-ok :
      (opinion : String) (db : Db) (a : ApproveResponse) (db' : Db)
      → Returns (approve_plan rt now p v opinion reviewer) db a db'
      → Approved rt now p v reviewer (rt.strip opinion) db db'
        × (leb (count (rt.strip opinion)) 0 ≡ false)
        × (ltb 500 (count (rt.strip opinion)) ≡ false)
  unfolding approve_plan
  approve_plan-ok opinion db a db' h =
      let (some_text, h₁) = if-raise-ok _ _ _ db a db' h in
      let (short, h₂) = if-raise-ok _ _ _ db a db' h₁ in
      (
        approve_tx-ok rt now p v reviewer (rt.strip opinion) db a db'
            (transaction-ok (approve_tx rt now p v (rt.strip opinion) reviewer) db a db' h₂),
        some_text,
        short,
      )

-- The plan had the version `v` and the status `before`; it has the next version and the status
-- `later`; and the other plans' rows are the same.
pub record Moves (p : String) (v : ℤ) (before later : PlanStatus) (db after : Db) : Type 0 where
  pub row : PlanRow
  pub is_there : find_plan p db ≡ some row
  pub is_current : pos row.version ≡ v
  pub allows : row.status ≡ before
  pub next : PlanRow
  pub stays : find_plan p after ≡ some next
  pub counts : next.version ≡ row.version + 1
  pub has : next.status ≡ later
  pub other : (q : String) → (q == p) ≡ false → find_plan q after ≡ find_plan q db

moves :
    (p : String) (v : ℤ) (before later : PlanStatus) (db after : Db) (row : PlanRow)
    (f : PlanRow → PlanRow)
    → Locked p before v db row
    → ((r : PlanRow) → (f r).plan_id ≡ r.plan_id)
    → after.plans ≡ update_where (λ r. r.plan_id == p) f db.plans
    → (f row).version ≡ row.version + 1
    → (f row).status ≡ later
    → Moves p v before later db after
unfolding find_plan
moves p v before later db after row f locked keeps plans counts has = record {
  row = row;
  is_there = locked.is_there;
  is_current = locked.is_current;
  allows = locked.allows;
  next = f row;
  stays =
      ap (row_of p) plans ∙ row_of-updated p f keeps db.plans ∙ ap (Option.map f) locked.is_there;
  counts = counts;
  has = has;
  other = λ q apart. ap (row_of q) plans ∙ row_of-updated_other p f keeps q db.plans apart;
}

module _ (rt : Runtime) (now : ℕ) (p : String) (v : ℤ) (reviewer : Reviewer) where
  Edited-Moves :
      (allowed : PlanStatus) (patch : PlanPatch) (db after : Db)
      → Edited rt now p v reviewer allowed patch db after
      → Moves p v allowed allowed db after
  unfolding others
  Edited-Moves allowed patch db after e =
      moves p v allowed allowed db after e.row
        (λ r. record r {
          version = e.row.version + 1;
          summary = e.snapshot.summary;
          updated_at = now;
        })
        e.locked (λ r. refl)
        (e.plans
          ∙ ap
              (λ (o : Others).
                update_where (λ r. r.plan_id == p)
                  (λ r. record r {
                    version = e.row.version + 1;
                    summary = e.snapshot.summary;
                    updated_at = now;
                  })
                  o.plans)
              (Edited-others rt now p v reviewer e))
        refl e.locked.allows

  -- A call of an edit or an approval that returns had the plan's current version and the status
  -- that the operation asks for. It raises the version by one, leaves the operation's status, and
  -- does not touch another plan's row.
  pub Step-Moves :
      (op : Op) (db after : Db)
      → Step rt now p v reviewer op db after
      → Moves p v (status_before op) (status_after op) db after
  Step-Moves op db after (edits_draft patch d a d' h) =
      Edited-Moves draft patch db after
        (edit_draft-ok rt now p v reviewer patch db a after h).edited
  Step-Moves op db after (edits_approved patch d a d' h) =
      Edited-Moves approved patch db after
        (edit_approved-ok rt now p v reviewer patch db a after h).edited
  Step-Moves op db after (approves opinion d a d' h) =
      let (done, _, _) = approve_plan-ok rt now p v reviewer opinion db a after h in
      moves p v draft approved db after done.row
        (λ r. record r { status = approved; version = done.row.version + 1; updated_at = now })
        done.locked (λ r. refl) done.plans refl refl
