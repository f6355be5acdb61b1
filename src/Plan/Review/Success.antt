-- ===== src/Plan/Review/Success.antt =====
-- What a successful edit or approval found and what it left in the database.
use water_info.Base.{
  ℕ, ◌+◌, ℤ, pos, String, ◌≡◌, ◌∙◌, sym, ap, true, none, some, List, [], ◌∷◌, ◌++◌, map, ◌==◌,
  string_eq,
}
use water_info.Base.Int.{is_int4}
use water_info.Plan.Snapshot.{Runtime, PlanSnapshot, ChangeEntry}
use water_info.Plan.Diff.{diff_plan}
use water_info.Plan.Tables.{
  PlanStatus, draft, approved, PlanRow, Reviewer, AuditRecord, Db, approve, edit_after_approve,
  delete_where, update_where,
}
use water_info.Plan.Tx.Inversion.{Returns, >>=-ok, pure-ok, gets-ok, exec-ok, transaction-ok}
use water_info.Plan.Patch.{PlanPatch, build_snapshot}
use water_info.Plan.Patch.Apply.{apply_patch}
use water_info.Plan.Review.{
  draft_rows, build_plan_response, PlanResponse, ApproveResponse, buffered, edit_draft_tx,
  edit_draft, edit_approved_tx, edit_approved, approve_tx,
}
use water_info.Plan.Review.Steps.{
  Locked, lock_plan-ok, update_plan-ok, insert_audit_draft-ok, insert_audit_record-ok,
  insert_audit_changes-ok,
}

module _ (rt : Runtime) (now : ℕ) (plan_id : String) (version : ℤ) (reviewer : Reviewer) where
  -- An edit has read a row, applied its patch to the database, and left `after`.
  pub record Edited (allowed : PlanStatus) (patch : PlanPatch) (db after : Db) : Type 0 where
    pub row : PlanRow
    pub locked : Locked plan_id allowed version db row
    pub snapshot : PlanSnapshot
    pub patched : Db
    pub applies :
        Returns
          (apply_patch rt plan_id now (build_snapshot db plan_id row.summary) patch)
          db
          snapshot
          patched
    pub fits : is_int4 (pos (row.version + 1)) ≡ true
    pub plans :
        after.plans
        ≡ update_where
            (λ r. r.plan_id == plan_id)
            (λ r. record r {
              version = row.version + 1;
              summary = snapshot.summary;
              updated_at = now;
            })
            patched.plans
    pub actions : after.actions ≡ patched.actions
    pub resources : after.resources ≡ patched.resources
    pub notifications : after.notifications ≡ patched.notifications

  -- A draft edit changes, beside the plan and its entries, only the buffer of changes.
  pub record DraftEdited (patch : PlanPatch) (db after : Db) : Type 0 where
    pub edited : Edited draft patch db after
    pub records : after.audit_records ≡ edited.patched.audit_records
    pub changes : after.audit_changes ≡ edited.patched.audit_changes
    pub drafts :
        after.audit_drafts
        ≡ edited.patched.audit_drafts
          ++ draft_rows plan_id now reviewer
              (diff_plan rt (build_snapshot db plan_id edited.row.summary) edited.snapshot)

  edit_draft_tx-ok :
      (patch : PlanPatch) (db : Db) (a : PlanResponse) (db' : Db)
      → Returns (edit_draft_tx rt now plan_id version patch reviewer) db a db'
      → DraftEdited patch db db'
  unfolding edit_draft_tx
  edit_draft_tx-ok patch db a db' h =
      let (row, d₁, l, h₁) = >>=-ok _ _ db a db' h in
      let (old, d₂, g, h₂) = >>=-ok _ _ d₁ a db' h₁ in
      let (snapshot, d₃, p, h₃) = >>=-ok _ _ d₂ a db' h₂ in
      let (u, d₄, i, h₄) = >>=-ok _ _ d₃ a db' h₃ in
      let (w, d₅, x, r) = >>=-ok _ _ d₄ a db' h₄ in
      let (locked, e₁) = lock_plan-ok plan_id draft version db row d₁ l in
      let (is_old, e₂) = gets-ok (λ d. build_snapshot d plan_id row.summary) d₁ old d₂ g in
      let e₄ = insert_audit_draft-ok plan_id now reviewer (diff_plan rt old snapshot) d₃ u d₄ i in
      let (fits, e₅) = update_plan-ok plan_id (row.version + 1) _ d₄ w d₅ x in
      let (_, e₆) = gets-ok (build_plan_response plan_id) d₅ a db' r in
      record {
        edited = record {
          row = row;
          locked = locked;
          snapshot = snapshot;
          patched = d₃;
          applies = cc (is_old, e₁, e₂, p);
          fits = fits;
          plans = cc;
          actions = cc;
          resources = cc;
          notifications = cc;
        };
        records = cc;
        changes = cc;
        drafts = cc;
      }

  pub edit_draft-ok :
      (patch : PlanPatch) (db : Db) (a : PlanResponse) (db' : Db)
      → Returns (edit_draft rt now plan_id version patch reviewer) db a db'
      → DraftEdited patch db db'
  unfolding edit_draft
  edit_draft-ok patch db a db' h =
      edit_draft_tx-ok patch db a db'
        (transaction-ok (edit_draft_tx rt now plan_id version patch reviewer) db a db' h)

  -- A later edit writes one audit record with its changes, and leaves the buffer alone.
  pub record ApprovedEdited (patch : PlanPatch) (db after : Db) : Type 0 where
    pub edited : Edited approved patch db after
    pub records :
        after.audit_records
        ≡ edited.patched.audit_records
          ++ record {
            id = edited.patched.seq.audit_id;
            plan_id = plan_id;
            action = edit_after_approve;
            reviewer = reviewer;
            reviewed_at = now;
            opinion = none;
            from_status = approved;
            to_status = approved;
            from_version = edited.row.version;
            to_version = edited.row.version + 1;
          }
            ∷ []
    pub changes :
        after.audit_changes
        ≡ edited.patched.audit_changes
          ++ map
              (λ c. record { audit_id = edited.patched.seq.audit_id; change = c })
              (diff_plan rt (build_snapshot db plan_id edited.row.summary) edited.snapshot)
    pub drafts : after.audit_drafts ≡ edited.patched.audit_drafts

  later_record : ℕ → PlanRow → AuditRecord
  later_record id row = record {
    id = id;
    plan_id = plan_id;
    action = edit_after_approve;
    reviewer = reviewer;
    reviewed_at = now;
    opinion = none;
    from_status = approved;
    to_status = approved;
    from_version = row.version;
    to_version = row.version + 1;
  }

  approved_edited :
      (patch : PlanPatch) (db db' : Db) (row : PlanRow) (snapshot : PlanSnapshot)
      (d₁ d₂ d₃ d₄ d₅ d₆ : Db) (old : PlanSnapshot) (id : ℕ)
      → Locked plan_id approved version db row
      → is_int4 (pos (row.version + 1)) ≡ true
      → Returns (apply_patch rt plan_id now old patch) d₂ snapshot d₃
      → build_snapshot d₁ plan_id row.summary ≡ old
      → id ≡ d₄.seq.audit_id
      → d₁ ≡ db
      → d₂ ≡ d₁
      → d₄ ≡ record d₃ {
        plans =
            update_where
              (λ r. r.plan_id == plan_id)
              (λ r. record r {
                version = row.version + 1;
                summary = snapshot.summary;
                updated_at = now;
              })
              d₃.plans;
      }
      → d₅ ≡ record d₄ {
        audit_records = d₄.audit_records ++ later_record id row ∷ [];
        seq = record d₄.seq { audit_id = id + 1 };
      }
      → d₆ ≡ record d₅ {
        audit_changes =
            d₅.audit_changes
            ++ map (λ c. record { audit_id = id; change = c }) (diff_plan rt old snapshot);
      }
      → db' ≡ d₆
      → ApprovedEdited patch db db'
  unfolding later_record
  approved_edited patch db db' row snapshot d₁ d₂ d₃ d₄ d₅ d₆ old id locked fits p is_old is_id e₁
        e₂ e₄ e₅ e₆ e₇ =
      let same : id ≡ d₃.seq.audit_id = is_id ∙ ap (λ (d : Db). d.seq.audit_id) e₄ in
      let before : old ≡ build_snapshot db plan_id row.summary = sym is_old ∙ rw e₁ in
      record {
        edited = record {
          row = row;
          locked = locked;
          snapshot = snapshot;
          patched = d₃;
          applies = rw (← before, ← e₁, ← e₂) p;
          fits = fits;
          plans = rw (e₇, e₆, e₅, e₄);
          actions = rw (e₇, e₆, e₅, e₄);
          resources = rw (e₇, e₆, e₅, e₄);
          notifications = rw (e₇, e₆, e₅, e₄);
        };
        records = rw (e₇, e₆, e₅, e₄, same);
        changes = rw (e₇, e₆, e₅, e₄, same, before);
        drafts = rw (e₇, e₆, e₅, e₄);
      }

  edit_approved_tx-ok :
      (patch : PlanPatch) (db : Db) (a : PlanResponse) (db' : Db)
      → Returns (edit_approved_tx rt now plan_id version patch reviewer) db a db'
      → ApprovedEdited patch db db'
  unfolding edit_approved_tx later_record
  edit_approved_tx-ok patch db a db' h =
      let (row, d₁, l, h₁) = >>=-ok _ _ db a db' h in
      let (old, d₂, g, h₂) = >>=-ok _ _ d₁ a db' h₁ in
      let (snapshot, d₃, p, h₃) = >>=-ok _ _ d₂ a db' h₂ in
      let (w, d₄, x, h₄) = >>=-ok _ _ d₃ a db' h₃ in
      let (id, d₅, i, h₅) = >>=-ok _ _ d₄ a db' h₄ in
      let (u, d₆, j, r) = >>=-ok _ _ d₅ a db' h₅ in
      let (locked, e₁) = lock_plan-ok plan_id approved version db row d₁ l in
      let (is_old, e₂) = gets-ok (λ d. build_snapshot d plan_id row.summary) d₁ old d₂ g in
      let (fits, e₄) = update_plan-ok plan_id (row.version + 1) _ d₃ w d₄ x in
      let (is_id, e₅) = insert_audit_record-ok _ d₄ id d₅ i in
      let e₆ = insert_audit_changes-ok id (diff_plan rt old snapshot) d₅ u d₆ j in
      let (_, e₇) = gets-ok (build_plan_response plan_id) d₆ a db' r in
      approved_edited patch db db' row snapshot d₁ d₂ d₃ d₄ d₅ d₆ old id locked fits p is_old is_id
        e₁ e₂ e₄ e₅ e₆ e₇

  pub edit_approved-ok :
      (patch : PlanPatch) (db : Db) (a : PlanResponse) (db' : Db)
      → Returns (edit_approved rt now plan_id version patch reviewer) db a db'
      → ApprovedEdited patch db db'
  unfolding edit_approved
  edit_approved-ok patch db a db' h =
      edit_approved_tx-ok patch db a db'
        (transaction-ok (edit_approved_tx rt now plan_id version patch reviewer) db a db' h)

  -- An approval writes one audit record, moves the buffered changes under it, and changes the
  -- plan's status and version.
  pub record Approved (opinion : String) (db after : Db) : Type 0 where
    pub row : PlanRow
    pub locked : Locked plan_id draft version db row
    pub fits : is_int4 (pos (row.version + 1)) ≡ true
    pub records :
        after.audit_records
        ≡ db.audit_records
          ++ record {
            id = db.seq.audit_id;
            plan_id = plan_id;
            action = approve;
            reviewer = reviewer;
            reviewed_at = now;
            opinion = some opinion;
            from_status = draft;
            to_status = approved;
            from_version = row.version;
            to_version = row.version + 1;
          }
            ∷ []
    pub changes :
        after.audit_changes
        ≡ db.audit_changes
          ++ map (λ c. record { audit_id = db.seq.audit_id; change = c }) (buffered plan_id db)
    pub drafts : after.audit_drafts ≡ delete_where (λ d. d.plan_id == plan_id) db.audit_drafts
    pub plans :
        after.plans
        ≡ update_where
            (λ r. r.plan_id == plan_id)
            (λ r. record r { status = approved; version = row.version + 1; updated_at = now })
            db.plans
    pub actions : after.actions ≡ db.actions
    pub resources : after.resources ≡ db.resources
    pub notifications : after.notifications ≡ db.notifications

  first_record : String → ℕ → PlanRow → AuditRecord
  first_record opinion id row = record {
    id = id;
    plan_id = plan_id;
    action = approve;
    reviewer = reviewer;
    reviewed_at = now;
    opinion = some opinion;
    from_status = draft;
    to_status = approved;
    from_version = row.version;
    to_version = row.version + 1;
  }

  has_approved :
      (opinion : String) (db db' : Db) (row : PlanRow) (d₁ d₂ d₃ d₄ d₅ d₆ : Db)
      (entries : List ChangeEntry) (id : ℕ)
      → Locked plan_id draft version db row
      → is_int4 (pos (row.version + 1)) ≡ true
      → buffered plan_id d₁ ≡ entries
      → id ≡ d₂.seq.audit_id
      → d₁ ≡ db
      → d₂ ≡ d₁
      → d₃ ≡ record d₂ {
        audit_records = d₂.audit_records ++ first_record opinion id row ∷ [];
        seq = record d₂.seq { audit_id = id + 1 };
      }
      → d₄ ≡ record d₃ {
        audit_changes = d₃.audit_changes ++ map (λ c. record { audit_id = id; change = c }) entries;
      }
      → d₅ ≡ record d₄ { audit_drafts = delete_where (λ d. d.plan_id == plan_id) d₄.audit_drafts }
      → d₆ ≡ record d₅ {
        plans =
            update_where
              (λ r. r.plan_id == plan_id)
              (λ r. record r { status = approved; version = row.version + 1; updated_at = now })
              d₅.plans;
      }
      → db' ≡ d₆
      → Approved opinion db db'
  unfolding first_record
  has_approved opinion db db' row d₁ d₂ d₃ d₄ d₅ d₆ entries id locked fits are is_id e₁ e₂ e₃ e₄ e₅
        e₆ e₇ =
      let same : id ≡ db.seq.audit_id = is_id ∙ ap (λ (d : Db). d.seq.audit_id) (e₂ ∙ e₁) in
      let found : entries ≡ buffered plan_id db = sym are ∙ rw e₁ in
      record {
        row = row;
        locked = locked;
        fits = fits;
        records = rw (e₇, e₆, e₅, e₄, e₃, e₂, e₁, same);
        changes = rw (e₇, e₆, e₅, e₄, e₃, e₂, e₁, same, found);
        drafts = rw (e₇, e₆, e₅, e₄, e₃, e₂, e₁);
        plans = rw (e₇, e₆, e₅, e₄, e₃, e₂, e₁);
        actions = rw (e₇, e₆, e₅, e₄, e₃, e₂, e₁);
        resources = rw (e₇, e₆, e₅, e₄, e₃, e₂, e₁);
        notifications = rw (e₇, e₆, e₅, e₄, e₃, e₂, e₁);
      }

  pub approve_tx-ok :
      (opinion : String) (db : Db) (a : ApproveResponse) (db' : Db)
      → Returns (approve_tx rt now plan_id version opinion reviewer) db a db'
      → Approved opinion db db'
  unfolding approve_tx first_record
  approve_tx-ok opinion db a db' h =
      let (row, d₁, l, h₁) = >>=-ok _ _ db a db' h in
      let (entries, d₂, g, h₂) = >>=-ok _ _ d₁ a db' h₁ in
      let (id, d₃, i, h₃) = >>=-ok _ _ d₂ a db' h₂ in
      let (u, d₄, j, h₄) = >>=-ok _ _ d₃ a db' h₃ in
      let (v, d₅, x, h₅) = >>=-ok _ _ d₄ a db' h₄ in
      let (w, d₆, y, r) = >>=-ok _ _ d₅ a db' h₅ in
      let (locked, e₁) = lock_plan-ok plan_id draft version db row d₁ l in
      let (are, e₂) = gets-ok (buffered plan_id) d₁ entries d₂ g in
      let (is_id, e₃) = insert_audit_record-ok _ d₂ id d₃ i in
      let e₄ = insert_audit_changes-ok id entries d₃ u d₄ j in
      let e₅ = exec-ok _ d₄ v d₅ x in
      let (fits, e₆) = update_plan-ok plan_id (row.version + 1) _ d₅ w d₆ y in
      let (_, e₇) = pure-ok _ d₆ a db' r in
      has_approved opinion db db' row d₁ d₂ d₃ d₄ d₅ d₆ entries id locked fits are is_id e₁ e₂ e₃ e₄
        e₅ e₆ e₇
