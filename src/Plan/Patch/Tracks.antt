-- ===== src/Plan/Patch/Tracks.antt =====
-- services/plan_review.py: the list that `_apply_actions_patch` returns, beside the rows it writes.
use water_info.Base.{
  ◌∙◌, ap, ◌==◌, ◌≡◌, ◌∷◌, ◌++◌, List, Option, String, [], none, refl, some, ℕ, ℤ, inl, inr,
  Bool-cases, string_eq,
}
use water_info.Plan.Snapshot.{Runtime, ActionItem}
use water_info.Plan.Tables.{ActionRow, Db}
use water_info.Plan.Tables.Views.{view, without, replace, view-delete, view-insert, view-update}
use water_info.Plan.Tx.{Tx, raise}
use water_info.Plan.Tx.Inversion.{Returns, >>=-ok, require-ok, pure-ok, gets-ok, exec-ok}
use water_info.Plan.Patch.{
  Edits, Work, ActionUpsert, Number, int, not_int, action_item, action_table, contains, for_each,
}
use water_info.Plan.Patch.Args.{not_null, raise_all, valid_priority}
use water_info.Plan.Patch.Actions.{
  delete_action, draw_uuid, new_action_id, insert_action, update_action, write_action,
  upsert_action, apply_actions_patch,
}

-- Two lists of actions, each after the same deletions, replacements and additions by key.
pub data SameEdits (xs vs : List ActionItem) : List ActionItem → List ActionItem → Type 0 where
  untouched : SameEdits xs vs xs vs
  deleted :
      (k : String) (ys us : List ActionItem)
      → SameEdits xs vs ys us
      → SameEdits xs vs (without action_table k ys) (without action_table k us)
  replaced :
      (k : String) (a : ActionItem) (ys us : List ActionItem)
      → SameEdits xs vs ys us
      → SameEdits xs vs (replace action_table k a ys) (replace action_table k a us)
  added :
      (a : ActionItem) (ys us : List ActionItem)
      → SameEdits xs vs ys us
      → SameEdits xs vs (ys ++ a ∷ []) (us ++ a ∷ [])

module _ (rt : Runtime) (plan_id : String) (now : ℕ) (xs vs : List ActionItem) where
  -- The working list and the plan's rows have had the same edits.
  abbrev Tracks : Work String ActionItem → Db → Type 0
  Tracks w db = SameEdits xs vs w.items (view action_table plan_id db.actions)

  delete_action-Tracks :
      (w : Work String ActionItem) (k : String) (db : Db) (w' : Work String ActionItem) (db' : Db)
      → Returns (delete_action rt plan_id now w k) db w' db'
      → Tracks w db
      → Tracks w' db'
  unfolding delete_action
  delete_action-Tracks w k db w' db' h t =
      let (u, d₁, g, h₁) = >>=-ok _ _ db w' db' h in
      let (v, d₂, x, p) = >>=-ok _ _ d₁ w' db' h₁ in
      let (_, e₁) = require-ok _ _ db u d₁ g in
      let e₂ = exec-ok _ d₁ v d₂ x in
      let (same, e₃) = pure-ok _ d₂ w' db' p in
      let rows : view action_table plan_id db'.actions
          ≡ without action_table k (view action_table plan_id db.actions) =
        rw (e₃, e₂, e₁) (view-delete action_table plan_id k db.actions) in
      rw (← same, rows) (deleted k w.items (view action_table plan_id db.actions) t)

  not_null-same :
      (s : Option String) (db : Db) (a : String) (db' : Db)
      → Returns (not_null s) db a db'
      → db' ≡ db
  unfolding not_null raise
  not_null-same none db a db' h = cc
  not_null-same (some s) db a db' h = (pure-ok s db a db' h).1

  update_action-Tracks :
      (w : Work String ActionItem) (k d : String) (n : ℤ) (a s : Option String) (db : Db)
      (w' : Work String ActionItem) (db' : Db)
      → Returns (update_action rt plan_id now w k d n a s) db w' db'
      → Tracks w db
      → Tracks w' db'
  unfolding update_action action_item
  update_action-Tracks w k d n a s db w' db' h t =
      let (dept, d₁, g₁, h₁) = >>=-ok _ _ db w' db' h in
      let (state, d₂, g₂, h₂) = >>=-ok _ _ d₁ w' db' h₁ in
      let (u, d₃, g₃, h₃) = >>=-ok _ _ d₂ w' db' h₂ in
      let (v, d₄, x, p) = >>=-ok _ _ d₃ w' db' h₃ in
      let e₁ = not_null-same a db dept d₁ g₁ in
      let e₂ = not_null-same s d₁ state d₂ g₂ in
      let (_, e₃) = require-ok _ _ d₂ u d₃ g₃ in
      let e₄ = exec-ok _ d₃ v d₄ x in
      let (same, e₅) = pure-ok _ d₄ w' db' p in
      let new : ActionItem = record {
        action_id = k;
        description = d;
        priority = n;
        assignee = dept;
        status = state;
      } in
      let rows : view action_table plan_id db'.actions
          ≡ replace action_table k new (view action_table plan_id db.actions) =
        rw (e₅, e₄, e₃, e₂, e₁)
          (view-update action_table plan_id k new _ db.actions
            (λ r mine key. (mine, rw key refl))) in
      rw (← same, rows) (replaced k new w.items (view action_table plan_id db.actions) t)

  draw_uuid-actions :
      (db : Db) (a : String) (db' : Db)
      → Returns (draw_uuid rt plan_id now) db a db'
      → db'.actions ≡ db.actions
  unfolding draw_uuid
  draw_uuid-actions db a db' h =
      let (n, d₁, g, h₁) = >>=-ok _ _ db a db' h in
      let (v, d₂, x, p) = >>=-ok _ _ d₁ a db' h₁ in
      let (_, e₁) = gets-ok _ db n d₁ g in
      let e₂ = exec-ok _ d₁ v d₂ x in let (_, e₃) = pure-ok _ d₂ a db' p in rw (e₃, e₂, e₁) refl

  new_action_id-actions :
      (k : Option String) (db : Db) (a : String) (db' : Db)
      → Returns (new_action_id rt plan_id now k) db a db'
      → db'.actions ≡ db.actions
  unfolding new_action_id
  new_action_id-actions none db a db' h = draw_uuid-actions db a db' h
  new_action_id-actions (some s) db a db' h = elim (Bool-cases (s == "")) [
    | inl blank ↦ draw_uuid-actions db a db' (rw blank at h)
    | inr given ↦ ap (λ (d : Db). d.actions) (pure-ok s db a db' (rw given at h)).1
  ]

  Tracks-added :
      (w w' : Work String ActionItem) (db db' : Db) (row : ActionRow)
      → row.plan_id ≡ plan_id
      → w.items ++ action_item row ∷ [] ≡ w'.items
      → db'.actions ≡ db.actions ++ row ∷ []
      → Tracks w db
      → Tracks w' db'
  Tracks-added w w' db db' row mine items acts t =
      rw (← items, acts, view-insert action_table plan_id row db.actions mine)
        (added (action_item row) w.items (view action_table plan_id db.actions) t)

  insert_action-Tracks :
      (w : Work String ActionItem) (k : Option String) (d : String) (n : ℤ) (a s : Option String)
      (db : Db) (w' : Work String ActionItem) (db' : Db)
      → Returns (insert_action rt plan_id now w k d n a s) db w' db'
      → Tracks w db
      → Tracks w' db'
  unfolding insert_action
  insert_action-Tracks w k d n a s db w' db' h t =
      let (id, d₁, g₁, h₁) = >>=-ok _ _ db w' db' h in
      let (dept, d₂, g₂, h₂) = >>=-ok _ _ d₁ w' db' h₁ in
      let (state, d₃, g₃, h₃) = >>=-ok _ _ d₂ w' db' h₂ in
      let (u, d₄, g₄, h₄) = >>=-ok _ _ d₃ w' db' h₃ in
      let (v, d₅, x, p) = >>=-ok _ _ d₄ w' db' h₄ in
      let e₁ = new_action_id-actions k db id d₁ g₁ in
      let e₂ = not_null-same a d₁ dept d₂ g₂ in
      let e₃ = not_null-same s d₂ state d₃ g₃ in
      let (_, e₄) = require-ok _ _ d₃ u d₄ g₄ in
      let e₅ = exec-ok _ d₄ v d₅ x in
      let (same, e₆) = pure-ok _ d₅ w' db' p in
      let row : ActionRow = record {
        plan_id = plan_id;
        action_id = id;
        action_type = "";
        description = d;
        priority = n;
        responsible_dept = dept;
        deadline_minutes = none;
        status = state;
        created_at = now;
      } in
      let acts : db'.actions ≡ db.actions ++ row ∷ [] =
        ap (λ (d : Db). d.actions) (e₆ ∙ e₅)
        ∙ ap (λ (d : Db). d.actions ++ row ∷ []) (e₄ ∙ e₃ ∙ e₂)
        ∙ ap (λ rs. rs ++ row ∷ []) e₁ in
      Tracks-added w w' db db' row refl (ap (λ (x : Work String ActionItem). x.items) same) acts t

  write_action-Tracks :
      (w : Work String ActionItem) (k : Option String) (d : String) (n : ℤ) (a s : Option String)
      (db : Db) (w' : Work String ActionItem) (db' : Db)
      → Returns (write_action rt plan_id now w k d n a s) db w' db'
      → Tracks w db
      → Tracks w' db'
  unfolding write_action
  write_action-Tracks w none d n a s db w' db' h t =
      insert_action-Tracks w none d n a s db w' db' h t
  write_action-Tracks w (some k) d n a s db w' db' h t = elim (Bool-cases (contains w.ids k)) [
    | inl old ↦ update_action-Tracks w k d n a s db w' db' (rw old at h) t
    | inr new ↦ insert_action-Tracks w (some k) d n a s db w' db' (rw new at h) t
  ]

  raise_all-same :
      (es : List String) (db : Db) (u : Unit {0}) (db' : Db)
      → Returns (raise_all es) db u db'
      → db' ≡ db
  unfolding raise_all raise
  raise_all-same [] db u db' h = (pure-ok tt db u db' h).1
  raise_all-same (e ∷ es) db u db' h = cc

  valid_priority-same :
      (x : Option Number) (db : Db) (n : ℤ) (db' : Db)
      → Returns (valid_priority x) db n db'
      → db' ≡ db
  unfolding valid_priority raise
  valid_priority-same none db n db' h = cc
  valid_priority-same (some not_int) db n db' h = cc
  valid_priority-same (some (int i)) db n db' h =
      let (u, d₁, g, p) = >>=-ok _ _ db n db' h in
      (pure-ok i d₁ n db' p).1 ∙ (require-ok _ _ db u d₁ g).1

  upsert_action-Tracks :
      (w : Work String ActionItem) (x : ActionUpsert) (db : Db) (w' : Work String ActionItem)
      (db' : Db)
      → Returns (upsert_action rt plan_id now w x) db w' db'
      → Tracks w db
      → Tracks w' db'
  unfolding upsert_action
  upsert_action-Tracks w x db w' db' h t =
      let (u, d₁, g₁, h₁) = >>=-ok _ _ db w' db' h in
      let (n, d₂, g₂, h₂) = >>=-ok _ _ d₁ w' db' h₁ in
      let e₁ = raise_all-same _ db u d₁ g₁ in
      let e₂ = valid_priority-same _ d₁ n d₂ g₂ in
      write_action-Tracks w _ _ n _ _ d₂ w' db' h₂ (rw (e₂, e₁) t)

  for_each-Tracks :
      {X : Type 0} (body : Work String ActionItem → X → Tx (Work String ActionItem)) (es : List X)
      → ((w : Work String ActionItem) (x : X) (db : Db) (w' : Work String ActionItem) (db' : Db)
          → Returns (body w x) db w' db'
          → Tracks w db
          → Tracks w' db')
      → (w : Work String ActionItem) (db : Db) (w' : Work String ActionItem) (db' : Db)
      → Returns (for_each body w es) db w' db'
      → Tracks w db
      → Tracks w' db'
  unfolding for_each
  for_each-Tracks body [] one w db w' db' h t =
      let (same, e) = pure-ok w db w' db' h in rw (← same, e) t
  for_each-Tracks body (x ∷ es) one w db w' db' h t =
      let (w₁, d₁, g, rest) = >>=-ok (body w x) _ db w' db' h in
      for_each-Tracks body es one w₁ d₁ w' db' rest (one w x db w₁ d₁ g t)

-- When a patch of actions returns, the list that it returns and the plan's rows have been through
-- the same edits, in the same order: the list goes from `current` to the result as the plan's
-- actions in the database go from what they were to what they are.
pub apply_actions_patch-SameEdits :
    (rt : Runtime) (plan_id : String) (now : ℕ) (current : List ActionItem)
    (patch : Edits String ActionUpsert) (db : Db) (result : List ActionItem) (db' : Db)
    → Returns (apply_actions_patch rt plan_id now current patch) db result db'
    → SameEdits current
        (view action_table plan_id db.actions)
        result
        (view action_table plan_id db'.actions)
unfolding apply_actions_patch
apply_actions_patch-SameEdits rt plan_id now current patch db result db' h =
    let vs = view action_table plan_id db.actions in
    let (w₁, d₁, g, h₁) = >>=-ok _ _ db result db' h in
    let (w₂, d₂, k, p) = >>=-ok _ _ d₁ result db' h₁ in
    let (same, e) = pure-ok _ d₂ result db' p in
    let after_deletes =
      for_each-Tracks rt plan_id now current vs (delete_action rt plan_id now) patch.delete
        (delete_action-Tracks rt plan_id now current vs) _ db w₁ d₁ g untouched in
    let after_upserts =
      for_each-Tracks rt plan_id now current vs (upsert_action rt plan_id now) patch.upsert
        (upsert_action-Tracks rt plan_id now current vs) w₁ d₁ w₂ d₂ k after_deletes in
    rw (← same, e) after_upserts
