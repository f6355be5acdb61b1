-- ===== src/Platform/Approvals.antt =====
-- platform/approvals.py: `ApprovalsDAO` over the table pending_approvals.
use water_info.Base.{
  ℕ, String, ◌≡◌, refl, Bool, true, false, ◌&&◌, Option, none, some, List, [], ◌∷◌, ◌++◌, ◌==◌,
  eq_of_==, ==_refl, ==_sym, ◌∙◌, string_eq, if◌then◌else◌, find, any, keep, length, ◌≤◌, ◌⊎◌,
  nat_beq, arith, inl, inr, Bool-cases,
}
use water_info.Base.Result.{Result, ok, err}
use water_info.Plan.Tables.{update_where}
use water_info.Routing.State.{Next}

-- The keys of the payload that are read again, or are written by the endpoint.
pub record Payload : Type 0 where
  pub original_next_agent : Option Next
  pub query : String

pub record PendingApprovalRow : Type 0 where
  pub approval_id : String
  pub session_id : String
  pub agent_run_id : String
  pub approval_type : String
  pub payload_json : Payload
  pub status : String
  pub created_at : ℕ
  pub resolved_at : Option ℕ
  pub resolved_by : Option String
  pub resolution : Option String

-- The exception of a duplicate primary key.
pub data DaoError : Type 0 where
  unique_violation : DaoError

unfoldable pub get : String → List PendingApprovalRow → Option PendingApprovalRow
unfolding find
get approval_id table = find (λ r. r.approval_id == approval_id) table

-- INSERT INTO pending_approvals; the columns that it does not name are NULL.
unfoldable pub insert_pending :
    PendingApprovalRow
    → List PendingApprovalRow
    → Result DaoError (Unit {0}) × List PendingApprovalRow
unfolding any
insert_pending row table =
    if any (λ r. r.approval_id == row.approval_id) table then (err unique_violation, table) else (
      ok tt,
      table ++ record row { resolved_at = none; resolved_by = none; resolution = none } ∷ [],
    )

-- WHERE approval_id = $4 AND status = 'pending'
unfoldable pub is_pending : String → PendingApprovalRow → Bool
is_pending approval_id r = r.approval_id == approval_id && r.status == "pending"

-- What the UPDATE sets.
abbrev pub resolved : ℕ → String → String → String → PendingApprovalRow → PendingApprovalRow
resolved now new_status resolution resolved_by r = record r {
  status = new_status;
  resolution = some resolution;
  resolved_by = some resolved_by;
  resolved_at = some now;
}

-- `cas_resolve`: the answer is whether the command tag is "UPDATE 1".
unfoldable pub cas_resolve :
    ℕ → String → String → String → String → List PendingApprovalRow → Bool × List PendingApprovalRow
unfolding is_pending update_where keep
cas_resolve now approval_id new_status resolution resolved_by table = (
  nat_beq (length (keep (is_pending approval_id) table)) 1,
  update_where (is_pending approval_id) (resolved now new_status resolution resolved_by) table,
)

-- approval_id is the primary key.
pub data HasKey : List PendingApprovalRow → Type 0 where
  empty : HasKey []
  more :
      (r : PendingApprovalRow) (rows : List PendingApprovalRow)
      → any (λ x. x.approval_id == r.approval_id) rows ≡ false
      → HasKey rows
      → HasKey (r ∷ rows)

update_where-none :
    (p : PendingApprovalRow → Bool) (f : PendingApprovalRow → PendingApprovalRow)
    (rows : List PendingApprovalRow)
    → keep p rows ≡ []
    → update_where p f rows ≡ rows
unfolding keep update_where
update_where-none p f [] h = refl
update_where-none p f (r ∷ rows) h = ground (arith, update_where-none p f rows)

nil_of_length : (rows : List PendingApprovalRow) → length rows ≡ 0 → rows ≡ []
nil_of_length [] h = refl
nil_of_length (r ∷ rows) h = ground (arith, h)

module _ (now : ℕ) (id new_status resolution resolved_by : String) where
  none_pending :
      (rows : List PendingApprovalRow)
      → (new_status == "pending") ≡ false
      → keep
          (is_pending id)
          (update_where (is_pending id) (resolved now new_status resolution resolved_by) rows)
        ≡ []
  unfolding keep update_where is_pending
  none_pending [] h = refl
  none_pending (r ∷ rows) h = ground (arith, none_pending rows h)

  no_key :
      (rows : List PendingApprovalRow)
      → any (λ x. x.approval_id == id) rows ≡ false
      → keep (is_pending id) rows ≡ []
  unfolding keep any is_pending
  no_key [] h = refl
  no_key (r ∷ rows) h = ground (arith, no_key rows)

  -- Once an approval is resolved, a second call for it, whatever it asks for, is refused and changes
  -- no row. The status that resolves it is not "pending".
  pub cas_resolve-twice :
      (later : ℕ) (status' resolution' resolved_by' : String) (table : List PendingApprovalRow)
      → (new_status == "pending") ≡ false
      → let once = (cas_resolve now id new_status resolution resolved_by table).1 in
        cas_resolve later id status' resolution' resolved_by' once ≡ (false, once)
  unfolding cas_resolve
  cas_resolve-twice later status' resolution' resolved_by' table h =
      let none_left = none_pending table h in
      let same =
        update_where-none (is_pending id) (resolved later status' resolution' resolved_by')
          (update_where (is_pending id) (resolved now new_status resolution resolved_by) table)
          none_left in
      rw (none_left, same) refl

  -- With at most one row that waits, a call takes it and leaves none, or finds none and changes
  -- nothing. The status that it writes is not "pending".
  pub cas_resolve-waiting :
      (table : List PendingApprovalRow)
      → (new_status == "pending") ≡ false
      → length (keep (is_pending id) table) ≤ 1
      → let done = cas_resolve now id new_status resolution resolved_by table in
        ((done.0 ≡ true)
          × (length (keep (is_pending id) table) ≡ 1)
          × (length (keep (is_pending id) done.1) ≡ 0))
        ⊎ ((done.0 ≡ false) × (done.1 ≡ table))
  unfolding cas_resolve
  cas_resolve-waiting table h few =
      elim (Bool-cases (nat_beq (length (keep (is_pending id) table)) 1)) [
        | inl one ↦ inl (one, ground (arith, one), rw (none_pending table h) refl)
        | inr other ↦
            let empty : keep (is_pending id) table ≡ [] =
              nil_of_length _ (ground (arith, few, other)) in
            inr (other, update_where-none (is_pending id) _ table empty)
      ]

  -- A call for a pending approval succeeds, and the approval then has the new status, the resolution
  -- and who resolved it. The table has its primary key.
  pub cas_resolve-pending :
      (table : List PendingApprovalRow) (row : PendingApprovalRow)
      → HasKey table
      → get id table ≡ some row
      → (row.status == "pending") ≡ true
      → let done = cas_resolve now id new_status resolution resolved_by table in
        (done.0 ≡ true)
        × (get id done.1 ≡ some (resolved now new_status resolution resolved_by row))
  unfolding cas_resolve get find keep update_where is_pending
  cas_resolve-pending table row empty there h = cc
  cas_resolve-pending table row (more r rows fresh key) there h =
      elim (Bool-cases (r.approval_id == id)) [
        | inl mine ↦
            let alone = no_key rows (rw (← eq_of_== r.approval_id id mine) fresh) in
            let same : r ≡ row = ground (arith, there, mine) in ground (arith, alone, same, mine, h)
        | inr other ↦
            let rest = cas_resolve-pending rows row key (ground (arith, there, other)) h in
            ground (arith, rest.0, rest.1, other)
      ]

module _ (row : PendingApprovalRow) where
  -- What a fresh key is inserted under is read back, and the key stays a key.
  pub get-append :
      (table : List PendingApprovalRow)
      → any (λ r. r.approval_id == row.approval_id) table ≡ false
      → get row.approval_id (table ++ row ∷ []) ≡ some row
  unfolding get find any
  get-append [] fresh = rw (==_refl row.approval_id) refl
  get-append (r ∷ rows) fresh = ground (arith, get-append rows)

  any-append :
      (p : PendingApprovalRow → Bool) (rows : List PendingApprovalRow)
      → any p rows ≡ false
      → p row ≡ false
      → any p (rows ++ row ∷ []) ≡ false
  unfolding any
  any-append p [] none_old other = rw other refl
  any-append p (r ∷ rows) none_old other = ground (arith, any-append p rows)

  pub HasKey-append :
      (table : List PendingApprovalRow)
      → HasKey table
      → any (λ r. r.approval_id == row.approval_id) table ≡ false
      → HasKey (table ++ row ∷ [])
  unfolding any
  HasKey-append table empty fresh = more row [] refl empty
  HasKey-append table (more r rows alone key) fresh =
      let apart : (row.approval_id == r.approval_id) ≡ false =
        ==_sym row.approval_id r.approval_id ∙ ground (arith, fresh) in
      let rest : any (λ x. x.approval_id == row.approval_id) rows ≡ false = ground (arith, fresh) in
      more r (rows ++ row ∷ []) (any-append (λ x. x.approval_id == r.approval_id) rows alone apart)
        (HasKey-append rows key rest)
