-- ===== src/Platform/Gateway.antt =====
-- platform/human_in_the_loop.py: `HumanInTheLoopGateway`. Times are in seconds.
use water_info.Base.{
  ℕ, ◌+◌, ◌*◌, String, ◌≡◌, refl, ◌∙◌, Bool, true, false, Option, none, some, List, [], ◌∷◌, ◌==◌,
  ==_refl, eq_of_==, string_eq, if◌then◌else◌, leb, arith, inl, inr, Bool-cases,
}
use water_info.Base.Result.{Result, ok, err}

pub record ApprovalDecision : Type 0 where
  pub approved : Bool
  pub approver_id : String
  pub reason : String
  pub timestamp : ℕ

pub data ApprovalStatus : Type 0 where
  pending approved rejected escalated : ApprovalStatus

pub record PendingApproval : Type 0 where
  pub id : String
  pub action_type : String
  pub created_at : ℕ
  pub timeout_minutes : ℕ
  pub status : ApprovalStatus
  pub approval_decision : Option ApprovalDecision

-- `KeyError`
pub data KeyError : Type 0 where
  no_approval : String → KeyError

-- `self._pending`: the value of a key
unfoldable pub at : String → List PendingApproval → Option PendingApproval
at id [] = none
at id (a ∷ more) = let rest = at id more in if a.id == id then some a else rest

unfoldable pub put : PendingApproval → List PendingApproval → List PendingApproval
put new [] = new ∷ []
put new (a ∷ more) = let rest = put new more in if a.id == new.id then new ∷ more else a ∷ rest

unfoldable pub submit_for_approval :
    PendingApproval → List PendingApproval → String × List PendingApproval
unfolding put
submit_for_approval action g = (action.id, put (record action { status = pending }) g)

-- `approval = self._pending[approval_id]`, and a change of it
unfoldable pub change :
    {A : Type 0}
    → String
    → List PendingApproval
    → Option PendingApproval
    → (PendingApproval → A × PendingApproval)
    → Result KeyError A × List PendingApproval
unfolding put
change id g none f = (err (no_approval id), g)
change id g (some a) f = let (answer, new) = f a in (ok answer, put new g)

unfoldable pub approve :
    String
    → ApprovalDecision
    → List PendingApproval
    → Result KeyError (Unit {0}) × List PendingApproval
unfolding change at
approve id decision g =
    change id g (at id g)
      λ a. (tt, record a { status = approved; approval_decision = some decision })

unfoldable pub reject :
    String
    → ApprovalDecision
    → List PendingApproval
    → Result KeyError (Unit {0}) × List PendingApproval
unfolding change at
reject id decision g =
    change id g (at id g)
      λ a. (tt, record a { status = rejected; approval_decision = some decision })

-- `if timed_out and approval.status == "pending": approval.status = "escalated"`
abbrev pub escalated_status : ApprovalStatus → ApprovalStatus
escalated_status pending = escalated
escalated_status approved = approved
escalated_status rejected = rejected
escalated_status escalated = escalated

unfoldable pub escalate : Bool → PendingApproval → PendingApproval
escalate false a = a
escalate true a = record a { status = escalated_status a.status }

unfoldable pub timed_out : ℕ → PendingApproval → Bool
timed_out now a = leb (a.created_at + 60 * a.timeout_minutes) now

unfoldable pub check_timeout :
    ℕ → String → List PendingApproval → Result KeyError Bool × List PendingApproval
unfolding change at escalate timed_out
check_timeout now id g = change id g (at id g) λ a. (timed_out now a, escalate (timed_out now a) a)

at-put : (new : PendingApproval) (g : List PendingApproval) → at new.id (put new g) ≡ some new
unfolding at put
at-put new [] = rw (==_refl new.id) refl
at-put new (a ∷ more) = ground (arith, at-put new more, ==_refl new.id)

at-put_other :
    (new : PendingApproval) (g : List PendingApproval) (id : String)
    → (new.id == id) ≡ false
    → at id (put new g) ≡ at id g
unfolding at put
at-put_other new [] id h = rw h refl
at-put_other new (a ∷ more) id h =
    ground (arith, at-put_other new more id h, h, eq_of_== a.id new.id)

at-id :
    (id : String) (g : List PendingApproval) (a : PendingApproval) → at id g ≡ some a → a.id ≡ id
unfolding at
at-id id [] a h = cc
at-id id (x ∷ more) a h = ground (arith, eq_of_== x.id id, at-id id more a)

-- Calls other than a new submission.
pub data Call : Type 0 where
  approves rejects : String → ApprovalDecision → Call
  checks : ℕ → String → Call

unfoldable pub run : List Call → List PendingApproval → List PendingApproval
unfolding approve reject check_timeout
run [] g = g
run (approves id d ∷ cs) g = run cs (approve id d g).1
run (rejects id d ∷ cs) g = run cs (reject id d g).1
run (checks now id ∷ cs) g = run cs (check_timeout now id g).1

pub data Decided : ApprovalStatus → Type 0 where
  was_approved : Decided approved
  was_rejected : Decided rejected

-- The approval is there and decided.
pub record IsDecided (id : String) (g : List PendingApproval) : Type 0 where
  pub approval : PendingApproval
  pub found : at id g ≡ some approval
  pub decided : Decided approval.status

change-IsDecided :
    {A : Type 0} (id k : String) (g : List PendingApproval) (o : Option PendingApproval)
    (f : PendingApproval → A × PendingApproval)
    → at k g ≡ o
    → ((a : PendingApproval) → (f a).1.id ≡ a.id)
    → ((a : PendingApproval) → Decided a.status → Decided (f a).1.status)
    → IsDecided id g
    → IsDecided id (change k g o f).1
unfolding change
change-IsDecided id k g none f e keeps stays d = d
change-IsDecided id k g (some a) f e keeps stays d =
    let new = (f a).1 in
    let name : new.id ≡ k = keeps a ∙ at-id k g a e in
    elim (Bool-cases (k == id)) [
      | inl same ↦
          let key : k ≡ id = eq_of_== k id same in
          let it : a ≡ d.approval = ground (arith, e, d.found, key) in
          record {
            approval = new;
            found = rw (← key, ← name) (at-put new g);
            decided = stays a (rw it d.decided);
          }
      | inr other ↦ record {
        approval = d.approval;
        found = at-put_other new g id (rw name other) ∙ d.found;
        decided = d.decided;
      }
    ]

escalated-Decided : (s : ApprovalStatus) → Decided s → Decided (escalated_status s)
escalated-Decided pending d = elim d [ ]
escalated-Decided escalated d = elim d [ ]
escalated-Decided approved d = d
escalated-Decided rejected d = d

escalate-Decided :
    (b : Bool) (a : PendingApproval) → Decided a.status → Decided (escalate b a).status
unfolding escalate
escalate-Decided false a d = d
escalate-Decided true a d = escalated-Decided a.status d

escalate-id : (b : Bool) (a : PendingApproval) → (escalate b a).id ≡ a.id
unfolding escalate
escalate-id false a = refl
escalate-id true a = refl

-- Once an approval is approved or rejected, it is there and one of the two after any further
-- approvals, rejections and timeout checks: it is never escalated.
pub run-IsDecided :
    (id : String) (cs : List Call) (g : List PendingApproval)
    → IsDecided id g
    → IsDecided id (run cs g)
unfolding run approve reject check_timeout
run-IsDecided id [] g d = d
run-IsDecided id (approves k x ∷ cs) g d =
    run-IsDecided id cs _
      (change-IsDecided id k g (at k g) _ refl (λ a. refl) (λ a was. was_approved) d)
run-IsDecided id (rejects k x ∷ cs) g d =
    run-IsDecided id cs _
      (change-IsDecided id k g (at k g) _ refl (λ a. refl) (λ a was. was_rejected) d)
run-IsDecided id (checks now k ∷ cs) g d = run-IsDecided id cs _ (
    change-IsDecided id k g (at k g) _ refl (λ a. escalate-id (timed_out now a) a)
      (λ a was. escalate-Decided (timed_out now a) a was) d)
