-- ===== src/Plan/Diff/Complete.antt =====
-- The diff is empty exactly when the snapshots are the same.
use water_info.Base.{
  ℕ, suc, ◌≡◌, refl, sym, ap, ◌↔◌, inl, inr, String, true, false, Option, none, some, List, [], ◌∷◌,
  ◌++◌, arith, Eq, ◌==◌, ==_refl, eq_of_==, Bool-cases, nat_eq, string_eq,
}
use water_info.Base.Int.{int_eq}
use water_info.Plan.Snapshot.{
  Scalar, text, number, Runtime, ChangeEntry, ActionItem, ResourceItem, NotificationItem,
  PlanSnapshot,
}
use water_info.Plan.Diff.{
  Section, scalar_beq, field_changes, or_moved, common_changes, diff_list_section, diff_summary,
  action_section, resource_section, notification_section, diff_plan,
}
use water_info.Plan.Diff.Index.{mem_key, Unique}
use water_info.Plan.Diff.Reference.{
  locate, deletions, additions, commons, section_changes, diff_list_section-eq-section_changes,
}
use water_info.Plan.Diff.Located.{Found, Found-self, Covered, Covered-self, locate-key, eq_of_Found}

append-eq-nil : (xs ys : List ChangeEntry) → xs ++ ys ≡ [] → (xs ≡ []) × (ys ≡ [])
append-eq-nil [] ys h = (refl, h)
append-eq-nil (x ∷ xs) ys h = cc

scalar_beq_refl : (a : Scalar) → scalar_beq a a ≡ true
unfolding scalar_beq
scalar_beq_refl (text s) = ==_refl s
scalar_beq_refl (number n) = ==_refl n

pub eq_of_scalar_beq : (a b : Scalar) → scalar_beq a b ≡ true → a ≡ b
unfolding scalar_beq
eq_of_scalar_beq (text s) (text t) h = ap text (eq_of_== s t h)
eq_of_scalar_beq (number m) (number n) h = ap number (eq_of_== m n h)
eq_of_scalar_beq (text s) (number n) h = cc
eq_of_scalar_beq (number n) (text s) h = cc

module _ (rt : Runtime) {A K : Type 0} ⦃e : Eq K⦄ (s : Section A K) where
  -- The key and the compared fields tell two items apart.
  abbrev pub IsFaithful : Type 0
  IsFaithful =
      (a b : A) → s.key a ≡ s.key b → field_changes rt s (s.key a) s.fields a b ≡ [] → a ≡ b

  deletions-nil : (i : ℕ) (old new : List A) → deletions rt s i old new ≡ [] → Covered s.key old new
  unfolding deletions
  deletions-nil i [] new h = tt
  deletions-nil i (x ∷ old) new h = (ground arith, deletions-nil (suc i) old new (ground arith))

  deletions-Covered :
      (i : ℕ) (old new : List A) → Covered s.key old new → deletions rt s i old new ≡ []
  unfolding deletions
  deletions-Covered i [] new h = refl
  deletions-Covered i (x ∷ old) new h = rw (h.0, deletions-Covered (suc i) old new h.1)

  additions-nil : (i : ℕ) (new old : List A) → additions rt s i new old ≡ [] → Covered s.key new old
  unfolding additions
  additions-nil i [] old h = tt
  additions-nil i (x ∷ new) old h = (ground arith, additions-nil (suc i) new old (ground arith))

  additions-Covered :
      (i : ℕ) (new old : List A) → Covered s.key new old → additions rt s i new old ≡ []
  unfolding additions
  additions-Covered i [] old h = refl
  additions-Covered i (x ∷ new) old h = rw (h.0, additions-Covered (suc i) new old h.1)

  locate-none :
      (k : K) (j : ℕ) (new : List A) → locate s.key k j new ≡ none → mem_key s.key k new ≡ false
  unfolding locate
  locate-none k j [] h = refl
  locate-none k j (y ∷ new) h = ground (arith, locate-none k (suc j) new)

  or_moved-nil :
      (cs : List ChangeEntry) (k : K) (i j : ℕ) → or_moved rt s cs k i j ≡ [] → (cs ≡ []) × (i ≡ j)
  unfolding or_moved
  or_moved-nil [] k i j h = (refl, ground arith)
  or_moved-nil (c ∷ cs) k i j h = cc

  common-nil :
      (i : ℕ) (x : A) (new : List A) (r : Option (ℕ × A))
      → IsFaithful
      → locate s.key (s.key x) 0 new ≡ r
      → mem_key s.key (s.key x) new ≡ true
      → common_changes rt s (s.key x, (i, x)) r ≡ []
      → r ≡ some (i, x)
  unfolding common_changes
  common-nil i x new none f l m h = cc (locate-none (s.key x) 0 new l, m)
  common-nil i x new (some (j, y)) f l m h =
      let (same, place) = or_moved-nil _ (s.key x) i j h in
      let k : s.key x ≡ s.key y = sym (eq_of_== _ _ (locate-key s.key (s.key x) 0 new j y l)) in
      cc (f x y k same, place)

  commons-nil :
      (i : ℕ) (old new : List A)
      → IsFaithful
      → Covered s.key old new
      → commons rt s i old new ≡ []
      → Found s.key i 0 old new
  unfolding commons Found
  commons-nil i [] new f c h = tt
  commons-nil i (x ∷ old) new f c h =
      let (here, rest) = append-eq-nil _ _ h in
      (
        common-nil i x new (locate s.key (s.key x) 0 new) f refl c.0 here,
        commons-nil (suc i) old new f c.1 rest,
      )

  field_changes_self :
      (k : K) (fs : List (String × (A → Scalar))) (x : A) → field_changes rt s k fs x x ≡ []
  unfolding field_changes
  field_changes_self k [] x = refl
  field_changes_self k ((f, read) ∷ fs) x =
      rw (scalar_beq_refl (read x)) (field_changes_self k fs x)

  commons-Found : (i : ℕ) (old new : List A) → Found s.key i 0 old new → commons rt s i old new ≡ []
  unfolding commons Found common_changes or_moved
  commons-Found i [] new f = refl
  commons-Found i (x ∷ old) new f =
      rw (f.0, field_changes_self (s.key x) s.fields x, ==_refl i)
        (commons-Found (suc i) old new f.1)

  section_changes-nil :
      (old new : List A)
      → IsFaithful
      → Unique s.key old
      → Unique s.key new
      → section_changes rt s old new ≡ []
      → old ≡ new
  unfolding section_changes
  section_changes-nil old new f u v h =
      let (no_deletions, rest) = append-eq-nil _ _ h in
      let (no_additions, no_changes) = append-eq-nil _ _ rest in
      let kept = deletions-nil 0 old new no_deletions in
      eq_of_Found s.key 0 old new u v (commons-nil 0 old new f kept no_changes)
        (additions-nil 0 new old no_additions)

  section_changes_self : (xs : List A) → Unique s.key xs → section_changes rt s xs xs ≡ []
  unfolding section_changes
  section_changes_self xs u =
      rw
        (
          deletions-Covered 0 xs xs (Covered-self s.key xs),
          additions-Covered 0 xs xs (Covered-self s.key xs),
        )
        (commons-Found 0 xs xs (Found-self s.key 0 xs u))

  -- A section's diff is empty exactly when the two lists are equal, their order included.
  pub diff_list_section-eq-nil :
      (old new : List A)
      → IsFaithful
      → Unique s.key old
      → Unique s.key new
      → (diff_list_section rt s old new ≡ []) ↔ (old ≡ new)
  diff_list_section-eq-nil old new f u v =
      rw (diff_list_section-eq-section_changes rt s old new u v)
        (section_changes-nil old new f u v, λ p. rw (← p) (section_changes_self old u))

action_section-IsFaithful : (rt : Runtime) → IsFaithful rt action_section
unfolding field_changes
action_section-IsFaithful rt a b k h = ground (
  arith,
  eq_of_scalar_beq (text a.description) (text b.description),
  eq_of_scalar_beq (number a.priority) (number b.priority),
  eq_of_scalar_beq (text a.assignee) (text b.assignee),
  eq_of_scalar_beq (text a.status) (text b.status),
)

resource_section-IsFaithful : (rt : Runtime) → IsFaithful rt (resource_section rt)
unfolding field_changes
resource_section-IsFaithful rt a b k h = ground (
  arith,
  eq_of_scalar_beq (text a.type) (text b.type),
  eq_of_scalar_beq (text a.name) (text b.name),
  eq_of_scalar_beq (number a.quantity) (number b.quantity),
  eq_of_scalar_beq (text a.location) (text b.location),
)

notification_section-IsFaithful : (rt : Runtime) → IsFaithful rt (notification_section rt)
unfolding field_changes
notification_section-IsFaithful rt a b k h = ground (
  arith,
  eq_of_scalar_beq (text a.channel) (text b.channel),
  eq_of_scalar_beq (text a.target) (text b.target),
  eq_of_scalar_beq (text a.message) (text b.message),
  eq_of_scalar_beq (text a.status) (text b.status),
)

-- No two items of a list of the snapshot share a key.
pub record IsKeyed (rt : Runtime) (p : PlanSnapshot) : Type 0 where
  pub actions : Unique (λ (a : ActionItem). a.action_id) p.actions
  pub resources : Unique (λ (r : ResourceItem). r.resource_id) p.resources
  pub notifications : Unique (λ (n : NotificationItem). n.notification_id) p.notifications

diff_summary-nil : (old new : String) → diff_summary old new ≡ [] → old ≡ new
unfolding diff_summary
diff_summary-nil old new h = elim (Bool-cases (old == new)) [
  | inl same ↦ eq_of_== old new same
  | inr other ↦ cc (rw other at h)
]

-- For snapshots in which no two items of a list share a key, the diff is empty exactly when the
-- snapshots are equal, the order of their items included: no edit escapes the audit trail, and
-- an edit that changes nothing leaves no entry.
pub diff_plan-eq-nil :
    (rt : Runtime) (old new : PlanSnapshot)
    → IsKeyed rt old
    → IsKeyed rt new
    → (diff_plan rt old new ≡ []) ↔ (old ≡ new)
unfolding diff_plan
diff_plan-eq-nil rt old new u v = (there, back)
  where
    acts :
        (diff_list_section rt action_section old.actions new.actions ≡ [])
        ↔ (old.actions ≡ new.actions)
    acts =
        diff_list_section-eq-nil rt action_section old.actions new.actions
          (action_section-IsFaithful rt) u.actions v.actions

    ress :
        (diff_list_section rt (resource_section rt) old.resources new.resources ≡ [])
        ↔ (old.resources ≡ new.resources)
    ress =
        diff_list_section-eq-nil rt (resource_section rt) old.resources new.resources
          (resource_section-IsFaithful rt) u.resources v.resources

    nots :
        (diff_list_section rt (notification_section rt) old.notifications new.notifications ≡ [])
        ↔ (old.notifications ≡ new.notifications)
    nots =
        diff_list_section-eq-nil rt (notification_section rt) old.notifications new.notifications
          (notification_section-IsFaithful rt) u.notifications v.notifications

    there : diff_plan rt old new ≡ [] → old ≡ new
    there h =
        let (s, h₁) = append-eq-nil _ _ h in
        let (a, h₂) = append-eq-nil _ _ h₁ in
        let (r, n) = append-eq-nil _ _ h₂ in
        cc (diff_summary-nil old.summary new.summary s, acts.0 a, ress.0 r, nots.0 n)

    back : old ≡ new → diff_plan rt old new ≡ []
    back p =
        rw
          (
            acts.1 (ap (λ (x : PlanSnapshot). x.actions) p),
            ress.1 (ap (λ (x : PlanSnapshot). x.resources) p),
            nots.1 (ap (λ (x : PlanSnapshot). x.notifications) p),
            ap (λ (x : PlanSnapshot). x.summary) p,
          )
          (unfold diff_summary in rw (==_refl new.summary))
