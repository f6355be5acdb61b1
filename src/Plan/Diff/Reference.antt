-- ===== src/Plan/Diff/Reference.antt =====
-- `_diff_list_section` without dictionaries and sorting: one pass over each list.
use water_info.Base.{
  ℕ, suc, ◌≤◌, ◌≡◌, refl, inl, inr, Bool, true, false, not, Option, none, some, List, [], ◌∷◌, ◌++◌,
  map, arith, Eq, ◌==◌, if◌then◌else◌, All, keep, Bool-cases, leb,
}
use water_info.Base.Sort.{sort, IsSorted, sort_of_IsSorted}
use water_info.Plan.Snapshot.{Runtime, ChangeEntry}
use water_info.Plan.Diff.{
  Section, Indexed, by_index, has, get, deleted_entry, added_entry, common_changes, all_common,
  diff_list_section,
}
use water_info.Plan.Diff.Index.{mem_key, Unique, enumerate, index_map-Unique, has-enumerate}

-- Where the item with a key stands.
module _ {A K : Type 0} ⦃e : Eq K⦄ (key : A → K) where
  unfoldable pub locate : K → ℕ → List A → Option (ℕ × A)
  locate k i [] = none
  locate k i (x ∷ xs) = if key x == k then some (i, x) else locate k (suc i) xs

  pub get-enumerate : (k : K) (i : ℕ) (xs : List A) → get k (enumerate key i xs) ≡ locate k i xs
  unfolding get enumerate locate
  get-enumerate k i [] = refl
  get-enumerate k i (x ∷ xs) = rw (get-enumerate k (suc i) xs)

module _ (rt : Runtime) {A K : Type 0} ⦃e : Eq K⦄ (s : Section A K) where
  unfoldable pub deletions : ℕ → List A → List A → List ChangeEntry
  deletions i [] new = []
  deletions i (x ∷ old) new =
      let rest = deletions (suc i) old new in
      if mem_key s.key (s.key x) new then rest else deleted_entry rt s (s.key x, (i, x)) ∷ rest

  unfoldable pub additions : ℕ → List A → List A → List ChangeEntry
  additions i [] old = []
  additions i (x ∷ new) old =
      let rest = additions (suc i) new old in
      if mem_key s.key (s.key x) old then rest else added_entry rt s (s.key x, (i, x)) ∷ rest

  unfoldable pub commons : ℕ → List A → List A → List ChangeEntry
  unfolding locate
  commons i [] new = []
  commons i (x ∷ old) new =
      let rest = commons (suc i) old new in
      common_changes rt s (s.key x, (i, x)) (locate s.key (s.key x) 0 new) ++ rest

  unfoldable pub section_changes : List A → List A → List ChangeEntry
  unfolding deletions additions commons
  section_changes old new = deletions 0 old new ++ (additions 0 new old ++ commons 0 old new)

module _ {A K : Type 0} (rt : Runtime) ⦃e : Eq K⦄ (s : Section A K) (p : Indexed A K → Bool) where
  abbrev AtLeast : ℕ → List (Indexed A K) → Type 0
  AtLeast i d = All (λ x. i ≤ x.1.0) d

  AtLeast-weaken : (i : ℕ) (d : List (Indexed A K)) → AtLeast (suc i) d → AtLeast i d
  AtLeast-weaken i [] h = tt
  AtLeast-weaken i (x ∷ d) h = (omega arith, AtLeast-weaken i d h.1)

  keep-enumerate-AtLeast : (i : ℕ) (xs : List A) → AtLeast i (keep p (enumerate s.key i xs))
  unfolding keep enumerate
  keep-enumerate-AtLeast i [] = tt
  keep-enumerate-AtLeast i (x ∷ xs) = elim (Bool-cases (p (s.key x, (i, x)))) [
    | inl h ↦ rw h (omega arith, AtLeast-weaken i _ (keep-enumerate-AtLeast (suc i) xs))
    | inr h ↦ rw h (AtLeast-weaken i _ (keep-enumerate-AtLeast (suc i) xs))
  ]

  le_index : (a b : ℕ) → suc a ≤ b → leb a b ≡ true
  le_index a b h = ground arith

  IsSorted-cons :
      (k : K) (i : ℕ) (x : A) (d : List (Indexed A K))
      → AtLeast (suc i) d
      → IsSorted (by_index rt s) d
      → IsSorted (by_index rt s) ((k, (i, x)) ∷ d)
  IsSorted-cons k i x [] h g = tt
  IsSorted-cons k i x (y ∷ d) h g = (le_index i y.1.0 h.0, g)

  keep-enumerate-IsSorted :
      (i : ℕ) (xs : List A) → IsSorted (by_index rt s) (keep p (enumerate s.key i xs))
  unfolding keep enumerate
  keep-enumerate-IsSorted i [] = tt
  keep-enumerate-IsSorted i (x ∷ xs) = elim (Bool-cases (p (s.key x, (i, x)))) [
    | inl h ↦ rw h (
        IsSorted-cons (s.key x) i x _ (keep-enumerate-AtLeast (suc i) xs)
          (keep-enumerate-IsSorted (suc i) xs))
    | inr h ↦ rw h (keep-enumerate-IsSorted (suc i) xs)
  ]

  -- The items of a map by key stand in the order of their positions.
  pub sort-keep-enumerate :
      (xs : List A)
      → sort (by_index rt s) (keep p (enumerate s.key 0 xs)) ≡ keep p (enumerate s.key 0 xs)
  sort-keep-enumerate xs = sort_of_IsSorted (by_index rt s) _ (keep-enumerate-IsSorted 0 xs)

module _ (rt : Runtime) {A K : Type 0} ⦃e : Eq K⦄ (s : Section A K) where
  deletions-eq :
      (i : ℕ) (old new : List A)
      → map
          (deleted_entry rt s)
          (keep (λ x. not (has x.0 (enumerate s.key 0 new))) (enumerate s.key i old))
        ≡ deletions rt s i old new
  unfolding deletions keep enumerate
  deletions-eq i [] new = refl
  deletions-eq i (x ∷ old) new =
      ground (arith, has-enumerate s.key (s.key x) 0 new, deletions-eq (suc i) old new)

  additions-eq :
      (i : ℕ) (new old : List A)
      → map
          (added_entry rt s)
          (keep (λ x. not (has x.0 (enumerate s.key 0 old))) (enumerate s.key i new))
        ≡ additions rt s i new old
  unfolding additions keep enumerate
  additions-eq i [] old = refl
  additions-eq i (x ∷ new) old =
      ground (arith, has-enumerate s.key (s.key x) 0 old, additions-eq (suc i) new old)

  locate_absent :
      (k : K) (i : ℕ) (xs : List A) → mem_key s.key k xs ≡ false → locate s.key k i xs ≡ none
  unfolding locate
  locate_absent k i [] h = refl
  locate_absent k i (x ∷ xs) h = ground (arith, locate_absent k (suc i) xs)

  commons-eq :
      (i : ℕ) (old new : List A)
      → all_common rt s
          (keep (λ x. has x.0 (enumerate s.key 0 new)) (enumerate s.key i old))
          (enumerate s.key 0 new)
        ≡ commons rt s i old new
  unfolding commons keep enumerate all_common
  commons-eq i [] new = refl
  commons-eq i (x ∷ old) new = elim (Bool-cases (mem_key s.key (s.key x) new)) [
    | inl h ↦
        rw (has-enumerate s.key (s.key x) 0 new, h)
          (rw (get-enumerate s.key (s.key x) 0 new) (rw (commons-eq (suc i) old new)))
    | inr h ↦
        rw (has-enumerate s.key (s.key x) 0 new, h)
          (rw (locate_absent (s.key x) 0 new h)
            (unfold common_changes in commons-eq (suc i) old new))
  ]

  -- When no two items of a snapshot share a key, the diff of a section lists, in this order: each
  -- item of the old list whose key the new one lacks, as a deletion; each item of the new list
  -- whose key the old one lacks, as an addition; and the changes of each item that both have,
  -- every part in the order of the list it comes from.
  pub diff_list_section-eq-section_changes :
      (old new : List A)
      → Unique s.key old
      → Unique s.key new
      → diff_list_section rt s old new ≡ section_changes rt s old new
  unfolding diff_list_section section_changes
  diff_list_section-eq-section_changes old new u v =
      rw (index_map-Unique rt s old u, index_map-Unique rt s new v)
        (rw (
          sort-keep-enumerate rt s (λ x. not (has x.0 (enumerate s.key 0 new))) old,
          sort-keep-enumerate rt s (λ x. not (has x.0 (enumerate s.key 0 old))) new,
          sort-keep-enumerate rt s (λ x. has x.0 (enumerate s.key 0 new)) old,
          deletions-eq 0 old new,
          additions-eq 0 new old,
          commons-eq 0 old new,
        ))
