-- ===== src/Plan/Tables/Views.antt =====
-- What a plan has in a table, under the statements that change the table.
use mathlib.Core.List.{map-append}
use water_info.Base.{
  String, ◌≡◌, refl, inl, inr, Bool, true, false, not, ◌&&◌, List, [], ◌∷◌, ◌++◌, map, arith, Eq,
  ◌==◌, eq_of_==, ==_of_eq, if◌then◌else◌, keep, keep-append, Bool-cases, string_eq,
}
use water_info.Plan.Tables.{delete_where, update_where}

-- A table whose rows belong to plans, and how a row is read as an item with a key.
pub record Table (R A K : Type 0) : Type 0 where
  pub owner : R → String
  pub row_key : R → K
  pub item : R → A
  pub key : A → K
  pub key-item : (r : R) → key (item r) ≡ row_key r

module _ {R A K : Type 0} ⦃e : Eq K⦄ (t : Table R A K) where
  -- The items of a plan, in the order of the table.
  unfoldable pub view : String → List R → List A
  unfolding keep
  view p rows = map t.item (keep (λ r. t.owner r == p) rows)

  abbrev pub at_key : String → K → R → Bool
  at_key p k r = t.owner r == p && t.row_key r == k

  unfoldable pub without : K → List A → List A
  unfolding keep
  without k xs = keep (λ a. not (t.key a == k)) xs

  unfoldable pub replace : K → A → List A → List A
  replace k new [] = []
  replace k new (a ∷ xs) = (if t.key a == k then new else a) ∷ replace k new xs

  pub view-delete :
      (p : String) (k : K) (rows : List R)
      → view p (delete_where (at_key p k) rows) ≡ without k (view p rows)
  unfolding view delete_where without
  view-delete p k [] = refl
  view-delete p k (r ∷ rows) = ground (arith, t.key-item r, view-delete p k rows)

  -- A row of one plan is not another plan's.
  owner_ne :
      (r : R) (q p : String) → (t.owner r == q) ≡ true → (q == p) ≡ false → (t.owner r == p) ≡ false
  owner_ne r q p mine other = rw (eq_of_== (t.owner r) q mine) other

  pub view-delete_other :
      (p q : String) (k : K) (rows : List R)
      → (q == p) ≡ false
      → view p (delete_where (at_key q k) rows) ≡ view p rows
  unfolding view delete_where
  view-delete_other p q k [] h = refl
  view-delete_other p q k (r ∷ rows) h =
      ground (arith, owner_ne r q p, view-delete_other p q k rows h)

  pub view-insert :
      (p : String) (r : R) (rows : List R)
      → t.owner r ≡ p
      → view p (rows ++ r ∷ []) ≡ view p rows ++ t.item r ∷ []
  unfolding view
  view-insert p r rows h = rw (keep-append (λ x. t.owner x == p) rows (r ∷ [])) (
      unfold keep in
      rw (==_of_eq (t.owner r) p h) (map-append t.item (keep (λ x. t.owner x == p) rows) (r ∷ [])))

  pub view-insert_other :
      (p : String) (r : R) (rows : List R)
      → (t.owner r == p) ≡ false
      → view p (rows ++ r ∷ []) ≡ view p rows
  unfolding view keep
  view-insert_other p r [] h = rw h
  view-insert_other p r (x ∷ rows) h = ground (arith, view-insert_other p r rows h)

  -- The update writes the same item into each row that it changes, and keeps the row's plan.
  abbrev pub Writes : (R → R) → String → K → A → Type 0
  Writes f p k new =
      (r : R) → t.owner r ≡ p → t.row_key r ≡ k → (t.owner (f r) ≡ p) × (t.item (f r) ≡ new)

  pub view-update :
      (p : String) (k : K) (new : A) (f : R → R) (rows : List R)
      → Writes f p k new
      → view p (update_where (at_key p k) f rows) ≡ replace k new (view p rows)
  unfolding view update_where replace keep
  view-update p k new f [] w = refl
  view-update p k new f (r ∷ rows) w =
      let rest = view-update p k new f rows w in
      elim (Bool-cases (t.owner r == p)) [
        | inr other ↦ ground (arith, rest)
        | inl mine ↦ elim (Bool-cases (t.row_key r == k)) [
          | inr apart ↦ ground (arith, t.key-item r, rest)
          | inl here ↦
              let (kept, written) =
                w r (eq_of_== (t.owner r) p mine) (eq_of_== (t.row_key r) k here) in
              ground (arith, t.key-item r, rest, kept, written, ==_of_eq (t.owner (f r)) p kept)
        ]
      ]

  pub view-update_other :
      (p q : String) (k : K) (new : A) (f : R → R) (rows : List R)
      → Writes f q k new
      → (q == p) ≡ false
      → view p (update_where (at_key q k) f rows) ≡ view p rows
  unfolding view update_where
  view-update_other p q k new f [] w h = refl
  view-update_other p q k new f (r ∷ rows) w h =
      let rest = view-update_other p q k new f rows w h in
      elim (Bool-cases (t.owner r == q)) [
        | inr other ↦ ground (arith, rest)
        | inl mine ↦ elim (Bool-cases (t.row_key r == k)) [
          | inr apart ↦ ground (arith, rest)
          | inl here ↦
              let (kept, written) =
                w r (eq_of_== (t.owner r) q mine) (eq_of_== (t.row_key r) k here) in
              ground (
                arith,
                rest,
                owner_ne r q p mine h,
                owner_ne (f r) q p (==_of_eq (t.owner (f r)) q kept) h,
              )
        ]
      ]
