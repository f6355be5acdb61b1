-- ===== src/Plan/Diff/Index.antt =====
-- The maps by key of `_diff_list_section`, for lists whose keys are distinct.
use mathlib.Core.List.{append_assoc}
use water_info.Base.{
  ℕ, suc, ◌≡◌, refl, Bool, true, false, none, List, [], ◌∷◌, ◌++◌, arith, Eq, ◌==◌, ==_sym,
  if◌then◌else◌, All,
}
use water_info.Plan.Snapshot.{Runtime}
use water_info.Plan.Diff.{Section, Indexed, has, get, put, index_from, index_map}

module _ {A K : Type 0} ⦃e : Eq K⦄ (key : A → K) where
  abbrev pub mem_key : K → List A → Bool
  mem_key k [] = false
  mem_key k (x ∷ xs) = if key x == k then true else mem_key k xs

  -- No two items have the same key.
  abbrev pub Unique : List A → Type 0
  Unique [] = Unit
  Unique (x ∷ xs) = (mem_key (key x) xs ≡ false) × Unique xs

  -- The items with their keys and positions.
  unfoldable pub enumerate : ℕ → List A → List (Indexed A K)
  enumerate i [] = []
  enumerate i (x ∷ xs) = (key x, (i, x)) ∷ enumerate (suc i) xs

module _ {K V : Type 0} ⦃e : Eq K⦄ where
  put_absent : (k : K) (v : V) (d : List (K × V)) → has k d ≡ false → put k v d ≡ d ++ (k, v) ∷ []
  unfolding put has
  put_absent k v [] h = refl
  put_absent k v ((j, w) ∷ d) h = ground (arith, put_absent k v d)

  has-append-one :
      (k j : K) (v : V) (d : List (K × V))
      → has k d ≡ false
      → (j == k) ≡ false
      → has k (d ++ (j, v) ∷ []) ≡ false
  unfolding has
  has-append-one k j v [] h g = rw g
  has-append-one k j v ((i, w) ∷ d) h g = ground (arith, has-append-one k j v d)

module _ (rt : Runtime) {A K : Type 0} ⦃e : Eq K⦄ (s : Section A K) where
  abbrev Fresh : List A → List (Indexed A K) → Type 0
  Fresh xs d = All (λ x. has (s.key x) d ≡ false) xs

  Fresh-put :
      (x : A) (i : ℕ) (ys : List A) (d : List (Indexed A K))
      → mem_key s.key (s.key x) ys ≡ false
      → Fresh ys d
      → Fresh ys (d ++ (s.key x, (i, x)) ∷ [])
  Fresh-put x i [] d m f = tt
  Fresh-put x i (y ∷ ys) d m f = (
    has-append-one (s.key y) (s.key x) (i, x) d f.0
        (rw (==_sym (s.key x) (s.key y)) (ground arith)),
    Fresh-put x i ys d (ground arith) f.1,
  )

  index_from-Unique :
      (i : ℕ) (xs : List A) (d : List (Indexed A K))
      → Unique s.key xs
      → Fresh xs d
      → index_from rt s i xs d ≡ d ++ enumerate s.key i xs
  unfolding index_from enumerate
  index_from-Unique i [] d u f = sym-append-nil d
    where
      sym-append-nil : (d : List (Indexed A K)) → d ≡ d ++ []
      sym-append-nil [] = refl
      sym-append-nil (x ∷ d) = rw (← sym-append-nil d)
  index_from-Unique i (x ∷ xs) d u f = rw (put_absent (s.key x) (i, x) d f.0) (
      rw (index_from-Unique (suc i) xs _ u.1 (Fresh-put x i xs d u.0 f.1))
        (append_assoc d ((s.key x, (i, x)) ∷ []) (enumerate s.key (suc i) xs)))

  Fresh-empty : (xs : List A) → Fresh xs []
  unfolding has
  Fresh-empty [] = tt
  Fresh-empty (x ∷ xs) = (refl, Fresh-empty xs)

  -- With distinct keys the map by key lists the items in their order.
  pub index_map-Unique : (xs : List A) → Unique s.key xs → index_map rt s xs ≡ enumerate s.key 0 xs
  unfolding index_map
  index_map-Unique xs u = index_from-Unique 0 xs [] u (Fresh-empty xs)

module _ {A K : Type 0} ⦃e : Eq K⦄ (key : A → K) where
  -- A key is in the map exactly when an item has it.
  pub has-enumerate : (k : K) (i : ℕ) (xs : List A) → has k (enumerate key i xs) ≡ mem_key key k xs
  unfolding has enumerate
  has-enumerate k i [] = refl
  has-enumerate k i (x ∷ xs) = ground (arith, has-enumerate k (suc i) xs)

  pub get-enumerate_absent :
      (k : K) (i : ℕ) (xs : List A) → mem_key key k xs ≡ false → get k (enumerate key i xs) ≡ none
  unfolding get enumerate
  get-enumerate_absent k i [] h = refl
  get-enumerate_absent k i (x ∷ xs) h = ground (arith, get-enumerate_absent k (suc i) xs)
