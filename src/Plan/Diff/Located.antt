-- ===== src/Plan/Diff/Located.antt =====
-- services/plan_diff.py: lists whose items are found under their keys, each at its own position.
use water_info.Base.{
  ℕ, suc, ◌≤◌, ◌≡◌, refl, true, false, some, List, [], ◌∷◌, arith, Eq, ◌==◌, ==_sym, ==_refl, All,
  nat_eq, string_eq,
}
use water_info.Base.Int.{int_eq}
use water_info.Plan.Diff.Index.{mem_key, Unique}
use water_info.Plan.Diff.Reference.{locate}

module _ {A K : Type 0} ⦃e : Eq K⦄ (key : A → K) where
  Apart : K → List A → Type 0
  Apart k xs = All (λ x. (k == key x) ≡ false) xs

  -- Each item of the list is found under its key, at its own position.
  unfoldable pub Found : ℕ → ℕ → List A → List A → Type 0
  Found i j [] new = Unit
  Found i j (x ∷ old) new = (locate key (key x) j new ≡ some (i, x)) × Found (suc i) j old new

  Apart-of_not-mem_key : (k : K) (xs : List A) → mem_key key k xs ≡ false → Apart k xs
  unfolding Apart
  Apart-of_not-mem_key k [] h = tt
  Apart-of_not-mem_key k (x ∷ xs) h =
      (rw (==_sym k (key x)) (ground arith), Apart-of_not-mem_key k xs (ground arith))

  Found-drop :
      (a i : ℕ) (n : A) (old new : List A)
      → Apart (key n) old
      → Found a i old (n ∷ new)
      → Found a (suc i) old new
  unfolding Found Apart locate
  Found-drop a i n [] new p f = tt
  Found-drop a i n (x ∷ old) new p f = (rw p.0 at f.0, Found-drop (suc a) i n old new p.1 f.1)

  Found-cons :
      (a i : ℕ) (n : A) (old new : List A)
      → Apart (key n) old
      → Found a (suc i) old new
      → Found a i old (n ∷ new)
  unfolding Found Apart locate
  Found-cons a i n [] new p f = tt
  Found-cons a i n (x ∷ old) new p f = (rw p.0 f.0, Found-cons (suc a) i n old new p.1 f.1)

  pub Found-self : (i : ℕ) (xs : List A) → Unique key xs → Found i i xs xs
  unfolding Found locate
  Found-self i [] u = tt
  Found-self i (x ∷ xs) u = (
    rw (==_refl (key x)),
    Found-cons (suc i) i x xs xs (Apart-of_not-mem_key (key x) xs u.0) (Found-self (suc i) xs u.1),
  )

  abbrev pub Covered : List A → List A → Type 0
  Covered new old = All (λ y. mem_key key (key y) old ≡ true) new

  Covered-drop :
      (o : A) (new old : List A) → Apart (key o) new → Covered new (o ∷ old) → Covered new old
  unfolding Apart
  Covered-drop o [] old p c = tt
  Covered-drop o (y ∷ new) old p c = (rw p.0 at c.0, Covered-drop o new old p.1 c.1)

  Covered-cons : (o : A) (new old : List A) → Covered new old → Covered new (o ∷ old)
  Covered-cons o [] old c = tt
  Covered-cons o (y ∷ new) old c = (ground (arith, c.0), Covered-cons o new old c.1)

  pub Covered-self : (xs : List A) → Covered xs xs
  Covered-self [] = tt
  Covered-self (x ∷ xs) = (rw (==_refl (key x)), Covered-cons x xs xs (Covered-self xs))

  locate-ge :
      (k : K) (j : ℕ) (new : List A) (i : ℕ) (x : A) → locate key k j new ≡ some (i, x) → j ≤ i
  unfolding locate
  locate-ge k j [] i x h = cc
  locate-ge k j (y ∷ new) i x h = ground (arith, locate-ge k (suc j) new i x)

  pub locate-key :
      (k : K) (j : ℕ) (new : List A) (i : ℕ) (x : A)
      → locate key k j new ≡ some (i, x)
      → (key x == k) ≡ true
  unfolding locate
  locate-key k j [] i x h = cc
  locate-key k j (y ∷ new) i x h = ground (arith, locate-key k (suc j) new i x)

  head-eq : (i : ℕ) (o n : A) (new : List A) → locate key (key o) i (n ∷ new) ≡ some (i, o) → n ≡ o
  unfolding locate
  head-eq i o n new h = ground (arith, locate-ge (key o) (suc i) new i o)

  -- Lists with distinct keys, each found in the other at the same position, are equal.
  pub eq_of_Found :
      (i : ℕ) (old new : List A)
      → Unique key old
      → Unique key new
      → Found i i old new
      → Covered new old
      → old ≡ new
  unfolding Found
  eq_of_Found i [] [] u v f c = refl
  eq_of_Found i [] (n ∷ new) u v f c = cc
  eq_of_Found i (o ∷ old) [] u v f c = unfold locate in cc (f.0)
  eq_of_Found i (o ∷ old) (n ∷ new) u v f c =
      let e : n ≡ o = head-eq i o n new f.0 in
      let apart_old = Apart-of_not-mem_key (key o) old u.0 in
      let apart_new = Apart-of_not-mem_key (key n) new v.0 in
      let rest : old ≡ new =
        eq_of_Found (suc i) old new u.1 v.1 (Found-drop (suc i) i n old new (rw e apart_old) f.1)
          (Covered-drop o new old (rw (← e) apart_new) c.1) in
      cc (e, rest)
