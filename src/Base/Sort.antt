-- ===== src/Base/Sort.antt =====
-- Python's stable `sorted`, by a test that decides `key(a) <= key(b)`.
use mathlib.Core.Path.{◌≡◌}
use mathlib.Core.Bool.{Bool, true, false}
use mathlib.Core.List.{List, [], ◌∷◌, Perm}
use mathlib.Core.List.Perm
use mathlib.Core.Logic.{inl, inr}
use legal_graphrag_platform.Base.Tests.{if◌then◌else◌, Bool-cases}
use legal_graphrag_platform.Base.Lists.{All, Member}

module _ {ℓ} {A : Type ℓ} (le : A → A → Bool) where
  unfoldable pub insert_by : A → List A → List A
  insert_by x [] = x ∷ []
  insert_by x (y ∷ ys) = let rest = insert_by x ys in if le x y then x ∷ y ∷ ys else y ∷ rest

  unfoldable pub sort_by : List A → List A
  unfolding insert_by
  sort_by [] = []
  sort_by (x ∷ xs) = insert_by x (sort_by xs)

  pub All-insert_by {κ} :
      (P : A → Type κ) (x : A) (xs : List A) → P x → All P xs → All P (insert_by x xs)
  unfolding insert_by
  All-insert_by P x [] p h = (p, tt)
  All-insert_by P x (y ∷ ys) p h = elim (Bool-cases (le x y)) [
    | inl e ↦ rw e (p, h)
    | inr e ↦ rw e (h.0, All-insert_by P x ys p h.1)
  ]

  pub All-sort_by {κ} : (P : A → Type κ) (xs : List A) → All P xs → All P (sort_by xs)
  unfolding sort_by
  All-sort_by P [] h = tt
  All-sort_by P (x ∷ xs) h = All-insert_by P x (sort_by xs) h.0 (All-sort_by P xs h.1)

  All-uninsert_by {κ} :
      (P : A → Type κ) (x : A) (xs : List A) → All P (insert_by x xs) → P x × All P xs
  unfolding insert_by
  All-uninsert_by P x [] h = h
  All-uninsert_by P x (y ∷ ys) h = elim (Bool-cases (le x y)) [
    | inl e ↦ rw e at h
    | inr e ↦
        let k : P y × All P (insert_by x ys) = rw e at h in
        let (p, rest) = All-uninsert_by P x ys k.1 in (p, (k.0, rest))
  ]

  pub All-unsort_by {κ} : (P : A → Type κ) (xs : List A) → All P (sort_by xs) → All P xs
  unfolding sort_by
  All-unsort_by P [] h = tt
  All-unsort_by P (x ∷ xs) h =
      let (p, rest) = All-uninsert_by P x (sort_by xs) h in (p, All-unsort_by P xs rest)

  insert_by-perm : (x : A) (xs : List A) → Perm (insert_by x xs) (x ∷ xs)
  unfolding insert_by
  insert_by-perm x [] = Perm.refl (x ∷ [])
  insert_by-perm x (y ∷ ys) = elim (Bool-cases (le x y)) [
    | inl e ↦ rw e (Perm.refl _)
    | inr e ↦ rw e (Perm.trans (Perm.cons y (insert_by-perm x ys)) (Perm.swap x y ys))
  ]

  pub sort_by-perm : (xs : List A) → Perm (sort_by xs) xs
  unfolding sort_by
  sort_by-perm [] = Perm.refl []
  sort_by-perm (x ∷ xs) = Perm.trans (insert_by-perm x (sort_by xs)) (Perm.cons x (sort_by-perm xs))

  -- Each element is at most every later one.
  abbrev pub IsSorted : List A → Type ℓ
  IsSorted [] = Unit
  IsSorted (x ∷ xs) = All (λ y. le x y ≡ true) xs × IsSorted xs

  module _ (total : (a b : A) → le a b ≡ false → le b a ≡ true)
      (trans : (a b c : A) → le a b ≡ true → le b c ≡ true → le a c ≡ true) where
    All-le_trans :
        (x y : A) (ys : List A)
        → le x y ≡ true
        → All (λ z. le y z ≡ true) ys
        → All (λ z. le x z ≡ true) ys
    All-le_trans x y [] h t = tt
    All-le_trans x y (z ∷ zs) h t = (trans x y z h t.0, All-le_trans x y zs h t.1)

    insert_by-IsSorted : (x : A) (xs : List A) → IsSorted xs → IsSorted (insert_by x xs)
    unfolding insert_by
    insert_by-IsSorted x [] s = (tt, tt)
    insert_by-IsSorted x (y ∷ ys) s = elim (Bool-cases (le x y)) [
      | inl e ↦ rw e ((e, All-le_trans x y ys e s.0), s)
      | inr e ↦
          rw e
            (All-insert_by (λ z. le y z ≡ true) x ys (total x y e) s.0, insert_by-IsSorted x ys s.1)
    ]

    pub sort_by-IsSorted : (xs : List A) → IsSorted (sort_by xs)
    unfolding sort_by
    sort_by-IsSorted [] = tt
    sort_by-IsSorted (x ∷ xs) = insert_by-IsSorted x (sort_by xs) (sort_by-IsSorted xs)

module _ {A : Type 0} (le : A → A → Bool) where
  Member-insert_by : (x y : A) (xs : List A) → Member x (y ∷ xs) → Member x (insert_by le y xs)
  unfolding insert_by
  Member-insert_by x y [] m = m
  Member-insert_by x y (z ∷ zs) (inl h) = elim (Bool-cases (le y z)) [
    | inl e ↦ rw e (inl h)
    | inr e ↦ rw e (inr (Member-insert_by x y zs (inl h)))
  ]
  Member-insert_by x y (z ∷ zs) (inr (inl h)) = elim (Bool-cases (le y z)) [
    | inl e ↦ rw e (inr (inl h))
    | inr e ↦ rw e (inl h)
  ]
  Member-insert_by x y (z ∷ zs) (inr (inr h)) = elim (Bool-cases (le y z)) [
    | inl e ↦ rw e (inr (inr h))
    | inr e ↦ rw e (inr (Member-insert_by x y zs (inr h)))
  ]

  -- Sorting drops nothing.
  pub Member-sort_by : (x : A) (xs : List A) → Member x xs → Member x (sort_by le xs)
  unfolding sort_by
  Member-sort_by x [] m = m
  Member-sort_by x (y ∷ ys) (inl h) = Member-insert_by x y (sort_by le ys) (inl h)
  Member-sort_by x (y ∷ ys) (inr h) =
      Member-insert_by x y (sort_by le ys) (inr (Member-sort_by x ys h))
