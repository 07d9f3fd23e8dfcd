-- ===== src/Base/Keys.antt =====
-- Distinct keys: of sorted lists, of prefixes and of dictionaries.
use Prim.Native.String.{String}
use legal_graphrag_platform.Base.{
  ℕ, zero, suc, ◌≡◌, refl, inl, inr, Bool, true, not, ◌&&◌, ◌||◌, List, [], ◌∷◌, map, contains,
  unique, arith, ◌==◌, Bool-cases, eq_iff, take,
}
use legal_graphrag_platform.Base.Dict.{Dict, insert}
use legal_graphrag_platform.Base.Sort.{insert_by, sort_by}

module _ {A : Type 0} (key : A → String) where
  contains-take :
      (n : ℕ) (xs : List A) (k : String)
      → contains (map key (take n xs)) k ≡ true
      → contains (map key xs) k ≡ true
  contains-take zero xs k h = ground arith
  contains-take (suc n) [] k h = h
  contains-take (suc n) (x ∷ xs) k h = ground (arith, h, contains-take n xs k)

  pub unique-take :
      (n : ℕ) (xs : List A) → unique (map key xs) ≡ true → unique (map key (take n xs)) ≡ true
  unique-take zero xs h = refl
  unique-take (suc n) [] h = refl
  unique-take (suc n) (x ∷ xs) h = ground (arith, h, contains-take n xs (key x), unique-take n xs)

  module _ (le : A → A → Bool) where
    contains-insert_by :
        (x : A) (xs : List A) (k : String)
        → contains (map key (insert_by le x xs)) k ≡ (key x == k || contains (map key xs) k)
    unfolding insert_by
    contains-insert_by x [] k = refl
    contains-insert_by x (y ∷ ys) k = elim (Bool-cases (le x y)) [
      | inl e ↦ rw e refl
      | inr e ↦ rw e (ground (arith, contains-insert_by x ys k))
    ]

    unique-insert_by :
        (x : A) (xs : List A)
        → unique (map key (insert_by le x xs))
          ≡ (not (contains (map key xs) (key x)) && unique (map key xs))
    unfolding insert_by
    unique-insert_by x [] = refl
    unique-insert_by x (y ∷ ys) = elim (Bool-cases (le x y)) [
      | inl e ↦ rw e refl
      | inr e ↦ rw e (
          ground (
            arith,
            contains-insert_by x ys (key y),
            unique-insert_by x ys,
            eq_iff (key x) (key y),
            eq_iff (key y) (key x),
          ))
    ]

    contains-sort_by :
        (xs : List A) (k : String) → contains (map key (sort_by le xs)) k ≡ contains (map key xs) k
    unfolding sort_by
    contains-sort_by [] k = refl
    contains-sort_by (x ∷ xs) k =
        ground (arith, contains-insert_by x (sort_by le xs) k, contains-sort_by xs k)

    -- Sorting keeps the keys distinct.
    pub unique-sort_by : (xs : List A) → unique (map key (sort_by le xs)) ≡ unique (map key xs)
    unfolding sort_by
    unique-sort_by [] = refl
    unique-sort_by (x ∷ xs) =
        ground (
          arith,
          unique-insert_by x (sort_by le xs),
          contains-sort_by xs (key x),
          unique-sort_by xs,
        )

module _ {V : Type 0} where
  contains-insert :
      (k j : String) (v : V) (d : Dict V)
      → contains (map (λ e. e.0) (insert k v d)) j ≡ (k == j || contains (map (λ e. e.0) d) j)
  unfolding insert
  contains-insert k j v [] = refl
  contains-insert k j v ((i, w) ∷ d) = elim (Bool-cases (i == k)) [
    | inl e ↦ rw e (ground (arith, eq_iff i k, eq_iff k j, eq_iff i j))
    | inr e ↦ rw e (ground (arith, contains-insert k j v d))
  ]

  -- Storing a value keeps the keys distinct.
  pub unique-insert :
      (k : String) (v : V) (d : Dict V)
      → unique (map (λ e. e.0) d) ≡ true
      → unique (map (λ e. e.0) (insert k v d)) ≡ true
  unfolding insert
  unique-insert k v [] h = refl
  unique-insert k v ((i, w) ∷ d) h = elim (Bool-cases (i == k)) [
    | inl e ↦ rw e h
    | inr e ↦
        rw e
          (ground (arith, h, contains-insert k i v d, unique-insert k v d, eq_iff i k, eq_iff k i))
  ]
