-- ===== src/Base/Lists.antt =====
-- Python's tuples, lists, sets and insertion-ordered dictionaries as lists.
use Prim.Native.Nat.{ℕ, zero, suc, ◌+◌, ◌≤◌}
use Prim.Native.String.{String}
use mathlib.Core.Path.{subst, ◌≡◌, refl}
use mathlib.Core.Bool.{Bool, true, false, not, ◌&&◌, ◌||◌}
use mathlib.Core.List.{List, [], ◌∷◌, ◌++◌, map}
use mathlib.Core.Logic.{inl, inr, ◌⊎◌}
use mathlib.Core.Option.{Option, none, some}
use native.Mathlib.Omega.{arith}
use text.Mathlib.Text.{◌==◌}
use text.Mathlib.TextEquality.{eq_iff}
use text.Mathlib.TextPositions.{eq_refl}
use legal_graphrag_platform.Base.Tests.{if◌then◌else◌, Bool-cases}

module _ {ℓ} {A : Type ℓ} where
  abbrev pub length : List A → ℕ
  length [] = 0
  length (x ∷ xs) = suc (length xs)

  -- `xs[:n]`
  abbrev pub take : ℕ → List A → List A
  take zero xs = []
  take (suc n) [] = []
  take (suc n) (x ∷ xs) = x ∷ take n xs

  abbrev pub is_empty : List A → Bool
  is_empty [] = true
  is_empty (x ∷ xs) = false

  -- `any(p(x) for x in xs)`
  abbrev pub any : (A → Bool) → List A → Bool
  any p [] = false
  any p (x ∷ xs) = p x || any p xs

  -- `all(p(x) for x in xs)`
  abbrev pub all : (A → Bool) → List A → Bool
  all p [] = true
  all p (x ∷ xs) = p x && all p xs

  -- `[x for x in xs if p(x)]`
  abbrev pub filter : (A → Bool) → List A → List A
  filter p [] = []
  filter p (x ∷ xs) = let rest = filter p xs in if p x then x ∷ rest else rest

  -- The first element that passes the test.
  abbrev pub find? : (A → Bool) → List A → Option A
  find? p [] = none
  find? p (x ∷ xs) = let rest = find? p xs in if p x then some x else rest

  pub length-append : (xs ys : List A) → length (xs ++ ys) ≡ length xs + length ys
  length-append [] ys = omega arith
  length-append (x ∷ xs) ys = omega (arith, length-append xs ys)

  pub length-take_le : (n : ℕ) (xs : List A) → length (take n xs) ≤ n
  length-take_le zero xs = omega arith
  length-take_le (suc n) [] = omega arith
  length-take_le (suc n) (x ∷ xs) = omega (arith, length-take_le n xs)

  abbrev pub All {κ} : (A → Type κ) → List A → Type κ
  All P [] = Unit
  All P (x ∷ xs) = P x × All P xs

  pub All-append {κ} : (P : A → Type κ) (xs ys : List A) → All P xs → All P ys → All P (xs ++ ys)
  All-append P [] ys hx hy = hy
  All-append P (x ∷ xs) ys hx hy = (hx.0, All-append P xs ys hx.1 hy)

  pub All-mono {κ μ} :
      (P : A → Type κ) (Q : A → Type μ)
      → ((x : A) → P x → Q x)
      → (xs : List A) → All P xs
      → All Q xs
  All-mono P Q f [] h = tt
  All-mono P Q f (x ∷ xs) h = (f x h.0, All-mono P Q f xs h.1)

  pub All-take {κ} : (P : A → Type κ) (n : ℕ) (xs : List A) → All P xs → All P (take n xs)
  All-take P zero xs h = tt
  All-take P (suc n) [] h = tt
  All-take P (suc n) (x ∷ xs) h = (h.0, All-take P n xs h.1)

  pub all→All : (p : A → Bool) (xs : List A) → all p xs ≡ true → All (λ x. p x ≡ true) xs
  all→All p [] h = tt
  all→All p (x ∷ xs) h = (ground arith, all→All p xs (ground arith))

  pub filter-All : (p : A → Bool) (xs : List A) → All (λ x. p x ≡ true) (filter p xs)
  filter-All p [] = tt
  filter-All p (x ∷ xs) = elim (Bool-cases (p x)) [
    | inl e ↦ rw e (e, filter-All p xs)
    | inr e ↦ rw e (filter-All p xs)
  ]

  pub All-filter {κ} :
      (P : A → Type κ) (p : A → Bool) (xs : List A) → All P xs → All P (filter p xs)
  All-filter P p [] h = tt
  All-filter P p (x ∷ xs) h = elim (Bool-cases (p x)) [
    | inl e ↦ rw e (h.0, All-filter P p xs h.1)
    | inr e ↦ rw e (All-filter P p xs h.1)
  ]

  pub find?-All {κ} :
      (P : A → Type κ) (p : A → Bool) (xs : List A) (x : A)
      → All P xs
      → find? p xs ≡ some x
      → P x × (p x ≡ true)
  find?-All P p [] x h e = cc
  find?-All P p (y ∷ ys) x h e = elim (Bool-cases (p y)) [
    | inl t ↦ let same : some y ≡ some x = rw t at e in let eq : y ≡ x = cc in rw (← eq) (h.0, t)
    | inr t ↦ find?-All P p ys x h.1 (rw t at e)
  ]

module _ {A : Type 0} where
  -- `x` is an element of the list.
  abbrev pub Member : A → List A → Type 0
  Member x [] = ⊥
  Member x (y ∷ ys) = (x ≡ y) ⊎ Member x ys

  Member-All : (xs : List A) → All (λ x. Member x xs) xs
  Member-All [] = tt
  Member-All (x ∷ xs) = (
    inl refl,
    All-mono (λ y. Member y xs) (λ y. Member y (x ∷ xs)) (λ y m. inr m) xs (Member-All xs),
  )

  pub All-of_members {κ} : (P : A → Type κ) (xs : List A) → ((x : A) → Member x xs → P x) → All P xs
  All-of_members P xs f = All-mono (λ x. Member x xs) P f xs (Member-All xs)

  pub All_at {κ} : (P : A → Type κ) (xs : List A) (x : A) → All P xs → Member x xs → P x
  All_at P [] x h m = absurd m
  All_at P (y ∷ ys) x h (inl e) = rw e h.0
  All_at P (y ∷ ys) x h (inr m) = All_at P ys x h.1 m

module _ {ℓ κ} {A : Type ℓ} {B : Type κ} where
  -- `[y for x in xs for y in f(x)]`
  abbrev pub flat_map : (A → List B) → List A → List B
  flat_map f [] = []
  flat_map f (x ∷ xs) = f x ++ flat_map f xs

  -- `[y for x in xs if (y := f(x)) is not None]`
  abbrev pub filter_map : (A → Option B) → List A → List B
  filter_map f [] = []
  filter_map f (x ∷ xs) =
      let rest = filter_map f xs in elim (f x) [ none ↦ rest | some y ↦ y ∷ rest ]

  pub All-map {μ} :
      (P : B → Type μ) (f : A → B) (xs : List A) → All (λ x. P (f x)) xs → All P (map f xs)
  All-map P f [] h = tt
  All-map P f (x ∷ xs) h = (h.0, All-map P f xs h.1)

-- `x in xs`, for identifiers
abbrev pub contains : List String → String → Bool
contains [] x = false
contains (y ∷ ys) x = y == x || contains ys x

-- `set(xs).issubset(ys)`
abbrev pub subset : List String → List String → Bool
subset xs ys = all (contains ys) xs

-- `set(xs) == set(ys)`
abbrev pub same_set : List String → List String → Bool
same_set xs ys = subset xs ys && subset ys xs

-- `len(xs) == len(set(xs))`
abbrev pub unique : List String → Bool
unique [] = true
unique (x ∷ xs) = not (contains xs x) && unique xs

-- `list(dict.fromkeys(xs))`, after the values of `seen`
abbrev pub fresh_in : List String → List String → List String
fresh_in seen [] = []
fresh_in seen (x ∷ xs) =
    let known = fresh_in seen xs in
    let new = x ∷ fresh_in (x ∷ seen) xs in if contains seen x then known else new

unfoldable pub first_occurrence : List String → List String
first_occurrence xs = fresh_in [] xs

pub contains_self : (x : String) (xs : List String) → contains (x ∷ xs) x ≡ true
contains_self x xs = rw eq_refl refl

pub contains-append :
    (xs ys : List String) (x : String) → contains (xs ++ ys) x ≡ (contains xs x || contains ys x)
contains-append [] ys x = refl
contains-append (y ∷ xs) ys x = ground (arith, contains-append xs ys x)

-- The values kept are those of the list that were not seen before, each once.
pub contains-fresh_in :
    (seen xs : List String) (x : String)
    → contains (fresh_in seen xs) x ≡ (contains xs x && not (contains seen x))
contains-fresh_in seen [] x = refl
contains-fresh_in seen (y ∷ ys) x =
    ground (arith, eq_iff y x, contains-fresh_in seen ys x, contains-fresh_in (y ∷ seen) ys x)

pub contains-first_occurrence :
    (xs : List String) (x : String) → contains (first_occurrence xs) x ≡ contains xs x
unfolding first_occurrence
contains-first_occurrence xs x = ground (arith, contains-fresh_in [] xs x)

-- `xs == ys`, for identifiers
abbrev pub same_list : List String → List String → Bool
same_list [] [] = true
same_list (x ∷ xs) (y ∷ ys) = x == y && same_list xs ys
same_list _ _ = false

pub same_list→eq : (xs ys : List String) → same_list xs ys ≡ true → xs ≡ ys
same_list→eq [] [] h = refl
same_list→eq (x ∷ xs) (y ∷ ys) h = ground (arith, eq_iff x y, same_list→eq xs ys)
same_list→eq [] (y ∷ ys) h = cc
same_list→eq (x ∷ xs) [] h = cc

-- The first occurrences are elements of the list.
pub All-of_contains {κ} :
    (P : String → Type κ) (xs : List String)
    → ((x : String) → contains xs x ≡ true → P x)
    → All P xs
All-of_contains P [] f = tt
All-of_contains P (x ∷ xs) f =
    (f x (contains_self x xs), All-of_contains P xs (λ y h. f y (ground (arith, h))))

pub All_at_contains {κ} :
    (P : String → Type κ) (xs : List String) (x : String) → All P xs → contains xs x ≡ true → P x
All_at_contains P [] x h c = cc
All_at_contains P (y ∷ ys) x h c = elim (Bool-cases (y == x)) [
  | inl e ↦ subst P ((eq_iff y x).0 e) h.0
  | inr e ↦ All_at_contains P ys x h.1 (rw e at c)
]

pub subset_at :
    (xs ys : List String) (x : String)
    → subset xs ys ≡ true
    → contains xs x ≡ true
    → contains ys x ≡ true
subset_at xs ys x s c =
    All_at_contains (λ y. contains ys y ≡ true) xs x (all→All (contains ys) xs s) c

pub contains-map_of_Member :
    {A : Type 0} (key : A → String) (xs : List A) (x : A)
    → Member x xs
    → contains (map key xs) (key x) ≡ true
contains-map_of_Member key [] x m = absurd m
contains-map_of_Member key (y ∷ ys) x (inl e) = rw (e, eq_refl)
contains-map_of_Member key (y ∷ ys) x (inr m) = ground (arith, contains-map_of_Member key ys x m)

module _ {ℓ κ} {A : Type ℓ} (P : A → Type κ) where
  pub All-left : (xs ys : List A) → All P (xs ++ ys) → All P xs
  All-left [] ys h = tt
  All-left (x ∷ xs) ys h = (h.0, All-left xs ys h.1)

  pub All-right : (xs ys : List A) → All P (xs ++ ys) → All P ys
  All-right [] ys h = h
  All-right (x ∷ xs) ys h = All-right xs ys h.1

module _ {ℓ κ μ} {A : Type ℓ} {B : Type κ} (P : B → Type μ) (f : A → List B) where
  pub All-flat_map : (xs : List A) → All P (flat_map f xs) → All (λ x. All P (f x)) xs
  All-flat_map [] h = tt
  All-flat_map (x ∷ xs) h =
      (All-left P (f x) (flat_map f xs) h, All-flat_map xs (All-right P (f x) (flat_map f xs) h))
