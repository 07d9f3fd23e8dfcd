-- ===== src/Base/Dict.antt =====
-- Python's `dict` with text keys, as the list of its entries in insertion order.
use legal_graphrag_platform.Base.{◌∙◌}
use Prim.Native.String.{String}
use mathlib.Core.Path.{◌≡◌, refl, subst}
use mathlib.Core.Bool.{◌||◌, true, false}
use mathlib.Core.Logic.{inl, inr}
use mathlib.Core.List.{List, [], ◌∷◌, map}
use mathlib.Core.Option.{Option, none, some}
use native.Mathlib.Omega.{arith}
use text.Mathlib.Text.{◌==◌}
use text.Mathlib.TextEquality.{eq_iff}
use text.Mathlib.TextPositions.{eq_refl}
use legal_graphrag_platform.Base.Tests.{if◌then◌else◌, Bool-cases, is_some}
use legal_graphrag_platform.Base.Lists.{All, Member, contains, unique}

abbrev pub Dict {ℓ} : Type ℓ → Type ℓ
Dict V = List (String × V)

module _ {ℓ} {V : Type ℓ} where
  -- `d.get(k)`
  unfoldable pub lookup : String → Dict V → Option V
  lookup k [] = none
  lookup k ((j, v) ∷ d) = if j == k then some v else lookup k d

  -- `d[k] = v`: a known key keeps its place
  unfoldable pub insert : String → V → Dict V → Dict V
  insert k v [] = (k, v) ∷ []
  insert k v ((j, w) ∷ d) = if j == k then (j, v) ∷ d else (j, w) ∷ insert k v d

  -- `d.setdefault(k, v)`, for its effect on `d`
  unfoldable pub set_default : String → V → Dict V → Dict V
  unfolding lookup insert
  set_default k v d = elim (lookup k d) [ none ↦ insert k v d | some w ↦ d ]

  -- `{**d, **more}`, and `d.update(more)`
  unfoldable pub update : Dict V → Dict V → Dict V
  unfolding insert
  update d [] = d
  update d ((k, v) ∷ more) = update (insert k v d) more

  pub lookup-insert :
      (k j : String) (v : V) (d : Dict V)
      → lookup j (insert k v d) ≡ (if k == j then some v else lookup j d)
  unfolding lookup insert
  lookup-insert k j v [] = refl
  lookup-insert k j v ((i, w) ∷ d) =
      ground (arith, eq_iff k j, eq_iff i k, eq_iff i j, lookup-insert k j v d)

abbrev pub or_else {ℓ} : {A : Type ℓ} → Option A → Option A → Option A
or_else none other = other
or_else (some a) other = some a

module _ {V : Type 0} (j k : String) (v : V) (d : Dict V) where
  default_entry :
      (o : Option V)
      → lookup j d ≡ o
      → lookup k (elim o [ none ↦ insert j v d | some w ↦ d ])
        ≡ (if j == k then or_else (lookup k d) (some v) else lookup k d)
  default_entry none h = elim (Bool-cases (j == k)) [
    | inl e ↦
        let same : lookup k d ≡ none = subst (λ i. lookup i d ≡ none) ((eq_iff j k).0 e) h in
        lookup-insert j k v d ∙ (rw e (rw same refl))
    | inr e ↦ lookup-insert j k v d ∙ (rw e refl)
  ]
  default_entry (some w) h = elim (Bool-cases (j == k)) [
    | inl e ↦
        let same : lookup k d ≡ some w = subst (λ i. lookup i d ≡ some w) ((eq_iff j k).0 e) h in
        rw e (rw same refl)
    | inr e ↦ rw e refl
  ]

  -- A key that is there keeps its value, and one that is not takes the default.
  pub lookup-set_default :
      lookup k (set_default j v d) ≡ (if j == k then or_else (lookup k d) (some v) else lookup k d)
  unfolding set_default
  lookup-set_default = default_entry (lookup j d) refl

module _ {V : Type 0} (key : V → String) where
  unfoldable pub index_from : Dict V → List V → Dict V
  index_from d [] = d
  index_from d (x ∷ xs) = index_from (insert (key x) x d) xs

  -- `{key(x): x for x in xs}`
  unfoldable pub index_by : List V → Dict V
  unfolding index_from
  index_by xs = index_from [] xs

  index_from-lookup {κ} :
      (P : String → V → Type κ) (d : Dict V) (xs : List V)
      → ((k : String) (v : V) → lookup k d ≡ some v → P k v)
      → All (λ x. P (key x) x) xs
      → (k : String) (v : V) → lookup k (index_from d xs) ≡ some v
      → P k v
  unfolding index_from
  index_from-lookup P d [] h hs k v e = h k v e
  index_from-lookup P d (x ∷ xs) h hs k v e =
      index_from-lookup P (insert (key x) x d) xs
        (λ j w found. elim (Bool-cases (key x == j)) [
          | inl t ↦
              let same : some x ≡ some w = rw (lookup-insert, t) at found in
              let eq : x ≡ w = cc in
              let at_key : key x ≡ j = (eq_iff (key x) j).0 t in
              subst (λ (i : String). P i w) at_key (subst (λ (u : V). P (key x) u) eq hs.0)
          | inr t ↦ h j w (rw (lookup-insert, t) at found)
        ])
        hs.1 k v e

  -- What holds of every element under its key holds of what a lookup finds.
  pub index_by-lookup {κ} :
      (P : String → V → Type κ) (xs : List V)
      → All (λ x. P (key x) x) xs
      → (k : String) (v : V) → lookup k (index_by xs) ≡ some v
      → P k v
  unfolding index_by lookup
  index_by-lookup P xs hs k v e = index_from-lookup P [] xs (λ j w found. cc) hs k v e

  index_from-has :
      (d : Dict V) (xs : List V) (k : String)
      → is_some (lookup k (index_from d xs)) ≡ (is_some (lookup k d) || contains (map key xs) k)
  unfolding index_from
  index_from-has d [] k = ground arith
  index_from-has d (x ∷ xs) k =
      ground (arith, index_from-has (insert (key x) x d) xs k, lookup-insert (key x) k x d)

  -- A key is found exactly when an element has it.
  pub index_by-has :
      (xs : List V) (k : String) → is_some (lookup k (index_by xs)) ≡ contains (map key xs) k
  unfolding index_by lookup
  index_by-has xs k = index_from-has [] xs k

  index_from-absent :
      (d : Dict V) (xs : List V) (k : String)
      → contains (map key xs) k ≡ false
      → lookup k (index_from d xs) ≡ lookup k d
  unfolding index_from
  index_from-absent d [] k h = refl
  index_from-absent d (x ∷ xs) k h =
      ground (arith, index_from-absent (insert (key x) x d) xs k, lookup-insert (key x) k x d)

  index_from-find :
      (d : Dict V) (xs : List V) (x : V)
      → unique (map key xs) ≡ true
      → Member x xs
      → lookup (key x) (index_from d xs) ≡ some x
  unfolding index_from
  index_from-find d [] x u m = absurd m
  index_from-find d (y ∷ ys) x u (inl e) =
      let absent : contains (map key ys) (key y) ≡ false = ground arith in
      rw (e, index_from-absent (insert (key y) y d) ys (key y) absent, lookup-insert, eq_refl)
  index_from-find d (y ∷ ys) x u (inr m) =
      index_from-find (insert (key y) y d) ys x (ground arith) m

  -- With distinct keys every element is found under its own.
  pub index_by-find :
      (xs : List V) (x : V)
      → unique (map key xs) ≡ true
      → Member x xs
      → lookup (key x) (index_by xs) ≡ some x
  unfolding index_by
  index_by-find xs x u m = index_from-find [] xs x u m

-- What holds of every value of a dictionary.
module _ {κ} {V : Type 0} (P : V → Type κ) where
  pub All-insert :
      (k : String) (v : V) (d : Dict V) → P v → All (λ e. P e.1) d → All (λ e. P e.1) (insert k v d)
  unfolding insert
  All-insert k v [] p h = (p, tt)
  All-insert k v ((j, w) ∷ d) p h = elim (Bool-cases (j == k)) [
    | inl e ↦ rw e (p, h.1)
    | inr e ↦ rw e (h.0, All-insert k v d p h.1)
  ]

  pub All-found : (k : String) (d : Dict V) (v : V) → All (λ e. P e.1) d → lookup k d ≡ some v → P v
  unfolding lookup
  All-found k [] v h e = cc
  All-found k ((j, w) ∷ d) v h e = elim (Bool-cases (j == k)) [
    | inl t ↦ let same : some w ≡ some v = rw t at e in let eq : w ≡ v = cc in subst P eq h.0
    | inr t ↦ All-found k d v h.1 (rw t at e)
  ]
