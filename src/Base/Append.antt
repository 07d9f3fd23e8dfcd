-- ===== src/Base/Append.antt =====
-- Lists with an element added at the end.
use Prim.Native.String.{String}
use mathlib.Core.Path.{◌≡◌, refl, ap, ◌∙◌}
use mathlib.Core.Bool.{Bool, true, false, ◌||◌}
use mathlib.Core.List.{List, [], ◌∷◌, ◌++◌, map}
use mathlib.Core.Logic.{inl, inr}
use legal_graphrag_platform.Base.Lists.{All, Member, contains, contains-append, contains_self}

pub map-append :
    {A B : Type 0} (f : A → B) (xs ys : List A) → map f (xs ++ ys) ≡ map f xs ++ map f ys
map-append f [] ys = refl
map-append f (x ∷ xs) ys = ap (λ zs. f x ∷ zs) (map-append f xs ys)

or-true : (b : Bool) → (b || true) ≡ true
or-true true = refl
or-true false = refl

pub contains-left :
    (xs ys : List String) (x : String) → contains xs x ≡ true → contains (xs ++ ys) x ≡ true
contains-left xs ys x h = contains-append xs ys x ∙ ap (λ b. b || contains ys x) h

pub contains-last : (xs : List String) (x : String) → contains (xs ++ x ∷ []) x ≡ true
contains-last xs x =
    contains-append xs (x ∷ []) x
    ∙ ap (λ b. contains xs x || b) (contains_self x [])
    ∙ or-true (contains xs x)

module _ {A : Type 0} where
  pub All-both {ℓ} :
      (P Q : A → Type ℓ) (xs : List A) → All P xs → All Q xs → All (λ x. P x × Q x) xs
  All-both P Q [] hp hq = tt
  All-both P Q (x ∷ xs) hp hq = ((hp.0, hq.0), All-both P Q xs hp.1 hq.1)

  pub Member-left : (x : A) (xs ys : List A) → Member x xs → Member x (xs ++ ys)
  Member-left x [] ys m = absurd m
  Member-left x (z ∷ xs) ys (inl e) = inl e
  Member-left x (z ∷ xs) ys (inr m) = inr (Member-left x xs ys m)

  pub Member-right : (x : A) (xs ys : List A) → Member x ys → Member x (xs ++ ys)
  Member-right x [] ys m = m
  Member-right x (z ∷ xs) ys m = inr (Member-right x xs ys m)
