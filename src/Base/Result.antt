-- ===== src/Base/Result.antt =====
-- Exceptions as values: a computation returns `ok` or raises an exception with its message.
use legal_graphrag_platform.Base.{is_some}
use Prim.Native.String.{String}
use mathlib.Core.Path.{◌≡◌, refl}
use mathlib.Core.Bool.{Bool, true, false, not}
use mathlib.Core.List.{List, [], ◌∷◌, map}
use mathlib.Core.Option.{Option, none, some}
use legal_graphrag_platform.Base.Lists.{All}

-- generation/errors.py and retrieval/errors.py; the built-in `ValueError` (pydantic's validation
-- error among it), `KeyError` and `IndexError`.
pub data ErrorClass : Type 0 where
  answer_request_error evidence_contract_error context_budget_configuration_error : ErrorClass
  provider_dependency_error provider_timeout_error provider_output_error : ErrorClass
  citation_validation_error grounding_validation_error : ErrorClass
  reasoning_path_validation_error temporal_answer_validation_error : ErrorClass
  retrieval_output_error value_error key_error index_error : ErrorClass
  retrieval_request_error canonical_reference_unavailable_error : ErrorClass
  retrieval_routing_error temporal_routing_error retrieval_capability_error : ErrorClass
  retrieval_dependency_error retrieval_execution_error intent_analysis_error : ErrorClass
  query_processing_error query_processing_parse_error : ErrorClass
  query_processing_contract_error : ErrorClass

pub record Exception : Type 0 where
  pub class : ErrorClass
  pub message : String

pub data Result {ℓ} (A : Type ℓ) : Type ℓ where
  ok : A → Result A
  err : Exception → Result A

-- `raise Class(message)`
abbrev pub raise {ℓ} : {A : Type ℓ} → ErrorClass → String → Result A
raise c m = err (record { class = c; message = m })

infixl 5 ◌>>=◌ ◌>>◌
abbrev pub ◌>>=◌ {ℓ μ} : {X : Type ℓ} {Y : Type μ} → Result X → (X → Result Y) → Result Y
err failure >>= next = err failure
ok x >>= next = next x

abbrev pub ◌>>◌ {μ} : {Y : Type μ} → Result (Unit {0}) → Result Y → Result Y
first >> next = first >>= λ _. next

-- `if failed: raise Class(message)`
abbrev pub fail_if : Bool → ErrorClass → String → Result (Unit {0})
fail_if true c m = raise c m
fail_if false c m = ok tt

abbrev pub of_option {ℓ} : {A : Type ℓ} → Option A → ErrorClass → String → Result A
of_option none c m = raise c m
of_option (some a) c m = ok a

pub >>=-eq-ok {ℓ μ} :
    {X : Type ℓ} {Y : Type μ} (first : Result X) (next : X → Result Y) {b : Y}
    → (first >>= next) ≡ ok b
    → (x : X) × (first ≡ ok x) × (next x ≡ ok b)
>>=-eq-ok (err failure) next h = cc
>>=-eq-ok (ok x) next h = (x, refl, h)

pub ok_inj {ℓ} : {A : Type ℓ} {a b : A} → ok a ≡ ok b → a ≡ b
ok_inj h = cc

pub of_option-eq-ok {ℓ} :
    {A : Type ℓ} (o : Option A) (c : ErrorClass) (m : String) {a : A}
    → of_option o c m ≡ ok a
    → o ≡ some a
of_option-eq-ok none c m h = cc
of_option-eq-ok (some a) c m h = cc

-- `tuple(f(x) for x in xs)` where `f` may raise
module _ {ℓ κ} {A : Type ℓ} {B : Type κ} where
  abbrev pub traverse : (A → Result B) → List A → Result (List B)
  traverse f [] = ok []
  traverse f (x ∷ xs) = do y ← f x; ys ← traverse f xs; ok (y ∷ ys)

  pub traverse-All {μ} :
      (P : B → Type μ) (f : A → Result B)
      → ((x : A) (y : B) → f x ≡ ok y → P y)
      → (xs : List A) (ys : List B) → traverse f xs ≡ ok ys
      → All P ys
  traverse-All P f h [] [] e = tt
  traverse-All P f h [] (y ∷ ys) e = cc
  traverse-All P f h (x ∷ xs) ys e =
      let (y, e₁, e₂) = >>=-eq-ok (f x) _ e in
      let (zs, e₃, e₄) = >>=-eq-ok (traverse f xs) _ e₂ in
      let same : y ∷ zs ≡ ys = cc in rw (← same) (h x y e₁, traverse-All P f h xs zs e₃)

-- Inversions of the commonest steps of a block that returned.
pub guard-bind-ok {ℓ} :
    {B : Type ℓ} (b : Bool) (c : ErrorClass) (m : String) (k : Result B) {r : B}
    → (fail_if b c m >> k) ≡ ok r
    → (b ≡ false) × (k ≡ ok r)
guard-bind-ok true c m k h = cc
guard-bind-ok false c m k h = (refl, h)

pub of_option-bind-ok {ℓ κ} :
    {A : Type ℓ} {B : Type κ} (o : Option A) (c : ErrorClass) (m : String) (f : A → Result B)
    {r : B}
    → (of_option o c m >>= f) ≡ ok r
    → (a : A) × (o ≡ some a) × (f a ≡ ok r)
of_option-bind-ok none c m f h = cc
of_option-bind-ok (some a) c m f h = (a, refl, h)

pub not-eq-false : (b : Bool) → not b ≡ false → b ≡ true
not-eq-false true h = refl
not-eq-false false h = cc

-- What each element's image shows, and what it does not raise.
module _ {ℓ} {A : Type ℓ} {B : Type 0} where
  pub traverse-map :
      (f : A → Result B) (g : B → A)
      → ((x : A) (y : B) → f x ≡ ok y → g y ≡ x)
      → (xs : List A) (ys : List B) → traverse f xs ≡ ok ys
      → map g ys ≡ xs
  traverse-map f g h [] [] e = refl
  traverse-map f g h [] (y ∷ ys) e = cc
  traverse-map f g h (x ∷ xs) ys e =
      let (y, e₁, e₂) = >>=-eq-ok (f x) _ e in
      let (zs, e₃, e₄) = >>=-eq-ok (traverse f xs) _ e₂ in
      let same : y ∷ zs ≡ ys = cc in rw (← same) (rw (h x y e₁, traverse-map f g h xs zs e₃))

  -- Every element has an image.
  pub traverse-images {κ} :
      (P : A → Type κ) (f : A → Result B)
      → ((x : A) (y : B) → f x ≡ ok y → P x)
      → (xs : List A) (ys : List B) → traverse f xs ≡ ok ys
      → All P xs
  traverse-images P f h [] ys e = tt
  traverse-images P f h (x ∷ xs) ys e =
      let (y, e₁, e₂) = >>=-eq-ok (f x) _ e in
      let (zs, e₃, e₄) = >>=-eq-ok (traverse f xs) _ e₂ in
      (h x y e₁, traverse-images P f h xs zs e₃)

-- Every exception that `m` raises meets `P`: one rule for each way to build a computation.
pub record Raises {ℓ} {A : Type ℓ} (P : Exception → Type 0) (m : Result A) : Type ℓ where
  pub at : (e : Exception) → m ≡ err e → P e

module _ {ℓ} {A : Type ℓ} {P : Exception → Type 0} where
  pub Raises-ok : (a : A) → Raises P (ok a)
  Raises-ok a = record { at = λ e h. cc }

  pub Raises-err : (e : Exception) → P e → Raises {A = A} P (err e)
  Raises-err e p = record { at = λ e' h. let same : e ≡ e' = cc in rw (← same) p }

pub Raises-fail_if :
    {P : Exception → Type 0} (b : Bool) (c : ErrorClass) (m : String)
    → P (record { class = c; message = m })
    → Raises P (fail_if b c m)
Raises-fail_if true c m p = Raises-err _ p
Raises-fail_if false c m p = Raises-ok tt

module _ {A B : Type 0} {P : Exception → Type 0} where
  pub Raises-bind :
      (m : Result A) (f : A → Result B)
      → Raises P m
      → ((a : A) → m ≡ ok a → Raises P (f a))
      → Raises P (m >>= f)
  Raises-bind (ok a) f rm rf = rf a refl
  Raises-bind (err e) f rm rf = Raises-err e (rm.at e refl)

  pub Raises-traverse :
      (f : A → Result B) (xs : List A) → All (λ x. Raises P (f x)) xs → Raises P (traverse f xs)
  Raises-traverse f [] h = Raises-ok []
  Raises-traverse f (x ∷ xs) h = raises_cons (f x) (traverse f xs) h.0 (Raises-traverse f xs h.1)
    where
      raises_cons :
          (m : Result B) (n : Result (List B))
          → Raises P m
          → Raises P n
          → Raises P (m >>= λ y. n >>= λ ys. ok (y ∷ ys))
      raises_cons (ok y) (ok ys) rm rn = Raises-ok (y ∷ ys)
      raises_cons (ok y) (err e) rm rn = Raises-err e (rn.at e refl)
      raises_cons (err e) n rm rn = Raises-err e (rm.at e refl)

module _ {B : Type 0} {P : Exception → Type 0} where
  pub Raises-guard :
      (b : Bool) (c : ErrorClass) (m : String) (k : Result B)
      → P (record { class = c; message = m })
      → (b ≡ false → Raises P k)
      → Raises P (fail_if b c m >> k)
  Raises-guard true c m k p rk = Raises-err _ p
  Raises-guard false c m k p rk = rk refl

  pub Raises-need :
      {A : Type 0} (o : Option A) (c : ErrorClass) (m : String) (f : A → Result B)
      → P (record { class = c; message = m })
      → ((a : A) → o ≡ some a → Raises P (f a))
      → Raises P (of_option o c m >>= f)
  Raises-need none c m f p rf = Raises-err _ p
  Raises-need (some a) c m f p rf = rf a refl

  -- A value that is there raises nothing.
  pub Raises-found :
      {A : Type 0} (o : Option A) (c : ErrorClass) (m : String) (f : A → Result B)
      → is_some o ≡ true
      → ((a : A) → o ≡ some a → Raises P (f a))
      → Raises P (of_option o c m >>= f)
  Raises-found none c m f h rf = cc
  Raises-found (some a) c m f h rf = rf a refl
