-- ===== src/Prelude/Keyed.antt =====
-- Sets as lists of their members, and maps as association lists, for types with a Boolean equality:
-- what the program keeps in a `HashSet` or a `HashMap`.
use Prim.Native.Nat.{ℕ}
use Prim.Native.String.{String}
use mathlib.Core.Path.{◌≡◌, refl}
use mathlib.Core.Logic.{◌↔◌, inl, inr}
use mathlib.Core.Bool.{Bool, true, false, not, ◌&&◌, ◌||◌}
use mathlib.Core.Option.{Option, none, some}
use mathlib.Core.List.{List, [], ◌∷◌}
use native.Mathlib.Omega.{arith}
use text.Mathlib.Text.{◌==◌ as str_eq}
use text.Mathlib.TextEquality.{eq_iff}
use ax_ssh.Prelude.Tests.{◌==◌, ==_iff, if◌then◌else◌, Bool-cases}

pub record Eq {ℓ} (A : Type ℓ) : Type ℓ where
  pub beq : A → A → Bool
  pub beq_iff : (a b : A) → (beq a b ≡ true) ↔ (a ≡ b)

instance abbrev pub nat_eq : Eq ℕ
nat_eq = record { beq = λ a b. a == b; beq_iff = ==_iff }

instance abbrev pub string_eq : Eq String
string_eq = record { beq = str_eq; beq_iff = eq_iff }

module _ {ℓ} {A : Type ℓ} ⦃e : Eq A⦄ where
  -- `HashSet::contains`.
  unfoldable pub contains : A → List A → Bool
  contains a [] = false
  contains a (x ∷ xs) = e.beq x a || contains a xs

  -- `HashSet::insert`.
  unfoldable pub insert : A → List A → List A
  unfolding contains
  insert a xs = if contains a xs then xs else a ∷ xs

  -- `HashSet::remove`, and `retain(|x| x != a)`.
  unfoldable pub remove : A → List A → List A
  remove a [] = []
  remove a (x ∷ xs) = if e.beq x a then remove a xs else x ∷ remove a xs

  pub beq_self : (a : A) → e.beq a a ≡ true
  beq_self a = (e.beq_iff a a).1 refl

  pub contains-insert :
      (a b : A) (xs : List A) → contains b (insert a xs) ≡ (e.beq a b || contains b xs)
  unfolding insert
  contains-insert a b xs = elim (Bool-cases (contains a xs)) [
    | inl old ↦ elim (Bool-cases (e.beq a b)) [
      | inl same ↦ ground (arith, e.beq_iff a b, cc_contains a b xs)
      | inr other ↦ ground arith
    ]
    | inr new ↦ ground arith
  ]
    where
      cc_contains : (a b : A) (xs : List A) → a ≡ b → contains a xs ≡ contains b xs
      cc_contains a b xs h = cc

  pub contains-remove :
      (a b : A) (xs : List A) → contains b (remove a xs) ≡ (not (e.beq a b) && contains b xs)
  unfolding contains remove
  contains-remove a b [] = ground arith
  contains-remove a b (x ∷ xs) =
      ground (arith, contains-remove a b xs, e.beq_iff x a, e.beq_iff x b, e.beq_iff a b)

module _ {ℓ κ} {A : Type ℓ} {V : Type κ} ⦃e : Eq A⦄ where
  -- `HashMap::get`.
  unfoldable pub lookup : A → List (A × V) → Option V
  lookup a [] = none
  lookup a ((k, v) ∷ m) = if e.beq k a then some v else lookup a m

  -- `HashMap::insert`.
  unfoldable pub insert_at : A → V → List (A × V) → List (A × V)
  insert_at a v [] = (a, v) ∷ []
  insert_at a v ((k, w) ∷ m) = if e.beq k a then (k, v) ∷ m else (k, w) ∷ insert_at a v m

  -- `HashMap::remove`.
  unfoldable pub remove_key : A → List (A × V) → List (A × V)
  remove_key a [] = []
  remove_key a ((k, v) ∷ m) = if e.beq k a then remove_key a m else (k, v) ∷ remove_key a m

  -- `HashMap::retain`.
  unfoldable pub retain : (A → V → Bool) → List (A × V) → List (A × V)
  retain keep [] = []
  retain keep ((k, v) ∷ m) = if keep k v then (k, v) ∷ retain keep m else retain keep m

  -- `HashMap::contains_key`.
  unfoldable pub contains_key : A → List (A × V) → Bool
  contains_key a [] = false
  contains_key a ((k, v) ∷ m) = e.beq k a || contains_key a m

  pub lookup-insert_at :
      (a b : A) (v : V) (m : List (A × V))
      → lookup b (insert_at a v m) ≡ (if e.beq a b then some v else lookup b m)
  unfolding lookup insert_at
  lookup-insert_at a b v [] = refl
  lookup-insert_at a b v ((k, w) ∷ m) =
      ground (arith, e.beq_iff a b, e.beq_iff k a, e.beq_iff k b, lookup-insert_at a b v m)

  pub lookup-remove_key :
      (a b : A) (m : List (A × V))
      → lookup b (remove_key a m) ≡ (if e.beq a b then none else lookup b m)
  unfolding lookup remove_key
  lookup-remove_key a b [] = ground arith
  lookup-remove_key a b ((k, w) ∷ m) =
      ground (arith, e.beq_iff a b, e.beq_iff k a, e.beq_iff k b, lookup-remove_key a b m)

  pub contains_key-insert_at :
      (a b : A) (v : V) (m : List (A × V))
      → contains_key b (insert_at a v m) ≡ (e.beq a b || contains_key b m)
  unfolding contains_key insert_at
  contains_key-insert_at a b v [] = refl
  contains_key-insert_at a b v ((k, w) ∷ m) =
      ground (arith, e.beq_iff a b, e.beq_iff k a, e.beq_iff k b, contains_key-insert_at a b v m)

  pub contains_key-remove_key :
      (a b : A) (m : List (A × V))
      → contains_key b (remove_key a m) ≡ (not (e.beq a b) && contains_key b m)
  unfolding contains_key remove_key
  contains_key-remove_key a b [] = ground arith
  contains_key-remove_key a b ((k, w) ∷ m) =
      ground (arith, e.beq_iff a b, e.beq_iff k a, e.beq_iff k b, contains_key-remove_key a b m)
