-- ===== src/Prelude/Counts.antt =====
-- How often a number stands in a list, for lists whose members are to be distinct.
use Prim.Native.Nat.{ℕ, ◌+◌, ◌≤◌, ◌<◌}
use mathlib.Core.Path.{◌≡◌}
use mathlib.Core.Logic.{◌↔◌}
use mathlib.Core.Bool.{Bool, true, false}
use mathlib.Core.List.{List, [], ◌∷◌, ◌++◌}
use native.Mathlib.Omega.{arith}
use ax_ssh.Prelude.Tests.{◌==◌}
use ax_ssh.Prelude.Keyed.{nat_eq, contains}

abbrev pub one_if : Bool → ℕ
one_if true = 1
one_if false = 0

unfoldable pub count : ℕ → List ℕ → ℕ
count a [] = 0
count a (x ∷ xs) = one_if (x == a) + count a xs

pub count-append : (a : ℕ) (xs ys : List ℕ) → count a (xs ++ ys) ≡ count a xs + count a ys
unfolding count
count-append a [] ys = omega arith
count-append a (x ∷ xs) ys = omega (arith, count-append a xs ys)

pub contains_iff : (a : ℕ) (xs : List ℕ) → (contains a xs ≡ true) ↔ (0 < count a xs)
unfolding contains count
contains_iff a [] = ((λ h. ground arith), (λ h. ground arith))
contains_iff a (x ∷ xs) =
    let rest = contains_iff a xs in ((λ h. ground (arith, rest.0)), (λ h. ground (arith, rest.1)))

pub contains_not : (a : ℕ) (xs : List ℕ) → contains a xs ≡ false → count a xs ≡ 0
contains_not a xs h = ground (arith, contains_iff a xs)

-- Each member stands once.
abbrev pub IsDistinct : List ℕ → Type 0
IsDistinct xs = (a : ℕ) → count a xs ≤ 1
