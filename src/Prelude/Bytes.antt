-- ===== src/Prelude/Bytes.antt =====
-- Texts as lists of their characters, with the operations of `str` that the program uses.
use Prim.Native.Nat.{ℕ}
use mathlib.Core.Path.{◌≡◌}
use mathlib.Core.Logic.{◌↔◌}
use mathlib.Core.Bool.{Bool, true, false, ◌&&◌, ◌||◌}
use mathlib.Core.Option.{Option, none, some}
use mathlib.Core.List.{List, [], ◌∷◌}
use native.Mathlib.Omega.{arith}
use ax_ssh.Prelude.Tests.{◌==◌, leb, ltb, if◌then◌else◌}
use ax_ssh.Prelude.Keyed.{Eq}

abbrev pub Text : Type 0
Text = List ℕ

-- ASCII white space.
abbrev pub is_space : ℕ → Bool
is_space c = (leb 9 c && leb c 13) || (c == 32)

-- `char::is_whitespace`: the characters with Unicode's property White_Space.
abbrev pub is_whitespace : ℕ → Bool
is_whitespace c =
    is_space c
    || (c == 133)
    || (c == 160)
    || (c == 5760)
    || (leb 8192 c && leb c 8202)
    || (c == 8232)
    || (c == 8233)
    || (c == 8239)
    || (c == 8287)
    || (c == 12288)

abbrev pub is_empty : Text → Bool
is_empty [] = true
is_empty (c ∷ t) = false

abbrev pub starts_with : ℕ → Text → Bool
starts_with c [] = false
starts_with c (d ∷ t) = d == c

unfoldable pub same_text : Text → Text → Bool
same_text [] [] = true
same_text [] (d ∷ u) = false
same_text (c ∷ t) [] = false
same_text (c ∷ t) (d ∷ u) = (c == d) && same_text t u

pub same_text_iff : (t u : Text) → (same_text t u ≡ true) ↔ (t ≡ u)
unfolding same_text
same_text_iff [] [] = ground arith
same_text_iff [] (d ∷ u) = ground arith
same_text_iff (c ∷ t) [] = ground arith
same_text_iff (c ∷ t) (d ∷ u) = ground (arith, same_text_iff t u)

instance abbrev pub text_eq : Eq Text
text_eq = record { beq = same_text; beq_iff = same_text_iff }

unfoldable pub trim_start : Text → Text
trim_start [] = []
trim_start (c ∷ t) = let rest = trim_start t in if is_whitespace c then rest else c ∷ t

-- A character before a text whose end is trimmed.
abbrev pub before_trimmed : ℕ → Text → Text
before_trimmed c [] = if is_whitespace c then [] else c ∷ []
before_trimmed c (d ∷ t) = c ∷ d ∷ t

unfoldable pub trim_end : Text → Text
trim_end [] = []
trim_end (c ∷ t) = before_trimmed c (trim_end t)

unfoldable pub trim : Text → Text
unfolding trim_start trim_end
trim t = trim_end (trim_start t)

-- `trim_end_matches`, of one character.
abbrev pub before_trimmed_of : ℕ → ℕ → Text → Text
before_trimmed_of k c [] = if c == k then [] else c ∷ []
before_trimmed_of k c (d ∷ t) = c ∷ d ∷ t

unfoldable pub trim_end_matches : ℕ → Text → Text
trim_end_matches k [] = []
trim_end_matches k (c ∷ t) = before_trimmed_of k c (trim_end_matches k t)

-- `rsplit_once`.
unfoldable pub rsplit_once : ℕ → Text → Option (Text × Text)
rsplit_once k [] = none
rsplit_once k (c ∷ t) = elim (rsplit_once k t) [
  | some (a, b) ↦ some (c ∷ a, b)
  | none ↦ (if c == k then some ([], t) else none)
]

unfoldable pub has_prefix : Text → Text → Bool
has_prefix [] t = true
has_prefix (c ∷ p) [] = false
has_prefix (c ∷ p) (d ∷ t) = (c == d) && has_prefix p t

-- `char::is_control`.
abbrev pub is_control : ℕ → Bool
is_control c = ltb c 32 || (leb 127 c && ltb c 160)

unfoldable pub any_control : Text → Bool
any_control [] = false
any_control (c ∷ t) = is_control c || any_control t
