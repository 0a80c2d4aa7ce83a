-- ===== src/Sftp/Paths/Parts.antt =====
-- src/sftp.rs: splitting a path and joining its parts undo each other.
use ax_ssh.Prelude.{
  ℕ, Bool, true, false, not, ◌&&◌, ◌≡◌, refl, inl, inr, List, [], ◌∷◌, ◌++◌, ◌==◌, arith,
  Bool-cases,
}
use ax_ssh.Prelude.Bytes.{Text, same_text, is_empty}
use ax_ssh.Sftp.Paths.{slash, dot, dot_dot, before_first, split_slash, with_part, collect_parts}

-- No slash in it.
unfoldable pub slash_free : Text → Bool
slash_free [] = true
slash_free (c ∷ t) = not (c == slash) && slash_free t

-- A name: not empty, not `.` or `..`, and without a slash.
abbrev pub is_name : Text → Bool
is_name p = not (is_empty p) && not (same_text p dot) && not (same_text p dot_dot) && slash_free p

unfoldable pub all_names : List Text → Bool
unfolding same_text slash_free
all_names [] = true
all_names (p ∷ ps) = is_name p && all_names ps

unfoldable pub all_slash_free : List Text → Bool
unfolding slash_free
all_slash_free [] = true
all_slash_free (p ∷ ps) = slash_free p && all_slash_free ps

before_first-slash_free :
    (c : ℕ) (ps : List Text)
    → (c == slash) ≡ false
    → all_slash_free ps ≡ true
    → all_slash_free (before_first c ps) ≡ true
unfolding all_slash_free slash_free
before_first-slash_free c [] h k = ground arith
before_first-slash_free c (p ∷ ps) h k = ground arith

split_slash-slash_free : (t : Text) → all_slash_free (split_slash t) ≡ true
unfolding split_slash all_slash_free slash_free
split_slash-slash_free [] = refl
split_slash-slash_free (c ∷ t) = elim (Bool-cases (c == slash)) [
  | inl same ↦ rw (same) (split_slash-slash_free t)
  | inr other ↦
      rw (other) (before_first-slash_free c (split_slash t) other (split_slash-slash_free t))
]

with_part-names :
    (p : Text) (ps : List Text)
    → slash_free p ≡ true
    → all_names ps ≡ true
    → all_names (with_part p ps) ≡ true
unfolding all_names
with_part-names p [] h k = ground arith
with_part-names p (q ∷ ps) h k = ground arith

pub collect_parts-names :
    (ps acc : List Text)
    → all_slash_free ps ≡ true
    → all_names acc ≡ true
    → all_names (collect_parts ps acc) ≡ true
unfolding collect_parts all_slash_free
collect_parts-names [] acc h k = k
collect_parts-names (p ∷ ps) acc h k =
    collect_parts-names ps (with_part p acc) (ground arith) (with_part-names p acc (ground arith) k)

pub parts-names : (t : Text) → all_names (collect_parts (split_slash t) []) ≡ true
unfolding all_names
parts-names t = collect_parts-names (split_slash t) [] (split_slash-slash_free t) refl

-- The parts behind a name.
pub split_slash-name :
    (p t : Text) → slash_free p ≡ true → split_slash (p ++ (slash ∷ t)) ≡ p ∷ split_slash t
unfolding split_slash slash_free
split_slash-name [] t h = refl
split_slash-name (c ∷ p) t h =
    let other : (c == slash) ≡ false = ground arith in
    rw (other, split_slash-name p t (ground arith)) refl

pub split_slash-last : (p : Text) → slash_free p ≡ true → split_slash p ≡ p ∷ []
unfolding split_slash slash_free
split_slash-last [] h = refl
split_slash-last (c ∷ p) h =
    let other : (c == slash) ≡ false = ground arith in
    rw (other, split_slash-last p (ground arith)) refl
