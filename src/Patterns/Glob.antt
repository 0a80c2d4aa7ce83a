-- ===== src/Patterns/Glob.antt =====
-- src/ssh/known_hosts.rs, `glob_match`, and src/sftp/transfer/discovery.rs, `wildcard_matches`: the
-- loop. An index into the pattern or the text is what is left from it on.
use ax_ssh.Prelude.{
  ℕ, zero, suc, ◌+◌, ◌*◌, Bool, true, false, Option, none, some, List, [], ◌∷◌, ◌==◌, length, drop,
  if◌then◌else◌,
}

-- The byte `*`.
abbrev pub star : ℕ
star = 42

-- The last loop: what is left of the pattern is stars only.
unfoldable pub only_stars : List ℕ → Bool
only_stars [] = true
only_stars (c ∷ ps) = if c == star then only_stars ps else false

-- A turn takes a byte of each, or a star of the pattern, or returns to the last star, which then
-- takes one byte more. So many turns are fuel enough.
abbrev pub turns : List ℕ → List ℕ → ℕ
turns ps vs =
    let bound = length ps + length vs in suc (suc bound * suc bound + length ps + length vs)

abbrev pub Star : Type 0
Star = Option (List ℕ × List ℕ)

-- What a turn of the loop does: it ends with an answer, or goes on.
pub data Turn : Type 0 where
  answer : Bool → Turn
  next : List ℕ → List ℕ → Star → Turn

-- Back to the last star: the pattern after it, the text where it stands.
unfoldable pub backtrack : Star → Turn
backtrack none = answer false
backtrack (some (qs, ws)) = next qs (drop 1 ws) (some (qs, drop 1 ws))

module _ (eats : ℕ → ℕ → Bool) where
  unfoldable pub turn : List ℕ → List ℕ → Star → Turn
  unfolding only_stars backtrack
  turn ps [] last = answer (only_stars ps)
  turn [] (v ∷ vs) last = backtrack last
  turn (c ∷ ps) (v ∷ vs) last =
      if eats c v
      then next ps vs last
      else if c == star
      then next ps (v ∷ vs) (some (ps, v ∷ vs))
      else backtrack last

  -- None when the turns run out before the loop ends.
  unfoldable pub loop : ℕ → List ℕ → List ℕ → Star → Option Bool
  unfolding turn
  loop zero ps vs last = none
  loop (suc n) ps vs last = elim (turn ps vs last) [
    | answer b ↦ some b
    | next ps' vs' last' ↦ loop n ps' vs' last'
  ]
