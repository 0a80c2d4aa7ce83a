-- ===== src/Patterns.antt =====
-- src/sftp/transfer/discovery.rs (`wildcard_matches`) and src/ssh/known_hosts.rs (`glob_match`): the
-- two matchers of patterns with a `*`. They run one loop and differ in which byte of a pattern takes
-- which byte of the text, so the loop has that test as a parameter.
pub mod Glob
pub mod Matches
pub mod Greedy
pub mod Sound
pub mod Correct
use ax_ssh.Prelude.{
  ℕ, Bool, not, ◌&&◌, ◌||◌, Option, none, some, List, [], ◌∷◌, length, ◌+◌, ◌*◌, suc, ◌==◌, false,
  true,
}
use ax_ssh.Patterns.Glob.{star, loop, turns}

-- In `wildcard_matches` only an equal byte is taken, and a `*` of the pattern by no byte.
abbrev pub eats_equal : ℕ → ℕ → Bool
eats_equal c v = not (c == star) && (c == v)

-- In `glob_match` a `?` takes any byte, and an equal byte is taken, also a `*`.
abbrev pub eats_glob : ℕ → ℕ → Bool
eats_glob c v = (c == v) || (c == 63)

-- The answer of a loop that has ended.
abbrev pub answer_of : Option Bool → Bool
answer_of none = false
answer_of (some b) = b

-- `wildcard_matches`, with its loop's own outcome.
unfoldable pub wildcard_run : List ℕ → List ℕ → Option Bool
unfolding loop
wildcard_run pattern value = loop eats_equal (turns pattern value) pattern value none

unfoldable pub wildcard_matches : List ℕ → List ℕ → Bool
unfolding wildcard_run
wildcard_matches pattern value = answer_of (wildcard_run pattern value)

-- `transfer_name_matches_filter`.
unfoldable pub transfer_name_matches_filter : List ℕ → List (List ℕ) → Bool
unfolding wildcard_matches
transfer_name_matches_filter name [] = false
transfer_name_matches_filter name (pattern ∷ patterns) =
    wildcard_matches pattern name || transfer_name_matches_filter name patterns

-- `glob_match`, with its loop's own outcome.
unfoldable pub glob_run : List ℕ → List ℕ → Option Bool
unfolding loop
glob_run pattern value = loop eats_glob (turns pattern value) pattern value none

unfoldable pub glob_match : List ℕ → List ℕ → Bool
unfolding glob_run
glob_match pattern value = answer_of (glob_run pattern value)
