-- ===== src/Sftp/Paths.antt =====
-- src/sftp.rs: how a path on the server is resolved and normalized. A text is the list of its
-- characters.
pub mod Parts
pub mod Normal
use ax_ssh.Prelude.{
  ℕ, Bool, true, false, not, ◌&&◌, ◌||◌, Option, none, some, List, [], ◌∷◌, ◌++◌, ◌==◌, ltb, leb,
  if◌then◌else◌,
}
use ax_ssh.Prelude.Bytes.{
  Text, any_control, same_text, is_empty, starts_with, trim_end_matches, text_eq,
}
use ax_ssh.Prelude.Results.{Result, ok, err, ◌>>=◌}

pub data PathError : Type 0 where
  control_characters : PathError

abbrev pub PathResult : Type 0 → Type 0
PathResult A = Result PathError A

-- The path, unless it has a control character.
unfoldable pub validate_remote_path : Text → PathResult Unit
unfolding any_control
validate_remote_path path = if any_control path then err control_characters else ok tt

-- `/`, `.` and `..`.
abbrev pub slash : ℕ
slash = 47

abbrev pub dot : Text
dot = 46 ∷ []

abbrev pub dot_dot : Text
dot_dot = 46 ∷ 46 ∷ []

-- A character before the first part.
abbrev pub before_first : ℕ → List Text → List Text
before_first c [] = (c ∷ []) ∷ []
before_first c (p ∷ ps) = (c ∷ p) ∷ ps

-- `split('/')`.
unfoldable pub split_slash : Text → List Text
split_slash [] = [] ∷ []
split_slash (c ∷ t) =
    let rest = split_slash t in if c == slash then [] ∷ rest else before_first c rest

-- The part that ends the path is the first of `parts`, which are kept from the last to the first.
abbrev pub without_last : List Text → List Text
without_last [] = []
without_last (p ∷ ps) = ps

abbrev pub with_part : Text → List Text → List Text
with_part part parts =
    if is_empty part || same_text part dot
    then parts
    else if same_text part dot_dot
    then without_last parts
    else part ∷ parts

unfoldable pub collect_parts : List Text → List Text → List Text
unfolding same_text
collect_parts [] parts = parts
collect_parts (part ∷ rest) parts = collect_parts rest (with_part part parts)

-- `join("/")`, of the parts from the last to the first before a text.
unfoldable pub join_parts : List Text → Text → Text
join_parts [] after = after
join_parts (p ∷ []) after = p ++ after
join_parts (p ∷ q ∷ ps) after = join_parts (q ∷ ps) (slash ∷ (p ++ after))

-- The text of the parts, with the slash of an absolute path.
abbrev pub path_of_parts : Bool → List Text → Text
path_of_parts true parts = slash ∷ join_parts parts []
path_of_parts false [] = dot
path_of_parts false (p ∷ ps) = join_parts (p ∷ ps) []

abbrev pub normalized : Text → Text
normalized path = path_of_parts (starts_with slash path) (collect_parts (split_slash path) [])

unfoldable pub normalize_remote_path : Text → PathResult Text
unfolding split_slash collect_parts join_parts validate_remote_path
normalize_remote_path path = validate_remote_path (normalized path) >>= λ _. ok (normalized path)

unfoldable pub join_remote : Text → Text → Text
unfolding same_text trim_end_matches
join_remote parent child =
    if same_text parent (slash ∷ [])
    then slash ∷ child
    else trim_end_matches slash parent ++ (slash ∷ child)

-- What follows `~/`, if the path begins so.
abbrev pub after_home : Text → Option Text
after_home [] = none
after_home (c ∷ []) = none
after_home (c ∷ d ∷ t) = if (c == 126) && d == slash then some t else none

abbrev pub candidate_of : Text → Text → Text → Option Text → Text
candidate_of current home path (some rest) = join_remote home rest
candidate_of current home path none =
    if starts_with slash path then path else join_remote current path

abbrev pub candidate : Text → Text → Text → Text
candidate current home path =
    if is_empty path || same_text path dot
    then current
    else if same_text path (126 ∷ [])
    then home
    else candidate_of current home path (after_home path)

unfoldable pub resolve_remote_path : Text → Text → Text → PathResult Text
unfolding validate_remote_path normalize_remote_path join_remote
resolve_remote_path current home path =
    validate_remote_path path >>= λ _. normalize_remote_path (candidate current home path)
