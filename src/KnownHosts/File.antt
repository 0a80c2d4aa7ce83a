-- ===== src/KnownHosts/File.antt =====
-- src/ssh/known_hosts.rs: the text of the file. Reading and replacing the file is I/O, so a text goes
-- in and a text comes out; an unreadable file is not modelled.
use ax_ssh.Prelude.{
  ℕ, suc, Bool, true, false, not, ◌&&◌, ◌||◌, Option, none, some, List, [], ◌∷◌, ◌++◌, ◌==◌, leb,
  ltb, if◌then◌else◌, length,
}
use ax_ssh.Prelude.Bytes.{is_space, same_text}
use ax_ssh.KnownHosts.{
  Text, Crypto, Entry, starts_with, onto_first, format_host, host_candidates, host_patterns_match,
}

abbrev pub max_file_bytes : ℕ
max_file_bytes = 4194304

abbrev pub max_lines : ℕ
max_lines = 16384

-- A byte before the lines of the text behind it, which begins with a line feed or not.
unfoldable pub line_step : ℕ → Bool → List Text → List Text
line_step c before_feed rest =
    if c == 10 then [] ∷ rest else if c == 13 && before_feed then rest else onto_first c rest

-- `str::lines`: a line ends at a line feed, or at a carriage return and a line feed.
unfoldable pub lines : Text → List Text
unfolding line_step
lines [] = []
lines (c ∷ t) = line_step c (starts_with 10 t) (lines t)

abbrev pub ends_line : Text → Bool
ends_line [] = true
ends_line (c ∷ []) = c == 10
ends_line (c ∷ d ∷ t) = ends_line (d ∷ t)

abbrev pub close : Text → List Text → List Text
close [] ws = ws
close (c ∷ w) ws = (c ∷ w) ∷ ws

-- The bytes up to the first white space, and the words after it.
unfoldable pub words : Text → Text × List Text
words [] = ([], [])
words (c ∷ t) =
    let rest = words t in if is_space c then ([], close rest.0 rest.1) else (c ∷ rest.0, rest.1)

-- `split_whitespace`.
unfoldable pub fields : Text → List Text
unfolding words
fields t = close (words t).0 (words t).1

-- `@revoked`.
abbrev pub revoked_marker : Text
revoked_marker = 64 ∷ 114 ∷ 101 ∷ 118 ∷ 111 ∷ 107 ∷ 101 ∷ 100 ∷ []

pub data Loaded (Key : Type 0) : Type 0 where
  loaded : List (Entry Key) → Loaded Key
  file_too_large too_many_lines : Loaded Key

module _ {Key : Type 0} (lib : Crypto Key) where
  abbrev pub onto : Option (Entry Key) → Loaded Key → Loaded Key
  onto none l = l
  onto (some e) (loaded es) = loaded (e ∷ es)
  onto (some e) file_too_large = file_too_large
  onto (some e) too_many_lines = too_many_lines

  -- The entry of hosts, algorithm and key, with more fields ignored.
  unfoldable pub entry_of_fields : Bool → List Text → Option (Entry Key)
  entry_of_fields marked (hosts ∷ algorithm ∷ key ∷ more) = elim (lib.parse_public_key_base64 key) [
    | none ↦ none
    | some k ↦ some (record { hosts = hosts; key = k; is_revoked = marked })
  ]
  entry_of_fields marked _ = none

  -- The body of the loop of `load_from_path`. A line that begins with `#`, past white space, is one
  -- whose first field does.
  unfoldable pub entry_of_line : List Text → Option (Entry Key)
  unfolding entry_of_fields same_text
  entry_of_line [] = none
  entry_of_line (first ∷ more) =
      if starts_with 35 first
      then none
      else if starts_with 64 first
      then (if same_text first revoked_marker then entry_of_fields true more else none)
      else entry_of_fields false (first ∷ more)

  unfoldable pub load_lines : ℕ → List Text → Loaded Key
  unfolding entry_of_line fields
  load_lines index [] = loaded []
  load_lines index (l ∷ ls) =
      let rest = load_lines (suc index) ls in
      if leb max_lines index then too_many_lines else onto (entry_of_line (fields l)) rest

  unfoldable pub load : Text → Loaded Key
  unfolding lines load_lines
  load text = if ltb max_file_bytes (length text) then file_too_large else load_lines 0 (lines text)

  abbrev pub host_line : Text → ℕ → Key → Text
  host_line host port key = format_host lib host port ++ (32 ∷ lib.to_openssh key)

  -- `append_confirmed`.
  unfoldable pub append_confirmed : Text → Text → ℕ → Key → Text
  unfolding format_host
  append_confirmed existing host port key =
      existing
      ++ ((if ends_line existing then [] else 10 ∷ []) ++ (host_line host port key ++ (10 ∷ [])))

  abbrev pub join_lines : List Text → Text
  join_lines [] = []
  join_lines (l ∷ []) = l
  join_lines (l ∷ m ∷ ls) = l ++ (10 ∷ join_lines (m ∷ ls))

  -- The lines that `replace_confirmed_openssh` keeps.
  unfoldable pub keeps_line : List Text → List Text → Bool
  unfolding host_patterns_match
  keeps_line cs [] = true
  keeps_line cs (hosts ∷ algorithm ∷ key ∷ more) =
      starts_with 64 hosts || not (host_patterns_match lib hosts cs)
  keeps_line cs _ = true

  unfoldable pub kept_lines : List Text → List Text → List Text
  unfolding keeps_line fields
  kept_lines cs [] = []
  kept_lines cs (l ∷ ls) =
      if keeps_line cs (fields l) then l ∷ kept_lines cs ls else kept_lines cs ls

  -- `replace_confirmed_openssh`, with the key parsed.
  unfoldable pub replace_confirmed : Text → Text → ℕ → Key → Text
  unfolding lines kept_lines host_candidates
  replace_confirmed text host port key =
      elim (kept_lines (host_candidates lib host port) (lines text)) [
        | [] ↦ host_line host port key ++ (10 ∷ [])
        | l ∷ ls ↦ (join_lines (l ∷ ls) ++ (10 ∷ [])) ++ (host_line host port key ++ (10 ∷ []))
      ]

  -- Whether `remove_key` drops a line with these fields, past its marker.
  unfoldable pub is_key_line : List Text → Text → List Text → Bool
  unfolding host_patterns_match same_text
  is_key_line cs print (hosts ∷ algorithm ∷ key ∷ more) =
      host_patterns_match lib hosts cs && elim (lib.parse_public_key_base64 key) [
        | none ↦ false
        | some k ↦ same_text (lib.fingerprint k) print
      ]
  is_key_line cs print _ = false

  unfoldable pub removes_line : List Text → Text → List Text → Bool
  unfolding is_key_line
  removes_line cs print [] = false
  removes_line cs print (first ∷ more) =
      if starts_with 64 first
      then is_key_line cs print more
      else is_key_line cs print (first ∷ more)

  unfoldable pub lines_without_key : List Text → Text → List Text → List Text
  unfolding removes_line fields
  lines_without_key cs print [] = []
  lines_without_key cs print (l ∷ ls) =
      if removes_line cs print (fields l)
      then lines_without_key cs print ls
      else l ∷ lines_without_key cs print ls

  -- The text to write, and whether a line was dropped.
  unfoldable pub remove_key : Text → Text → ℕ → Text → Text × Bool
  unfolding lines lines_without_key host_candidates
  remove_key text host port print =
      let all = lines text in
      let kept = lines_without_key (host_candidates lib host port) print all in
      if length kept == length all then (text, false) else (join_lines kept ++ (10 ∷ []), true)
