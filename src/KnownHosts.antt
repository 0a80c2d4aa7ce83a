-- ===== src/KnownHosts.antt =====
-- src/ssh/known_hosts.rs: which host names a line of the file is about, and the trust decision on a
-- key. Base64, HMAC and the keys are third-party code, so they are a parameter; a text is the list
-- of its bytes, and white space is that of ASCII.
pub mod File
pub mod Decision
pub mod Rows
pub mod RoundTrip
use ax_ssh.Prelude.{
  ℕ, Bool, true, false, not, ◌&&◌, ◌||◌, Option, none, some, List, [], ◌∷◌, ◌++◌, ◌==◌,
  if◌then◌else◌,
}
use ax_ssh.Patterns.{glob_match}
pub use ax_ssh.Prelude.Bytes.{Text, is_empty, starts_with}

-- What the code calls of the libraries.
pub record Crypto (Key : Type 0) : Type 0 where
  -- The two keys have one algorithm and are equal.
  pub same_key : Key → Key → Bool
  pub parse_public_key_base64 : Text → Option Key
  pub to_openssh : Key → Text
  pub fingerprint : Key → Text
  pub decode_base64 : Text → Option Text
  -- The HMAC of a candidate under a salt is the expected one.
  pub verify : Text → Text → Text → Bool
  -- The digits of a port.
  pub show_port : ℕ → Text

pub data TrustDecision : Type 0 where
  unknown trusted changed revoked : TrustDecision

pub record Entry (Key : Type 0) : Type 0 where
  pub hosts : Text
  pub key : Key
  pub is_revoked : Bool

unfoldable pub strip_prefix : Text → Text → Option Text
strip_prefix [] t = some t
strip_prefix (c ∷ p) [] = none
strip_prefix (c ∷ p) (d ∷ t) = if c == d then strip_prefix p t else none

unfoldable pub split_once : ℕ → Text → Option (Text × Text)
split_once c [] = none
split_once c (d ∷ t) =
    if d == c
    then some ([], t)
    else elim (split_once c t) [ none ↦ none | some (a, b) ↦ some (d ∷ a, b) ]

abbrev pub onto_first : ℕ → List Text → List Text
onto_first c [] = (c ∷ []) ∷ []
onto_first c (t ∷ ts) = (c ∷ t) ∷ ts

-- `split`, which gives one part more than there are separators.
unfoldable pub split : ℕ → Text → List Text
split c [] = [] ∷ []
split c (d ∷ t) = if d == c then [] ∷ split c t else onto_first d (split c t)

module _ {Key : Type 0} (lib : Crypto Key) where
  unfoldable pub format_host : Text → ℕ → Text
  format_host host port = if port == 22 then host else 91 ∷ (host ++ (93 ∷ 58 ∷ lib.show_port port))

  unfoldable pub host_candidates : Text → ℕ → List Text
  unfolding format_host
  host_candidates host port =
      if port == 22 then host ∷ format_host host port ∷ [] else format_host host port ∷ [] ∷ []

  -- A hashed name, after its `|1|`.
  unfoldable pub hashed_match : Text → Text → Bool
  unfolding split_once
  hashed_match rest candidate = elim (split_once 124 rest) [
    | none ↦ false
    | some (salt, digest) ↦ elim (lib.decode_base64 salt) [
      | none ↦ false
      | some key ↦ elim (lib.decode_base64 digest) [
        | none ↦ false
        | some expected ↦ lib.verify key candidate expected
      ]
    ]
  ]

  unfoldable pub name_match : Text → Text → Bool
  unfolding strip_prefix hashed_match glob_match
  name_match pattern candidate = elim (strip_prefix (124 ∷ 49 ∷ 124 ∷ []) pattern) [
    | some rest ↦ hashed_match rest candidate
    | none ↦ glob_match pattern candidate
  ]

  unfoldable pub any_candidate : Text → List Text → Bool
  unfolding name_match
  any_candidate pattern [] = false
  any_candidate pattern (c ∷ cs) =
      (not (is_empty c) && name_match pattern c) || any_candidate pattern cs

  abbrev pub without_bang : Text → Text
  without_bang [] = []
  without_bang (c ∷ t) = if c == 33 then t else c ∷ t

  unfoldable pub patterns_match : List Text → List Text → Bool → Bool
  unfolding any_candidate
  patterns_match [] cs matched = matched
  patterns_match (p ∷ ps) cs matched =
      let this_match = any_candidate (without_bang p) cs in
      if is_empty p
      then patterns_match ps cs matched
      else if starts_with 33 p && this_match
      then false
      else patterns_match ps cs (matched || this_match)

  unfoldable pub host_patterns_match : Text → List Text → Bool
  unfolding split patterns_match
  host_patterns_match patterns cs = patterns_match (split 44 patterns) cs false

  -- The first loop of `decision`: a revoked key, or whether the host was seen.
  unfoldable pub scan : List Text → Key → List (Entry Key) → Bool → Option Bool
  unfolding host_patterns_match
  scan cs key [] host_seen = some host_seen
  scan cs key (e ∷ es) host_seen =
      if not (host_patterns_match e.hosts cs)
      then scan cs key es host_seen
      else if lib.same_key e.key key && e.is_revoked
      then none
      else scan cs key es true

  unfoldable pub any_trusted : List Text → Key → List (Entry Key) → Bool
  unfolding host_patterns_match
  any_trusted cs key [] = false
  any_trusted cs key (e ∷ es) =
      (not e.is_revoked && (host_patterns_match e.hosts cs && lib.same_key e.key key))
      || any_trusted cs key es

  unfoldable pub decision : List (Entry Key) → Text → ℕ → Key → TrustDecision
  unfolding host_candidates scan any_trusted
  decision entries host port key =
      let cs = host_candidates host port in
      elim (scan cs key entries false) [
        | none ↦ revoked
        | some host_seen ↦
            (if any_trusted cs key entries then trusted else if host_seen then changed else unknown)
      ]
