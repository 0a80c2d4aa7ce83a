-- ===== src/Sftp/Paths/Normal.antt =====
-- src/sftp.rs: a normalized path is normal, and a resolved one absolute.
use ax_ssh.Prelude.{
  Bool, true, false, ◌||◌, ◌≡◌, refl, ap, sym, ◌∙◌, subst, inl, inr, Option, none, some, List, [],
  ◌∷◌, ◌++◌, append-nil, arith, Bool-cases,
}
use ax_ssh.Prelude.Bytes.{
  Text, same_text, is_empty, starts_with, any_control, trim_end_matches, before_trimmed_of,
}
use ax_ssh.Prelude.Results.{ok, err}
use ax_ssh.Sftp.Paths.{
  slash, dot, split_slash, with_part, collect_parts, join_parts, path_of_parts, normalized,
  validate_remote_path, normalize_remote_path, join_remote, after_home, candidate_of, candidate,
  resolve_remote_path, control_characters,
}
use ax_ssh.Sftp.Paths.Parts.{
  slash_free, is_name, all_names, parts-names, split_slash-name, split_slash-last,
}

abbrev rev_onto : List Text → List Text → List Text
rev_onto [] qs = qs
rev_onto (p ∷ ps) qs = rev_onto ps (p ∷ qs)

split-join_slash :
    (p : Text) (ps : List Text) (t : Text)
    → all_names (p ∷ ps) ≡ true
    → split_slash (join_parts (p ∷ ps) (slash ∷ t)) ≡ rev_onto (p ∷ ps) (split_slash t)
unfolding join_parts all_names
split-join_slash p [] t h = split_slash-name p t (ground arith)
split-join_slash p (q ∷ ps) t h =
    split-join_slash q ps (p ++ (slash ∷ t)) (ground arith)
    ∙ ap (rev_onto (q ∷ ps)) (split_slash-name p t (ground arith))

split-join :
    (p : Text) (ps : List Text)
    → all_names (p ∷ ps) ≡ true
    → split_slash (join_parts (p ∷ ps) []) ≡ rev_onto (p ∷ ps) []
unfolding join_parts all_names
split-join p [] h = ap split_slash (append-nil p) ∙ split_slash-last p (ground arith)
split-join p (q ∷ ps) h =
    split-join_slash q ps (p ++ []) (ground arith)
    ∙ ap (rev_onto (q ∷ ps)) (ap split_slash (append-nil p) ∙ split_slash-last p (ground arith))

with_part-name : (p : Text) (ps : List Text) → is_name p ≡ true → with_part p ps ≡ p ∷ ps
with_part-name p ps h = ground arith

collect-rev_onto :
    (ps qs acc : List Text)
    → all_names ps ≡ true
    → collect_parts (rev_onto ps qs) acc ≡ collect_parts qs (ps ++ acc)
unfolding collect_parts all_names
collect-rev_onto [] qs acc h = refl
collect-rev_onto (p ∷ ps) qs acc h =
    collect-rev_onto ps (p ∷ qs) acc (ground arith)
    ∙ ap (collect_parts qs) (with_part-name p (ps ++ acc) (ground arith))

collect-join :
    (ps : List Text) → all_names ps ≡ true → collect_parts (split_slash (join_parts ps [])) [] ≡ ps
unfolding join_parts split_slash collect_parts
collect-join [] h = refl
collect-join (p ∷ ps) h =
    ap (λ qs. collect_parts qs []) (split-join p ps h)
    ∙ collect-rev_onto (p ∷ ps) [] [] h
    ∙ append-nil (p ∷ ps)

-- A path of names does not begin with a slash.
join_parts-start :
    (p : Text) (ps : List Text) (after : Text)
    → all_names (p ∷ ps) ≡ true
    → starts_with slash (join_parts (p ∷ ps) after) ≡ false
unfolding join_parts all_names slash_free
join_parts-start [] [] after h = ground arith
join_parts-start (c ∷ p) [] after h = ground arith
join_parts-start p (q ∷ ps) after h = join_parts-start q ps (slash ∷ (p ++ after)) (ground arith)

path_of_parts-start :
    (absolute : Bool) (ps : List Text)
    → all_names ps ≡ true
    → starts_with slash (path_of_parts absolute ps) ≡ absolute
path_of_parts-start true ps h = refl
path_of_parts-start false [] h = refl
path_of_parts-start false (p ∷ ps) h = join_parts-start p ps [] h

collect-path_of_parts :
    (absolute : Bool) (ps : List Text)
    → all_names ps ≡ true
    → collect_parts (split_slash (path_of_parts absolute ps)) [] ≡ ps
unfolding split_slash collect_parts
collect-path_of_parts true ps h = collect-join ps h
collect-path_of_parts false [] h = refl
collect-path_of_parts false (p ∷ ps) h = collect-join (p ∷ ps) h

normalized-normal :
    (absolute : Bool) (ps : List Text)
    → all_names ps ≡ true
    → normalized (path_of_parts absolute ps) ≡ path_of_parts absolute ps
normalized-normal absolute ps h =
    ap (λ b. path_of_parts b (collect_parts (split_slash (path_of_parts absolute ps)) []))
      (path_of_parts-start absolute ps h)
    ∙ ap (path_of_parts absolute) (collect-path_of_parts absolute ps h)

-- The path is absolute or relative as said, of names only, and normalized already.
pub record IsNormal (absolute : Bool) (path : Text) : Type 0 where
  pub parts : List Text
  pub names : all_names parts ≡ true
  pub joined : path ≡ path_of_parts absolute parts
  pub kept : normalize_remote_path path ≡ ok path

normalize-ok :
    (path q : Text)
    → normalize_remote_path path ≡ ok q
    → (q ≡ normalized path) × (any_control (normalized path) ≡ false)
unfolding normalize_remote_path validate_remote_path
normalize-ok path q h = elim (Bool-cases (any_control (normalized path))) [
  | inl bad ↦ ground (arith, bad, h)
  | inr plain ↦ ground (arith, plain, h)
]

pub normalize_remote_path-IsNormal :
    (path q : Text) → normalize_remote_path path ≡ ok q → IsNormal (starts_with slash path) q
unfolding normalize_remote_path validate_remote_path
normalize_remote_path-IsNormal path q h =
    let v = normalize-ok path q h in
    let names = parts-names path in
    let again : normalized q ≡ q =
      ap normalized v.0
      ∙ normalized-normal (starts_with slash path) (collect_parts (split_slash path) []) names
      ∙ sym v.0 in
    let plain : any_control q ≡ false = ap any_control v.0 ∙ v.1 in
    record {
      parts = collect_parts (split_slash path) [];
      names = names;
      joined = v.0;
      kept = rw (again, plain) refl;
    }

trim_end_matches-start :
    (t child : Text)
    → starts_with slash t ≡ true
    → starts_with slash (trim_end_matches slash t ++ (slash ∷ child)) ≡ true
unfolding trim_end_matches
trim_end_matches-start [] child h = ground arith
trim_end_matches-start (c ∷ t) child h = start (trim_end_matches slash t)
  where
    start : (u : Text) → starts_with slash (before_trimmed_of slash c u ++ (slash ∷ child)) ≡ true
    start [] = ground arith
    start (d ∷ u) = h

join_remote-start :
    (parent child : Text)
    → starts_with slash parent ≡ true
    → starts_with slash (join_remote parent child) ≡ true
unfolding join_remote
join_remote-start parent child h = elim (Bool-cases (same_text parent (slash ∷ []))) [
  | inl root ↦ rw (root) refl
  | inr deeper ↦ rw (deeper) (trim_end_matches-start parent child h)
]

candidate_of-start :
    (current home path : Text) (rest : Option Text)
    → starts_with slash current ≡ true
    → starts_with slash home ≡ true
    → starts_with slash (candidate_of current home path rest) ≡ true
candidate_of-start current home path (some rest) h k = join_remote-start home rest k
candidate_of-start current home path none h k = elim (Bool-cases (starts_with slash path)) [
  | inl absolute ↦ rw (absolute) absolute
  | inr relative ↦ rw (relative) (join_remote-start current path h)
]

candidate-start :
    (current home path : Text)
    → starts_with slash current ≡ true
    → starts_with slash home ≡ true
    → starts_with slash (candidate current home path) ≡ true
candidate-start current home path h k = elim (Bool-cases (is_empty path || same_text path dot)) [
  | inl here ↦ rw (here) h
  | inr other ↦ elim (Bool-cases (same_text path (126 ∷ []))) [
    | inl at_home ↦ rw (other, at_home) k
    | inr away ↦ rw (other, away) (candidate_of-start current home path (after_home path) h k)
  ]
]

resolve-plain :
    (current home path : Text)
    → any_control path ≡ false
    → resolve_remote_path current home path ≡ normalize_remote_path (candidate current home path)
unfolding resolve_remote_path validate_remote_path
resolve-plain current home path h = rw (h) refl

resolve-control :
    (current home path : Text)
    → any_control path ≡ true
    → resolve_remote_path current home path ≡ err control_characters
unfolding resolve_remote_path validate_remote_path
resolve-control current home path h = rw (h) refl

-- A path that is resolved from an absolute directory and an absolute home is absolute; its parts are
-- names, so none of them is empty, `.` or `..`; and it is normalized already: normalizing it again
-- gives it back.
pub resolve_remote_path-IsNormal :
    (current home path q : Text)
    → starts_with slash current ≡ true
    → starts_with slash home ≡ true
    → resolve_remote_path current home path ≡ ok q
    → IsNormal true q
resolve_remote_path-IsNormal current home path q h k r = elim (Bool-cases (any_control path)) [
  | inl bad ↦ ground (arith, resolve-control current home path bad, r)
  | inr plain ↦
      subst (λ b. IsNormal b q) (candidate-start current home path h k)
        (normalize_remote_path-IsNormal (candidate current home path) q
          (sym (resolve-plain current home path plain) ∙ r))
]
