-- ===== src/Tests/Hosts.antt =====
-- The matchers of patterns, and host keys, on concrete input.
use ax_ssh.Prelude.{
  ◌≡◌, ◌↔◌, refl, true, false, List, [], ◌∷◌, ◌++◌, ◌==◌, Option, some, none, ℕ, arith,
}
use ax_ssh.KnownHosts.{
  Text, Crypto, Entry, trusted, changed, revoked, unknown, decision, format_host,
}
use ax_ssh.KnownHosts.File.{load, loaded, append_confirmed, lines}
use mathlib.Core.List.Memᴰ.{head, tail}
use ax_ssh.KnownHosts.Decision.{
  any_entry, revokes, trusts, names, decision_iff, SameLines, decision-SameLines,
}
use ax_ssh.KnownHosts.RoundTrip.{append_confirmed-trusted}
use ax_ssh.Patterns.{wildcard_run, wildcard_matches, glob_run, glob_match}
use ax_ssh.Patterns.Matches.{Describes}
use ax_ssh.Patterns.Correct.{StandsForItself, StandsForHost, wildcard_matches_iff, glob_match_iff}

-- `*.ab`, with two tries for the dot.
abbrev pattern_ab : List ℕ
pattern_ab = 42 ∷ 46 ∷ 97 ∷ 98 ∷ []

abbrev name_ab : List ℕ
name_ab = 120 ∷ 46 ∷ 97 ∷ 46 ∷ 97 ∷ 98 ∷ []

wildcard_ab : wildcard_matches pattern_ab name_ab ≡ true
unfolding wildcard_matches
wildcard_ab = refl

wildcard_matches_iff_example :
    (wildcard_run pattern_ab name_ab ≡ some (wildcard_matches pattern_ab name_ab))
    × ((wildcard_matches pattern_ab name_ab ≡ true) ↔ Describes StandsForItself pattern_ab name_ab)
wildcard_matches_iff_example = wildcard_matches_iff pattern_ab name_ab

glob_match_iff_example :
    (glob_run pattern_ab name_ab ≡ some (glob_match pattern_ab name_ab))
    × ((glob_match pattern_ab name_ab ≡ true) ↔ Describes StandsForHost pattern_ab name_ab)
glob_match_iff_example = glob_match_iff pattern_ab name_ab (
  (λ e. omega arith),
  (
    (λ e. omega arith),
    ((λ e. omega arith), ((λ e. omega arith), ((λ e. omega arith), ((λ e. omega arith), tt)))),
  ),
)

-- A `*` in the text takes the `*` of the pattern, which then is no wildcard: `*a` and `*ba`.
glob_match_literal_star : glob_match (42 ∷ 97 ∷ []) (42 ∷ 98 ∷ 97 ∷ []) ≡ false
unfolding glob_match
glob_match_literal_star = refl

-- Keys are single bytes, printed with the algorithm `a`.
abbrev letters : Crypto ℕ
letters = record {
  same_key = λ k l. k == l;
  parse_public_key_base64 = letter_key;
  to_openssh = λ k. 97 ∷ 32 ∷ k ∷ [];
  fingerprint = λ k. k ∷ [];
  decode_base64 = λ t. some t;
  verify = λ salt candidate expected. false;
  show_port = λ p. p ∷ [];
}
  where
    letter_key : Text → Option ℕ
    letter_key [] = none
    letter_key (k ∷ t) = some k

-- `*.x,!b.x a Q`, and `@revoked * a R`.
abbrev entries : List (Entry ℕ)
entries =
    record { hosts = 42 ∷ 46 ∷ 120 ∷ 44 ∷ 33 ∷ 98 ∷ 46 ∷ 120 ∷ []; key = 81; is_revoked = false }
    ∷ record { hosts = 42 ∷ []; key = 82; is_revoked = true }
    ∷ []

abbrev host_a : Text
host_a = 97 ∷ 46 ∷ 120 ∷ []

abbrev host_b : Text
host_b = 98 ∷ 46 ∷ 120 ∷ []

decision_trusted : decision letters entries host_a 22 81 ≡ trusted
unfolding decision
decision_trusted = refl

decision_negated : decision letters entries host_b 22 81 ≡ changed
unfolding decision
decision_negated = refl

decision_iff_example :
    ((decision letters entries host_a 22 82 ≡ revoked)
      ↔ (any_entry letters (revokes letters host_a 22 82) entries ≡ true))
    × ((decision letters entries host_a 22 82 ≡ trusted) ↔ (
        (any_entry letters (revokes letters host_a 22 82) entries ≡ false)
        × (any_entry letters (trusts letters host_a 22 82) entries ≡ true)))
    × ((decision letters entries host_a 22 82 ≡ unknown)
        ↔ (any_entry letters (names letters host_a 22) entries ≡ false))
decision_iff_example = decision_iff letters entries host_a 22 82

abbrev any_host : Entry ℕ
any_host = record { hosts = 42 ∷ []; key = 82; is_revoked = true }

abbrev one_host : Entry ℕ
one_host = record { hosts = 97 ∷ 46 ∷ 120 ∷ []; key = 81; is_revoked = false }

-- The lines the other way round, and one of them twice.
same-lines : SameLines letters (one_host ∷ any_host ∷ []) (any_host ∷ one_host ∷ any_host ∷ [])
same-lines e = (
  (λ m. elim m [ head h ↦ tail (head h) | tail (head h) ↦ head h | tail (tail n) ↦ elim n [ ] ]),
  (λ m. elim m [
    | head h ↦ tail (head h)
    | tail (head h) ↦ head h
    | tail (tail (head h)) ↦ tail (head h)
    | tail (tail (tail n)) ↦ elim n [ ]
  ]),
)

decision-SameLines_example :
    decision letters (one_host ∷ any_host ∷ []) host_a 22 81
    ≡ decision letters (any_host ∷ one_host ∷ any_host ∷ []) host_a 22 81
decision-SameLines_example =
    decision-SameLines letters (one_host ∷ any_host ∷ []) (any_host ∷ one_host ∷ any_host ∷ [])
      host_a 22 81 same-lines

-- `# x`, with no line feed at its end.
abbrev existing_text : Text
existing_text = 35 ∷ 32 ∷ 120 ∷ []

load-existing : load letters existing_text ≡ loaded []
unfolding load
load-existing = refl

abbrev no_entries : List (Entry ℕ)
no_entries = []

append_confirmed-trusted_example :
    (fs : List (Entry ℕ)) × (load letters (append_confirmed letters existing_text host_a 22 81)
      ≡ loaded (no_entries ++ fs))
    × (decision letters (no_entries ++ fs) host_a 22 81 ≡ trusted)
unfolding lines append_confirmed format_host decision
append_confirmed-trusted_example =
    append_confirmed-trusted letters existing_text host_a 22 81 no_entries 97 (46 ∷ 120 ∷ []) 97 []
      81 [] load-existing refl (omega arith) (omega arith) refl
      (record {
        solid = (refl, (refl, (refl, tt)));
        bytes = (refl, refl, (refl, refl, (refl, refl, tt)));
        no_comment = refl;
        no_marker = refl;
        no_negation = refl;
        no_hash = refl;
      })
      (record {
        printed = refl;
        solid_algorithm = (refl, tt);
        solid_key = (refl, tt);
        reads_back = refl;
        same = refl;
      })
      (λ e. ground arith)
