-- ===== src/KnownHosts/RoundTrip.antt =====
-- src/ssh/known_hosts.rs: a key that is appended to the file is trusted when the file is read again.
use ax_ssh.Prelude.{
  ℕ, suc, ◌+◌, ◌≤◌, ◌<◌, true, false, ◌≡◌, ◌≢◌, refl, ap, sym, ◌∙◌, inl, inr, Option, some, none,
  leb, List, [], ◌∷◌, ◌++◌, ◌==◌, if◌then◌else◌, arith, Bool-cases, append_assoc, length,
}
use ax_ssh.Patterns.Matches.{Describes, nothing, one_byte}
use ax_ssh.Patterns.Correct.{glob_match_iff, NoStar, StandsForHost}
use ax_ssh.KnownHosts.{
  Text, Crypto, Entry, trusted, revoked, split, format_host, host_candidates, host_patterns_match,
  patterns_match, any_candidate, name_match, strip_prefix, decision,
}
use ax_ssh.KnownHosts.File.{
  Loaded, file_too_large, too_many_lines, lines, ends_line, fields, max_lines, max_file_bytes,
  loaded, load, load_lines, entry_of_line, entry_of_fields, append_confirmed, host_line, onto,
}
use ax_ssh.KnownHosts.Decision.{any_entry, names, revokes, trusts, decision_any, any_entry-append}
use ax_ssh.KnownHosts.Rows.{
  last_is_cr, lines-append, lines-feed, ends_line-feed, Solid, OneLine, lines_one, Solid-OneLine,
  OneLine-append, fields_three,
}

-- A name that the file can hold as it is: it begins with none of `#`, `@`, `!` and `|`, and has no
-- white space, comma or star.
abbrev pub NameBytes : Text → Type 0
NameBytes [] = Unit
NameBytes (c ∷ t) = ((c == 44) ≡ false) × ((c == 42) ≡ false) × NameBytes t

pub record IsHostName (c : ℕ) (t : Text) : Type 0 where
  pub solid : Solid (c ∷ t)
  pub bytes : NameBytes (c ∷ t)
  pub no_comment : (c == 35) ≡ false
  pub no_marker : (c == 64) ≡ false
  pub no_negation : (c == 33) ≡ false
  pub no_hash : (c == 124) ≡ false

NameBytes-NoStar : (t : Text) → NameBytes t → NoStar t
NameBytes-NoStar [] h = tt
NameBytes-NoStar (c ∷ t) h = (let n = h.1 in λ e. ground arith, NameBytes-NoStar t h.2)

Describes-self : (t : Text) → Describes StandsForHost t t
Describes-self [] = nothing
Describes-self (c ∷ t) = one_byte (inl refl) (Describes-self t)

split_one : (t : Text) → NameBytes t → split 44 t ≡ t ∷ []
unfolding split
split_one [] h = refl
split_one (c ∷ t) h = ground (arith, split_one t h.2)

module _ {Key : Type 0} (lib : Crypto Key) where
  abbrev add : Option (Entry Key) → List (Entry Key) → List (Entry Key)
  add none es = es
  add (some e) es = e ∷ es

  onto_inv :
      (o : Option (Entry Key)) (l : Loaded Key) (es : List (Entry Key))
      → onto lib o l ≡ loaded es
      → (rest : List (Entry Key)) × (l ≡ loaded rest) × (es ≡ add o rest)
  onto_inv none (loaded rest) es h = (rest, refl, ground arith)
  onto_inv none file_too_large es h = absurd (ground arith)
  onto_inv none too_many_lines es h = absurd (ground arith)
  onto_inv (some e) (loaded rest) es h = (rest, refl, ground arith)
  onto_inv (some e) file_too_large es h = absurd (ground arith)
  onto_inv (some e) too_many_lines es h = absurd (ground arith)

  add-append :
      (o : Option (Entry Key)) (es fs : List (Entry Key))
      → onto lib o (loaded (es ++ fs)) ≡ loaded (add o es ++ fs)
  add-append none es fs = refl
  add-append (some e) es fs = refl

  load_lines-append :
      (i : ℕ) (ls ms : List Text) (es fs : List (Entry Key))
      → load_lines lib i ls ≡ loaded es
      → load_lines lib (i + length ls) ms ≡ loaded fs
      → load_lines lib i (ls ++ ms) ≡ loaded (es ++ fs)
  unfolding load_lines
  load_lines-append i [] ms es fs h k = ground arith
  load_lines-append i (l ∷ ls) ms es fs h k = elim (Bool-cases (leb max_lines i)) [
    | inl past ↦ absurd (ground arith)
    | inr fits ↦
        (let inv =
            onto_inv (entry_of_line lib (fields l)) (load_lines lib (suc i) ls) es (ground arith) in
          let rest = load_lines-append (suc i) ls ms inv.0 fs inv.1 (ground arith) in
          rw (fits, rest, inv.2) (add-append (entry_of_line lib (fields l)) inv.0 fs))
  ]

  name_match_self : (c : ℕ) (t : Text) → IsHostName c t → name_match lib (c ∷ t) (c ∷ t) ≡ true
  unfolding name_match strip_prefix
  name_match_self c t h =
      let same =
        (glob_match_iff (c ∷ t) (c ∷ t) (NameBytes-NoStar (c ∷ t) h.bytes)).1.1
          (Describes-self (c ∷ t)) in
      ground (arith, h.no_hash)

  host_match_self :
      (c : ℕ) (t : Text) (cs : List Text)
      → IsHostName c t
      → host_patterns_match lib (c ∷ t) ((c ∷ t) ∷ cs) ≡ true
  unfolding host_patterns_match patterns_match any_candidate
  host_match_self c t cs h =
      ground (arith, name_match_self c t h, split_one (c ∷ t) h.bytes, h.no_negation)

  candidates_first :
      (host : Text) (port : ℕ)
      → host_candidates lib host port
        ≡ format_host lib host port ∷ ((if port == 22 then format_host lib host port else []) ∷ [])
  unfolding host_candidates format_host
  candidates_first host port = ground arith

  names_self :
      (host : Text) (port c : ℕ) (t : Text) (e : Entry Key)
      → IsHostName c t
      → format_host lib host port ≡ c ∷ t
      → e.hosts ≡ c ∷ t
      → names lib host port e ≡ true
  names_self host port c t e h f g = rw (g, candidates_first host port, f) (host_match_self c t _ h)

  -- The lines of the file, and then the new one.
  lines-append_confirmed :
      (existing : Text) (host : Text) (port : ℕ) (key : Key)
      → last_is_cr existing ≡ false
      → OneLine (host_line lib host port key)
      → lines (append_confirmed lib existing host port key)
        ≡ lines existing ++ (host_line lib host port key ∷ [])
  unfolding append_confirmed
  lines-append_confirmed existing host port key cr one = elim (Bool-cases (ends_line existing)) [
    | inl closed ↦ rw (closed) (
        lines-append existing (host_line lib host port key ++ (10 ∷ [])) closed
        ∙ ap (λ u. lines existing ++ u) (lines_one (host_line lib host port key) one))
    | inr left ↦ rw (left) (
        ap lines (sym (append_assoc existing (10 ∷ []) (host_line lib host port key ++ (10 ∷ []))))
        ∙ lines-append (existing ++ (10 ∷ [])) (host_line lib host port key ++ (10 ∷ []))
            (ends_line-feed existing)
        ∙ ap (λ ls. ls ++ lines (host_line lib host port key ++ (10 ∷ [])))
            (lines-feed existing left cr)
        ∙ ap (λ u. lines existing ++ u) (lines_one (host_line lib host port key) one))
  ]

  -- A key whose printed form is an algorithm and a word that reads back as the key.
  pub record IsPrinted (key : Key) (a : ℕ) (u : Text) (b : ℕ) (v : Text) : Type 0 where
    pub printed : lib.to_openssh key ≡ (a ∷ u) ++ (32 ∷ (b ∷ v))
    pub solid_algorithm : Solid (a ∷ u)
    pub solid_key : Solid (b ∷ v)
    pub reads_back : lib.parse_public_key_base64 (b ∷ v) ≡ some key
    pub same : lib.same_key key key ≡ true

  abbrev new_entry : ℕ → Text → Key → Entry Key
  new_entry c t key = record { hosts = c ∷ t; key = key; is_revoked = false }

  entry_of_host_line :
      (host : Text) (port : ℕ) (key : Key) (c : ℕ) (t : Text) (a : ℕ) (u : Text) (b : ℕ) (v : Text)
      → format_host lib host port ≡ c ∷ t
      → IsHostName c t
      → IsPrinted key a u b v
      → (entry_of_line lib (fields (host_line lib host port key)) ≡ some (new_entry c t key))
        × OneLine (host_line lib host port key)
  unfolding entry_of_line entry_of_fields
  entry_of_host_line host port key c t a u b v f h k =
      rw (f, k.printed)
        (
          rw (fields_three c a b t u v h.solid k.solid_algorithm k.solid_key)
              (ground (arith, h.no_comment, h.no_marker, k.reads_back)),
          OneLine-append (c ∷ t) (32 ∷ ((a ∷ u) ++ (32 ∷ (b ∷ v)))) (Solid-OneLine (c ∷ t) h.solid)
              (
                refl,
                refl,
                OneLine-append (a ∷ u) (32 ∷ (b ∷ v)) (Solid-OneLine (a ∷ u) k.solid_algorithm)
                    (refl, refl, Solid-OneLine (b ∷ v) k.solid_key),
              ),
        )

  new_entry-trusted :
      (host : Text) (port : ℕ) (key : Key) (c : ℕ) (t : Text) (es : List (Entry Key))
      → format_host lib host port ≡ c ∷ t
      → IsHostName c t
      → lib.same_key key key ≡ true
      → decision lib es host port key ≢ revoked
      → decision lib (es ++ (new_entry c t key ∷ [])) host port key ≡ trusted
  new_entry-trusted host port key c t es f h same n =
      let named = names_self host port c t (new_entry c t key) h f refl in
      unfold any_entry in
      ground (
        arith,
        decision_any lib host port key (es ++ (new_entry c t key ∷ [])),
        decision_any lib host port key es,
        any_entry-append lib (revokes lib host port key) es (new_entry c t key ∷ []),
        any_entry-append lib (trusts lib host port key) es (new_entry c t key ∷ []),
      )

  load_new :
      (existing line : Text) (es : List (Entry Key)) (e : Entry Key)
      → load lib existing ≡ loaded es
      → entry_of_line lib (fields line) ≡ some e
      → length (lines existing) < max_lines
      → load_lines lib 0 (lines existing ++ (line ∷ [])) ≡ loaded (es ++ (e ∷ []))
  load_new existing line es e h k small =
      load_lines-append 0 (lines existing) (line ∷ []) es (e ∷ []) (unfold load in ground arith)
        (unfold load_lines in ground (arith, k))

  -- A key that the user has confirmed and that is appended to the file is in it, after the entries
  -- that were there, when the file is read again, and is trusted for the host, unless a line of the
  -- file revokes it. The file must stay within its limits of bytes and lines and not end in a lone
  -- carriage return, and the host be a name that the file can hold as it is.
  pub append_confirmed-trusted :
      (existing host : Text) (port : ℕ) (key : Key) (es : List (Entry Key)) (c : ℕ) (t : Text)
      (a : ℕ) (u : Text) (b : ℕ) (v : Text)
      → load lib existing ≡ loaded es
      → last_is_cr existing ≡ false
      → length (lines existing) < max_lines
      → length (append_confirmed lib existing host port key) ≤ max_file_bytes
      → format_host lib host port ≡ c ∷ t
      → IsHostName c t
      → IsPrinted key a u b v
      → decision lib es host port key ≢ revoked
      → (fs : List (Entry Key)) × (load lib (append_confirmed lib existing host port key)
          ≡ loaded (es ++ fs))
        × (decision lib (es ++ fs) host port key ≡ trusted)
  append_confirmed-trusted existing host port key es c t a u b v h cr few small f name k n =
      let line = entry_of_host_line host port key c t a u b v f name k in
      let all =
        load_new existing (host_line lib host port key) es (new_entry c t key) h line.0 few in
      let cut = lines-append_confirmed existing host port key cr line.1 in
      (
        new_entry c t key ∷ [],
        unfold load in ground (arith, ap (load_lines lib 0) cut),
        new_entry-trusted host port key c t es f name k.same n,
      )
