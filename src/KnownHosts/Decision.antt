-- ===== src/KnownHosts/Decision.antt =====
-- src/ssh/known_hosts.rs, `Snapshot::decision`: what each decision means.
use ax_ssh.Prelude.{
  ℕ, Bool, true, false, not, ◌&&◌, ◌||◌, ◌≡◌, ◌↔◌, refl, ap, sym, ◌∙◌, inl, inr, Bool-cases, none,
  some, List, [], ◌∷◌, ◌++◌, if◌then◌else◌, arith,
}
use mathlib.Core.List.{Memᴰ}
use mathlib.Core.List.Memᴰ.{head, tail}
use ax_ssh.KnownHosts.{
  Text, Crypto, unknown, trusted, changed, revoked, Entry, host_candidates, host_patterns_match,
  scan, any_trusted, decision,
}

module _ {Key : Type 0} (lib : Crypto Key) where
  -- The line is about the host.
  abbrev pub names : Text → ℕ → Entry Key → Bool
  names host port e = host_patterns_match lib e.hosts (host_candidates lib host port)

  -- The line is about the host, and holds the key.
  abbrev pub holds_key : Text → ℕ → Key → Entry Key → Bool
  holds_key host port key e = names host port e && lib.same_key e.key key

  unfoldable pub any_entry : (Entry Key → Bool) → List (Entry Key) → Bool
  any_entry p [] = false
  any_entry p (e ∷ es) = p e || any_entry p es

  abbrev pub revokes : Text → ℕ → Key → Entry Key → Bool
  revokes host port key e = holds_key host port key e && e.is_revoked

  abbrev pub trusts : Text → ℕ → Key → Entry Key → Bool
  trusts host port key e = holds_key host port key e && not e.is_revoked

  scan_any :
      (host : Text) (port : ℕ) (key : Key) (es : List (Entry Key)) (seen : Bool)
      → scan lib (host_candidates lib host port) key es seen ≡ (
          if any_entry (revokes host port key) es
          then none
          else some (seen || any_entry (names host port) es))
  unfolding scan any_entry
  scan_any host port key [] seen = ground arith
  scan_any host port key (e ∷ es) seen =
      ground (arith, scan_any host port key es seen, scan_any host port key es true)

  any_trusted_any :
      (host : Text) (port : ℕ) (key : Key) (es : List (Entry Key))
      → any_trusted lib (host_candidates lib host port) key es ≡ any_entry (trusts host port key) es
  unfolding any_trusted any_entry
  any_trusted_any host port key [] = refl
  any_trusted_any host port key (e ∷ es) = ground (arith, any_trusted_any host port key es)

  pub decision_any :
      (host : Text) (port : ℕ) (key : Key) (es : List (Entry Key))
      → decision lib es host port key ≡ (
          if any_entry (revokes host port key) es
          then revoked
          else if any_entry (trusts host port key) es
          then trusted
          else if any_entry (names host port) es
          then changed
          else unknown)
  unfolding decision
  decision_any host port key es =
      ground (arith, scan_any host port key es false, any_trusted_any host port key es)

  unnamed :
      (host : Text) (port : ℕ) (key : Key) (es : List (Entry Key))
      → any_entry (names host port) es ≡ false
      → (any_entry (revokes host port key) es ≡ false)
        × (any_entry (trusts host port key) es ≡ false)
  unfolding any_entry
  unnamed host port key [] h = (refl, refl)
  unnamed host port key (e ∷ es) h = ground (arith, unnamed host port key es)

  -- Any line that revokes a key makes it revoked, whatever the other lines say. Otherwise the key is
  -- trusted exactly if some line of the host holds it, and a host that no line is about is unknown.
  pub decision_iff :
      (es : List (Entry Key)) (host : Text) (port : ℕ) (key : Key)
      → ((decision lib es host port key ≡ revoked) ↔ (any_entry (revokes host port key) es ≡ true))
        × ((decision lib es host port key ≡ trusted) ↔ (
            (any_entry (revokes host port key) es ≡ false)
            × (any_entry (trusts host port key) es ≡ true)))
        × ((decision lib es host port key ≡ unknown) ↔ (any_entry (names host port) es ≡ false))
  decision_iff es host port key =
      let same = decision_any host port key es in
      let none_left = unnamed host port key es in
      (
        ((λ h. ground arith), (λ h. ground arith)),
        ((λ h. ground arith), (λ h. ground arith)),
        ((λ h. ground arith), (λ h. ground arith)),
      )

  pub any_entry-append :
      (p : Entry Key → Bool) (es fs : List (Entry Key))
      → any_entry p (es ++ fs) ≡ (any_entry p es || any_entry p fs)
  unfolding any_entry
  any_entry-append p [] fs = refl
  any_entry-append p (e ∷ es) fs = ground (arith, any_entry-append p es fs)

  any_entry-Mem :
      (p : Entry Key → Bool) (es : List (Entry Key))
      → any_entry p es ≡ true
      → (e : Entry Key) × Memᴰ e es × (p e ≡ true)
  unfolding any_entry
  any_entry-Mem p [] h = ground arith
  any_entry-Mem p (e ∷ es) h = elim (Bool-cases (p e)) [
    | inl here ↦ (e, head refl, here)
    | inr past ↦
        (let found = any_entry-Mem p es (ground (arith, past, h)) in
          (found.0, tail found.1, found.2))
  ]

  Mem-any_entry :
      (p : Entry Key → Bool) (e : Entry Key) (es : List (Entry Key))
      → Memᴰ e es
      → p e ≡ true
      → any_entry p es ≡ true
  unfolding any_entry
  Mem-any_entry p e [] m h = elim m [ ]
  Mem-any_entry p e (f ∷ es) (head same) h = let here = ap p (sym same) ∙ h in ground (arith, here)
  Mem-any_entry p e (f ∷ es) (tail m) h = ground (arith, Mem-any_entry p e es m h)

  -- Two files hold the same lines, in any order and each any number of times.
  abbrev pub SameLines : List (Entry Key) → List (Entry Key) → Type 0
  SameLines es fs = (e : Entry Key) → Memᴰ e es ↔ Memᴰ e fs

  any_entry-SameLines :
      (p : Entry Key → Bool) (es fs : List (Entry Key))
      → SameLines es fs
      → any_entry p es ≡ any_entry p fs
  any_entry-SameLines p es fs same = elim (Bool-cases (any_entry p es)) [
    | inl h ↦
        (let found = any_entry-Mem p es h in
          h ∙ sym (Mem-any_entry p found.0 fs ((same found.0).0 found.1) found.2))
    | inr h ↦ elim (Bool-cases (any_entry p fs)) [
      | inl k ↦
          (let found = any_entry-Mem p fs k in
            Mem-any_entry p found.0 es ((same found.0).1 found.1) found.2 ∙ sym k)
      | inr k ↦ h ∙ sym k
    ]
  ]

  -- Neither the order of the lines of the file nor how often a line is repeated matters: two files with
  -- the same lines give the same decision on every host and key.
  pub decision-SameLines :
      (es fs : List (Entry Key)) (host : Text) (port : ℕ) (key : Key)
      → SameLines es fs
      → decision lib es host port key ≡ decision lib fs host port key
  decision-SameLines es fs host port key same = ground (
    arith,
    decision_any host port key es,
    decision_any host port key fs,
    any_entry-SameLines (revokes host port key) es fs same,
    any_entry-SameLines (trusts host port key) es fs same,
    any_entry-SameLines (names host port) es fs same,
  )
