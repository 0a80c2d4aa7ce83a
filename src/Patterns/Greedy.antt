-- ===== src/Patterns/Greedy.antt =====
-- The loop of the two matchers only ever returns to the last star: why that is enough.
use ax_ssh.Prelude.{
  ℕ, ◌≤◌, Bool, true, false, ◌≡◌, ◌≢◌, ◌↔◌, refl, inl, inr, List, [], ◌∷◌, ◌==◌, length, arith,
  Bool-cases,
}
use ax_ssh.Patterns.Glob.{star, only_stars}
use ax_ssh.Patterns.Matches.{Matches, done, takes, star_ends, star_takes}

pub data Suffix (xs : List ℕ) : List ℕ → Type 0 where
  whole : Suffix xs xs
  more : {v : ℕ} {vs : List ℕ} → Suffix xs vs → Suffix xs (v ∷ vs)

suffix_tail : {a : ℕ} {xs vs : List ℕ} → Suffix (a ∷ xs) vs → Suffix xs vs
suffix_tail whole = more whole
suffix_tail (more s) = more (suffix_tail s)

suffix_under : {a v : ℕ} {xs vs : List ℕ} → Suffix (a ∷ xs) (v ∷ vs) → Suffix xs vs
suffix_under whole = whole
suffix_under (more s) = suffix_tail s

module _ (eats : ℕ → ℕ → Bool) where
  -- From the first pair of rests to the second by bytes that are no star.
  pub data Run : List ℕ → List ℕ → List ℕ → List ℕ → Type 0 where
    here : {ps vs : List ℕ} → Run ps vs ps vs
    byte :
        {c v : ℕ} {qs ws ps vs : List ℕ}
        → c ≢ star
        → eats c v ≡ true
        → Run qs ws ps vs
        → Run (c ∷ qs) (v ∷ ws) ps vs

  pub Run-snoc :
      {c v : ℕ} {qs ws ps vs : List ℕ}
      → Run qs ws (c ∷ ps) (v ∷ vs)
      → c ≢ star
      → eats c v ≡ true
      → Run qs ws ps vs
  Run-snoc here n e = byte n e here
  Run-snoc (byte m f r) n e = byte m f (Run-snoc r n e)

  pub star_over :
      {c : ℕ} {ps xs vs : List ℕ}
      → c ≡ star
      → Suffix xs vs
      → Matches eats (c ∷ ps) xs
      → Matches eats (c ∷ ps) vs
  star_over e whole m = m
  star_over e (more s) m = star_takes e (star_over e s m)

  -- No byte of the text is taken by a star of the pattern.
  abbrev pub Plain : List ℕ → Type 0
  Plain [] = Unit
  Plain (v ∷ vs) = (eats star v ≡ false) × Plain vs

  star_byte : {c v : ℕ} → c ≡ star → eats star v ≡ false → eats c v ≡ true → ⊥
  star_byte e p t = cc

  pub star_split :
      {c : ℕ} {ps vs : List ℕ}
      → c ≡ star
      → Plain vs
      → Matches eats (c ∷ ps) vs
      → (xs : List ℕ) × Suffix xs vs × Matches eats ps xs
  star_split e plain (takes t m) = absurd (star_byte e plain.0 t)
  star_split {vs = vs} e plain (star_ends f m) = (vs, whole, m)
  star_split e plain (star_takes f m) =
      let found = star_split f plain.1 m in (found.0, more found.1, found.2)

  pub star_join :
      {c : ℕ} {ps xs vs : List ℕ}
      → c ≡ star
      → Suffix xs vs
      → Matches eats ps xs
      → Matches eats (c ∷ ps) vs
  star_join e s m = star_over e s (star_ends e m)

  -- A rest of the text that the pattern after the last star matches leaves, past the bytes taken
  -- since, a rest that the rest of the pattern matches.
  pub Run-rest :
      {qs ws ps vs xs : List ℕ}
      → Run qs ws ps vs
      → Suffix xs ws
      → Matches eats qs xs
      → (ys : List ℕ) × Suffix ys vs × Matches eats ps ys
  Run-rest {xs = xs} here s m = (xs, s, m)
  Run-rest (byte n e r) s (takes t m) = Run-rest r (suffix_under s) m
  Run-rest (byte n e r) s (star_ends f m) = absurd (n f)
  Run-rest (byte n e r) s (star_takes f m) = absurd (n f)

  pub length-Run : {qs ws ps vs : List ℕ} → Run qs ws ps vs → length vs ≤ length ws
  length-Run here = omega arith
  length-Run (byte n e r) = omega (arith, length-Run r)

  stars_only : {c : ℕ} {ps : List ℕ} → Matches eats (c ∷ ps) [] → (c ≡ star) × Matches eats ps []
  stars_only (star_ends f m) = (f, m)

  pub only_stars_iff : (ps : List ℕ) → (only_stars ps ≡ true) ↔ Matches eats ps []
  unfolding only_stars
  only_stars_iff [] = ((λ h. done), (λ h. refl))
  only_stars_iff (c ∷ ps) = elim (Bool-cases (c == star)) [
    | inl same ↦ (
      (λ h. star_ends (ground arith) ((only_stars_iff ps).0 (ground arith))),
      (λ m. let rest = (only_stars_iff ps).1 (stars_only m).1 in ground arith),
    )
    | inr other ↦
        ((λ h. absurd (ground arith)), (λ m. let same = (stars_only m).0 in absurd (ground arith)))
  ]
