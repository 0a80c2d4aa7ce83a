-- ===== src/Patterns/Sound.antt =====
-- Each turn of the loop keeps what is left to find, and there are turns enough.
use ax_ssh.Prelude.{
  ℕ, suc, ◌+◌, ◌≤◌, ◌<◌, Bool, true, ◌≡◌, ◌≢◌, ◌↔◌, inl, inr, ◌⊎◌, List, [], ◌∷◌, some, none,
  length, drop, arith, length-drop,
}
use ax_ssh.Patterns.Glob.{star, only_stars, Star, Turn, answer, next, backtrack}
use ax_ssh.Patterns.Matches.{Matches, takes, star_ends, star_takes}
use ax_ssh.Patterns.Greedy.{
  Suffix, whole, more, Run, here, Run-snoc, star_over, star_split, star_join, Run-rest, length-Run,
  only_stars_iff, Plain,
}

module _ (eats : ℕ → ℕ → Bool) where
  -- A rest of the text that the pattern matches.
  abbrev pub Rest : List ℕ → List ℕ → Type 0
  Rest qs ws = (xs : List ℕ) × Suffix xs ws × Matches eats qs xs

  -- What the loop still looks for.
  abbrev pub Remains : List ℕ → List ℕ → Star → Type 0
  Remains ps vs none = Matches eats ps vs
  Remains ps vs (some (qs, ws)) = Matches eats ps vs ⊎ Rest qs (drop 1 ws)

  abbrev pub Fits : List ℕ → List ℕ → Star → Type 0
  Fits ps vs none = Unit
  Fits ps vs (some (qs, ws)) = Run eats qs ws ps vs × Plain eats ws

  abbrev pub rank : ℕ → Star → ℕ
  rank bound none = suc bound
  rank bound (some (qs, ws)) = length ws

  abbrev pub Bounded : ℕ → Star → Type 0
  Bounded bound none = Unit
  Bounded bound (some (qs, ws)) = length qs + length ws ≤ bound

  pub record Good (bound : ℕ) (ps vs : List ℕ) (last : Star) : Type 0 where
    pub plain : Plain eats vs
    pub small : length ps + length vs ≤ bound
    pub fits : Fits ps vs last
    pub bounded : Bounded bound last

  -- A turn shortens what is left, or returns to a shorter text at the last star.
  abbrev pub Falls : ℕ → List ℕ → List ℕ → Star → List ℕ → List ℕ → Star → Type 0
  Falls bound ps vs last ps' vs' last' =
      ((rank bound last' ≤ rank bound last) × (length ps' + length vs' < length ps + length vs))
      ⊎ (rank bound last' < rank bound last)

  pub data Sound (bound : ℕ) (ps vs : List ℕ) (last : Star) : Turn → Type 0 where
    ends : {b : Bool} → (b ≡ true) ↔ Remains ps vs last → Sound bound ps vs last (answer b)
    goes_on :
        {ps' vs' : List ℕ} {last' : Star}
        → Good bound ps' vs' last'
        → Remains ps' vs' last' ↔ Remains ps vs last
        → Falls bound ps vs last ps' vs' last'
        → Sound bound ps vs last (next ps' vs' last')

  Rest-iff : (qs ws : List ℕ) → (Matches eats qs ws ⊎ Rest qs (drop 1 ws)) ↔ Rest qs ws
  Rest-iff qs ws = (into ws, from ws)
    where
      into : (ws : List ℕ) → Matches eats qs ws ⊎ Rest qs (drop 1 ws) → Rest qs ws
      into ws (inl m) = (ws, whole, m)
      into [] (inr found) = found
      into (w ∷ ws) (inr found) = (found.0, more found.1, found.2)

      from : (ws : List ℕ) → Rest qs ws → Matches eats qs ws ⊎ Rest qs (drop 1 ws)
      from ws (xs, whole, m) = inl m
      from (w ∷ ws) (xs, more s, m) = inr (xs, s, m)

  drop-Plain : (ws : List ℕ) → Plain eats ws → Plain eats (drop 1 ws)
  drop-Plain [] p = tt
  drop-Plain (w ∷ ws) p = p.1

  drop_suffix : {xs : List ℕ} (ws : List ℕ) → Suffix xs (drop 1 ws) → Suffix xs ws
  drop_suffix [] s = s
  drop_suffix (w ∷ ws) s = more s

  -- Nothing left to try here: back to the last star.
  pub backtrack-Sound :
      (bound : ℕ) (ps vs : List ℕ) (v : ℕ) (last : Star)
      → Good bound ps (v ∷ vs) last
      → (Matches eats ps (v ∷ vs) → ⊥)
      → Sound bound ps (v ∷ vs) last (backtrack last)
  unfolding backtrack
  backtrack-Sound bound ps vs v none g fails =
      ends ((λ h. absurd (ground arith)), (λ m. absurd (fails m)))
  backtrack-Sound bound ps vs v (some (qs, ws)) g fails =
      goes_on {last' = some (qs, drop 1 ws)}
        (record {
          plain = drop-Plain ws g.fits.1;
          small = omega (arith, g.bounded, length-drop 1 ws);
          fits = (here, drop-Plain ws g.fits.1);
          bounded = omega (arith, g.bounded, length-drop 1 ws);
        })
        (
          (λ r. inr ((Rest-iff qs (drop 1 ws)).0 r)),
          (λ r. elim r [
            | inl m ↦ absurd (fails m)
            | inr found ↦ (Rest-iff qs (drop 1 ws)).1 found
          ]),
        )
        (inr (omega (arith, length-drop 1 ws, length-Run eats g.fits.0)))

  pub ends-Sound :
      (bound : ℕ) (ps : List ℕ) (last : Star)
      → Good bound ps [] last
      → Sound bound ps [] last (answer (only_stars ps))
  ends-Sound bound ps none g = ends (only_stars_iff eats ps)
  ends-Sound bound ps (some (qs, ws)) g = ends (
    (λ h. inl ((only_stars_iff eats ps).0 h)),
    (λ r. (only_stars_iff eats ps).1 (elim r [
      | inl m ↦ m
      | inr (xs, s, m) ↦ at_end (Run-rest eats g.fits.0 (drop_suffix ws s) m)
    ])),
  )
    where
      at_end : Rest ps [] → Matches eats ps []
      at_end (xs, whole, m) = m

  takes_inv :
      {c v : ℕ} {ps vs : List ℕ}
      → c ≢ star
      → Matches eats (c ∷ ps) (v ∷ vs)
      → (eats c v ≡ true) × Matches eats ps vs
  takes_inv n (takes e m) = (e, m)
  takes_inv n (star_ends f m) = absurd (n f)
  takes_inv n (star_takes f m) = absurd (n f)

  pub takes-Sound :
      (bound c v : ℕ) (ps vs : List ℕ) (last : Star)
      → c ≢ star
      → eats c v ≡ true
      → Good bound (c ∷ ps) (v ∷ vs) last
      → Sound bound (c ∷ ps) (v ∷ vs) last (next ps vs last)
  takes-Sound bound c v ps vs none n e g =
      goes_on
        (record { plain = g.plain.1; small = omega (arith, g.small); fits = tt; bounded = tt })
        (takes e, λ m. (takes_inv n m).1) (inl (omega arith, omega arith))
  takes-Sound bound c v ps vs (some (qs, ws)) n e g =
      goes_on {last' = some (qs, ws)}
        (record {
          plain = g.plain.1;
          small = omega (arith, g.small);
          fits = (Run-snoc eats g.fits.0 n e, g.fits.1);
          bounded = g.bounded;
        })
        (
          (λ r. elim r [ inl m ↦ inl (takes e m) | inr found ↦ inr found ]),
          (λ r. elim r [ inl m ↦ inl (takes_inv n m).1 | inr found ↦ inr found ]),
        )
        (inl (omega arith, omega arith))

  star_iff :
      (c v : ℕ) (ps vs : List ℕ)
      → c ≡ star
      → Plain eats (v ∷ vs)
      → Rest ps (v ∷ vs) ↔ Matches eats (c ∷ ps) (v ∷ vs)
  star_iff c v ps vs e plain = ((λ r. star_join eats e r.1 r.2), star_split eats e plain)

  pub star-Sound :
      (bound c v : ℕ) (ps vs : List ℕ) (last : Star)
      → c ≡ star
      → Good bound (c ∷ ps) (v ∷ vs) last
      → Sound bound (c ∷ ps) (v ∷ vs) last (next ps (v ∷ vs) (some (ps, v ∷ vs)))
  star-Sound bound c v ps vs last e g =
      goes_on
        (record {
          plain = g.plain;
          small = omega (arith, g.small);
          fits = (here, g.plain);
          bounded = omega (arith, g.small);
        })
        (into last, from last g) (falls last g)
    where
      found : Matches eats ps (v ∷ vs) ⊎ Rest ps vs → Matches eats (c ∷ ps) (v ∷ vs)
      found r = (star_iff c v ps vs e g.plain).0 ((Rest-iff ps (v ∷ vs)).0 r)

      into : (last : Star) → Matches eats ps (v ∷ vs) ⊎ Rest ps vs → Remains (c ∷ ps) (v ∷ vs) last
      into none r = found r
      into (some (qs, ws)) r = inl (found r)

      left : Matches eats (c ∷ ps) (v ∷ vs) → Matches eats ps (v ∷ vs) ⊎ Rest ps vs
      left m = (Rest-iff ps (v ∷ vs)).1 ((star_iff c v ps vs e g.plain).1 m)

      from :
          (last : Star)
          → Good bound (c ∷ ps) (v ∷ vs) last
          → Remains (c ∷ ps) (v ∷ vs) last
          → Matches eats ps (v ∷ vs) ⊎ Rest ps vs
      from none g r = left r
      from (some (qs, ws)) g (inl m) = left m
      from (some (qs, ws)) g (inr (xs, s, m)) =
          let over = Run-rest eats g.fits.0 (drop_suffix ws s) m in
          left (star_over eats e over.1 over.2)

      falls :
          (last : Star)
          → Good bound (c ∷ ps) (v ∷ vs) last
          → Falls bound (c ∷ ps) (v ∷ vs) last ps (v ∷ vs) (some (ps, v ∷ vs))
      falls none g = inl (omega (arith, g.small), omega arith)
      falls (some (qs, ws)) g = inl (length-Run eats g.fits.0, omega arith)
