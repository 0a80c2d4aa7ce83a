-- ===== src/Patterns/Matches.antt =====
-- Which texts a pattern describes, said without the loop.
use ax_ssh.Prelude.{ℕ, Bool, true, ◌≡◌, ◌↔◌, refl, sym, subst, List, [], ◌∷◌}
use ax_ssh.Patterns.Glob.{star}

module _ (eats : ℕ → ℕ → Bool) where
  pub data Matches : List ℕ → List ℕ → Type 0 where
    done : Matches [] []
    -- A byte of the pattern takes a byte of the text.
    takes : {c v : ℕ} {ps vs : List ℕ} → eats c v ≡ true → Matches ps vs → Matches (c ∷ ps) (v ∷ vs)
    -- A star takes nothing more, or one byte more.
    star_ends : {c : ℕ} {ps vs : List ℕ} → c ≡ star → Matches ps vs → Matches (c ∷ ps) vs
    star_takes :
        {c v : ℕ} {ps vs : List ℕ} → c ≡ star → Matches (c ∷ ps) vs → Matches (c ∷ ps) (v ∷ vs)

-- The texts that a pattern describes, where a byte of it that is no wildcard stands for the bytes that
-- `Stands` names, and a 42, which is `*`, for any bytes.
pub data Describes (Stands : ℕ → ℕ → Type 0) : List ℕ → List ℕ → Type 0 where
  nothing : Describes Stands [] []
  one_byte :
      {c v : ℕ} {ps vs : List ℕ}
      → Stands c v
      → Describes Stands ps vs
      → Describes Stands (c ∷ ps) (v ∷ vs)
  no_more : {ps vs : List ℕ} → Describes Stands ps vs → Describes Stands (42 ∷ ps) vs
  one_more :
      {v : ℕ} {ps vs : List ℕ} → Describes Stands (42 ∷ ps) vs → Describes Stands (42 ∷ ps) (v ∷ vs)

module _ (eats : ℕ → ℕ → Bool) (Stands : ℕ → ℕ → Type 0)
    (agree : (c v : ℕ) → (eats c v ≡ true) ↔ Stands c v) where
  at_star :
      {c : ℕ} (ps vs : List ℕ)
      → c ≡ 42
      → Describes Stands (42 ∷ ps) vs
      → Describes Stands (c ∷ ps) vs
  at_star ps vs e d = subst (λ k. Describes Stands (k ∷ ps) vs) (sym e) d

  from_star :
      {c : ℕ} (ps vs : List ℕ)
      → c ≡ 42
      → Describes Stands (c ∷ ps) vs
      → Describes Stands (42 ∷ ps) vs
  from_star ps vs e d = subst (λ k. Describes Stands (k ∷ ps) vs) e d

  Matches-Describes : {ps vs : List ℕ} → Matches eats ps vs → Describes Stands ps vs
  Matches-Describes done = nothing
  Matches-Describes (takes {c = c} {v = v} e m) = one_byte ((agree c v).0 e) (Matches-Describes m)
  Matches-Describes (star_ends {ps = ps} {vs = vs} e m) =
      at_star ps vs e (no_more (Matches-Describes m))
  Matches-Describes (star_takes {v = v} {ps = ps} {vs = vs} e m) =
      at_star ps (v ∷ vs) e (one_more (from_star ps vs e (Matches-Describes m)))

  Describes-Matches : {ps vs : List ℕ} → Describes Stands ps vs → Matches eats ps vs
  Describes-Matches nothing = done
  Describes-Matches (one_byte {c = c} {v = v} s d) = takes ((agree c v).1 s) (Describes-Matches d)
  Describes-Matches (no_more d) = star_ends refl (Describes-Matches d)
  Describes-Matches (one_more d) = star_takes refl (Describes-Matches d)

  pub Matches-iff : (ps vs : List ℕ) → Matches eats ps vs ↔ Describes Stands ps vs
  Matches-iff ps vs = (Matches-Describes, Describes-Matches)
