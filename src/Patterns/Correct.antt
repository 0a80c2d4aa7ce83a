-- ===== src/Patterns/Correct.antt =====
-- src/ssh/known_hosts.rs, `glob_match`, and src/sftp/transfer/discovery.rs, `wildcard_matches`: the
-- loop decides whether the text is one that the pattern describes.
use ax_ssh.Prelude.{
  ℕ, zero, suc, ◌+◌, ◌*◌, ◌≤◌, ◌<◌, Bool, true, false, ◌≡◌, ◌≢◌, ◌↔◌, refl, inl, inr, ◌⊎◌, List, [],
  ◌∷◌, Option, none, some, ◌==◌, length, arith, Bool-cases,
}
use ax_ssh.Patterns.{wildcard_run, wildcard_matches, glob_run, glob_match, eats_equal, eats_glob}
use ax_ssh.Patterns.Glob.{star, Star, Turn, answer, next, turn, loop, turns}
use ax_ssh.Patterns.Matches.{Matches, takes, star_ends, star_takes, Describes, Matches-iff}
use ax_ssh.Patterns.Greedy.{Plain}
use ax_ssh.Patterns.Sound.{
  Good, Remains, rank, Sound, ends, goes_on, backtrack-Sound, ends-Sound, takes-Sound, star-Sound,
}

module _ (eats : ℕ → ℕ → Bool) where
  nothing_left : {v : ℕ} {vs : List ℕ} → Matches eats [] (v ∷ vs) → ⊥
  nothing_left m = elim m [ ]

  no_byte :
      {c v : ℕ} {ps vs : List ℕ} → c ≢ star → eats c v ≡ false → Matches eats (c ∷ ps) (v ∷ vs) → ⊥
  no_byte n e (takes f m) = ground arith
  no_byte n e (star_ends f m) = absurd (n f)
  no_byte n e (star_takes f m) = absurd (n f)

  byte_ne : {c v : ℕ} → eats star v ≡ false → eats c v ≡ true → c ≢ star
  byte_ne p e f = cc

  turn-Sound :
      (bound : ℕ) (ps vs : List ℕ) (last : Star)
      → Good eats bound ps vs last
      → Sound eats bound ps vs last (turn eats ps vs last)
  unfolding turn
  turn-Sound bound ps [] last g = ends-Sound eats bound ps last g
  turn-Sound bound [] (v ∷ vs) last g = backtrack-Sound eats bound [] vs v last g nothing_left
  turn-Sound bound (c ∷ ps) (v ∷ vs) last g = elim (Bool-cases (eats c v)) [
    | inl e ↦ rw (e) (takes-Sound eats bound c v ps vs last (byte_ne g.plain.0 e) e g)
    | inr e ↦ elim (Bool-cases (c == star)) [
      | inl same ↦ rw (e, same) (star-Sound eats bound c v ps vs last (ground arith) g)
      | inr other ↦
          rw (e, other) (backtrack-Sound eats bound (c ∷ ps) vs v last g (no_byte (ground arith) e))
    ]
  ]

  -- The turns that are left to take, at most.
  abbrev cost : ℕ → List ℕ → List ℕ → Star → ℕ
  cost bound ps vs last = rank eats bound last * suc bound + length ps + length vs

  mul_mono : (r' r k : ℕ) → r' ≤ r → r' * k ≤ r * k
  mul_mono zero r k h = omega arith
  mul_mono (suc r') zero k h = absurd (omega arith)
  mul_mono (suc r') (suc r) k h = omega (arith, mul_mono r' r k (omega arith))

  cost_falls :
      (r r' k s s' : ℕ) → s' < k → ((r' ≤ r) × (s' < s)) ⊎ (r' < r) → r' * k + s' < r * k + s
  cost_falls r r' k s s' h (inl (le, lt)) = omega (arith, mul_mono r' r k le)
  cost_falls r r' k s s' h (inr lt) = omega (arith, mul_mono (suc r') r k lt)

  -- A loop's outcome is an answer, which is whether what it looks for remains.
  abbrev Answers : Option Bool → Type 0 → Type 0
  Answers o Left = (b : Bool) × (o ≡ some b) × ((b ≡ true) ↔ Left)

  -- Fuel for the cost gives the answer.
  abbrev Decides : ℕ → Type 0
  Decides n =
      (bound : ℕ) (ps vs : List ℕ) (last : Star)
      → Good eats bound ps vs last
      → cost bound ps vs last < n
      → Answers (loop eats n ps vs last) (Remains eats ps vs last)

  by_turn :
      (n bound : ℕ) (ps vs : List ℕ) (last : Star) (t : Turn)
      → Decides n
      → cost bound ps vs last < suc n
      → Good eats bound ps vs last
      → Sound eats bound ps vs last t
      → Answers
          (elim t [ answer b ↦ some b | next ps' vs' last' ↦ loop eats n ps' vs' last' ])
          (Remains eats ps vs last)
  by_turn n bound ps vs last (answer b) decide h g (ends same) = (b, refl, same)
  by_turn n bound ps vs last (next ps' vs' last') decide h g (goes_on g' same f) =
      let less =
        cost_falls (rank eats bound last) (rank eats bound last') (suc bound)
          (length ps + length vs) (length ps' + length vs') (omega (arith, g'.small)) f in
      let rest = decide bound ps' vs' last' g' (omega (arith, less)) in
      (rest.0, rest.1, ((λ e. same.0 (rest.2.0 e)), (λ m. rest.2.1 (same.1 m))))

  loop_iff : (n : ℕ) → Decides n
  unfolding loop
  loop_iff zero bound ps vs last g h = absurd (omega arith)
  loop_iff (suc n) bound ps vs last g h =
      by_turn n bound ps vs last (turn eats ps vs last) (loop_iff n) h g
        (turn-Sound bound ps vs last g)

  -- The loop, with the fuel that it is given, decides the pattern.
  pub loop-Matches :
      (ps vs : List ℕ)
      → Plain eats vs
      → Answers (loop eats (turns ps vs) ps vs none) (Matches eats ps vs)
  loop-Matches ps vs plain =
      loop_iff (turns ps vs) (length ps + length vs) ps vs none
        (record { plain = plain; small = omega arith; fits = tt; bounded = tt }) (omega arith)

equal-Plain : (vs : List ℕ) → Plain eats_equal vs
equal-Plain [] = tt
equal-Plain (v ∷ vs) = (ground arith, equal-Plain vs)

-- In a transfer filter a byte that is no `*` stands for itself.
abbrev pub StandsForItself : ℕ → ℕ → Type 0
StandsForItself c v = (c ≢ 42) × (c ≡ v)

eats_equal_lem : (c v : ℕ) → (eats_equal c v ≡ true) ↔ StandsForItself c v
eats_equal_lem c v =
    ((λ e. (ground arith, ground arith)), (λ s. let n = s.0 in let e = s.1 in ground arith))

-- The matcher of the transfer filters ends with an answer for every pattern and name, and accepts
-- a name exactly if the pattern describes it: a `*` stands for any bytes, and every other byte
-- for itself.
pub wildcard_matches_iff :
    (ps vs : List ℕ)
    → (wildcard_run ps vs ≡ some (wildcard_matches ps vs))
      × ((wildcard_matches ps vs ≡ true) ↔ Describes StandsForItself ps vs)
unfolding wildcard_matches wildcard_run
wildcard_matches_iff ps vs =
    let run = loop-Matches eats_equal ps vs (equal-Plain vs) in
    let same = Matches-iff eats_equal StandsForItself eats_equal_lem ps vs in
    rw (run.1) (refl, ((λ e. same.0 (run.2.0 e)), (λ d. run.2.1 (same.1 d))))

-- No byte of a text is a `*`.
abbrev pub NoStar : List ℕ → Type 0
NoStar [] = Unit
NoStar (v ∷ vs) = (v ≢ 42) × NoStar vs

glob-Plain : (vs : List ℕ) → NoStar vs → Plain eats_glob vs
glob-Plain [] h = tt
glob-Plain (v ∷ vs) h = (let n = h.0 in ground arith, glob-Plain vs h.1)

-- In a host pattern a byte stands for itself, and a 63, which is `?`, for any byte.
abbrev pub StandsForHost : ℕ → ℕ → Type 0
StandsForHost c v = (c ≡ v) ⊎ (c ≡ 63)

eats_glob_lem : (c v : ℕ) → (eats_glob c v ≡ true) ↔ StandsForHost c v
eats_glob_lem c v = (
  (λ e. elim (Bool-cases (c == v)) [
    | inl same ↦ inl (ground arith)
    | inr other ↦ inr (ground arith)
  ]),
  (λ s. elim s [ inl e ↦ ground arith | inr e ↦ ground arith ]),
)

-- The matcher of the host patterns ends with an answer for every pattern and every host name with no
-- `*`, and accepts the name exactly if the pattern describes it: a `?` stands for any byte, a `*` for
-- any bytes, and other bytes for themselves.
pub glob_match_iff :
    (ps vs : List ℕ)
    → NoStar vs
    → (glob_run ps vs ≡ some (glob_match ps vs))
      × ((glob_match ps vs ≡ true) ↔ Describes StandsForHost ps vs)
unfolding glob_match glob_run
glob_match_iff ps vs h =
    let run = loop-Matches eats_glob ps vs (glob-Plain vs h) in
    let same = Matches-iff eats_glob StandsForHost eats_glob_lem ps vs in
    rw (run.1) (refl, ((λ e. same.0 (run.2.0 e)), (λ d. run.2.1 (same.1 d))))
