-- ===== src/KnownHosts/Rows.antt =====
-- src/ssh/known_hosts.rs: the lines and the fields of a text that is put together.
use ax_ssh.Prelude.{ℕ, Bool, true, false, ◌≡◌, ◌≢◌, refl, ap, ◌∙◌, List, [], ◌∷◌, ◌++◌, ◌==◌, arith}
use ax_ssh.KnownHosts.{Text, onto_first}
use ax_ssh.Prelude.Bytes.{is_space}
use ax_ssh.KnownHosts.File.{line_step, lines, ends_line, words, fields}

-- The last byte is no carriage return.
abbrev pub last_is_cr : Text → Bool
last_is_cr [] = false
last_is_cr (c ∷ []) = c == 13
last_is_cr (c ∷ d ∷ t) = last_is_cr (d ∷ t)

onto_first-append :
    (c : ℕ) (ts us : List Text) → ts ≢ [] → onto_first c (ts ++ us) ≡ onto_first c ts ++ us
onto_first-append c [] us n = absurd (n refl)
onto_first-append c (t ∷ ts) us n = refl

line_step-append :
    (c : ℕ) (b : Bool) (ts us : List Text)
    → ts ≢ []
    → line_step c b (ts ++ us) ≡ line_step c b ts ++ us
unfolding line_step
line_step-append c b [] us n = absurd (n refl)
line_step-append c b (t ∷ ts) us n = ground arith

line_step_ne : (c : ℕ) (b : Bool) (ts : List Text) → ts ≢ [] → line_step c b ts ≢ []
unfolding line_step
line_step_ne c b [] n e = n refl
line_step_ne c b (t ∷ ts) n e = ground arith

lines_ne : (c : ℕ) (t : Text) → lines (c ∷ t) ≢ []
unfolding lines
lines_ne c [] e = unfold line_step in ground arith
lines_ne c (d ∷ t) e = line_step_ne c (d == 10) (lines (d ∷ t)) (lines_ne d t) e

-- A text that ends a line is cut there.
pub lines-append : (t u : Text) → ends_line t ≡ true → lines (t ++ u) ≡ lines t ++ lines u
unfolding lines
lines-append [] u h = refl
lines-append (c ∷ []) u h = unfold line_step in ground arith
lines-append (c ∷ d ∷ t) u h =
    ap (line_step c (d == 10)) (lines-append (d ∷ t) u h)
    ∙ line_step-append c (d == 10) (lines (d ∷ t)) (lines u) (lines_ne d t)

-- A line feed at the end of a last line makes no line.
pub lines-feed :
    (t : Text) → ends_line t ≡ false → last_is_cr t ≡ false → lines (t ++ (10 ∷ [])) ≡ lines t
unfolding lines
lines-feed [] h n = absurd (ground arith)
lines-feed (c ∷ []) h n = unfold line_step in ground arith
lines-feed (c ∷ d ∷ t) h n = ap (line_step c (d == 10)) (lines-feed (d ∷ t) h n)

pub ends_line-feed : (t : Text) → ends_line (t ++ (10 ∷ [])) ≡ true
ends_line-feed [] = refl
ends_line-feed (c ∷ []) = refl
ends_line-feed (c ∷ d ∷ t) = ends_line-feed (d ∷ t)

-- No white space, and so neither end of a line.
abbrev pub Solid : Text → Type 0
Solid [] = Unit
Solid (c ∷ t) = (is_space c ≡ false) × Solid t

-- Bytes that end no line.
abbrev pub OneLine : Text → Type 0
OneLine [] = Unit
OneLine (c ∷ t) = ((c == 10) ≡ false) × ((c == 13) ≡ false) × OneLine t

pub lines_one : (t : Text) → OneLine t → lines (t ++ (10 ∷ [])) ≡ t ∷ []
unfolding lines
lines_one [] h = unfold line_step in refl
lines_one (c ∷ t) h = unfold line_step in ground (arith, lines_one t h.2)

pub Solid-OneLine : (t : Text) → Solid t → OneLine t
Solid-OneLine [] h = tt
Solid-OneLine (c ∷ t) h =
    (let s = h.0 in ground arith, let s = h.0 in ground arith, Solid-OneLine t h.1)

pub OneLine-append : (t u : Text) → OneLine t → OneLine u → OneLine (t ++ u)
OneLine-append [] u h k = k
OneLine-append (c ∷ t) u h k = (h.0, h.1, OneLine-append t u h.2 k)

-- A word up to a space, or up to the end.
pub words-space : (w t : Text) → Solid w → words (w ++ (32 ∷ t)) ≡ (w, fields t)
unfolding words fields
words-space [] t h = refl
words-space (c ∷ w) t h = ground (arith, words-space w t h.1)

pub words-Solid : (w : Text) → Solid w → words w ≡ (w, [])
unfolding words
words-Solid [] h = refl
words-Solid (c ∷ w) h = ground (arith, words-Solid w h.1)

-- Three words with single spaces between them.
pub fields_three :
    (a b c : ℕ) (u v w : Text)
    → Solid (a ∷ u)
    → Solid (b ∷ v)
    → Solid (c ∷ w)
    → fields ((a ∷ u) ++ (32 ∷ ((b ∷ v) ++ (32 ∷ (c ∷ w))))) ≡ (a ∷ u) ∷ (b ∷ v) ∷ (c ∷ w) ∷ []
unfolding fields
fields_three a b c u v w h k l = ground (
  arith,
  words-space (a ∷ u) ((b ∷ v) ++ (32 ∷ (c ∷ w))) h,
  words-space (b ∷ v) (c ∷ w) k,
  words-Solid (c ∷ w) l,
)
