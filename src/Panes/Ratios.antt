-- ===== src/Panes/Ratios.antt =====
-- src/app/panes.rs: the `f32` operations that the panes use, and the laws of theirs that matter.
use ax_ssh.Prelude.{ℕ, ◌≤◌, Bool, true, false, ◌&&◌, ◌≡◌, if◌then◌else◌}

pub record Floats : Type 1 where
  pub F : Type 0
  -- A decimal constant, as numerator and denominator.
  pub num : ℕ → ℕ → F
  pub add : F → F → F
  pub sub : F → F → F
  pub mul : F → F → F
  pub div : F → F → F
  pub maximum : F → F → F
  pub minimum : F → F → F
  pub absolute : F → F
  pub lt : F → F → Bool
  pub le : F → F → Bool
  -- `total_cmp`, as less or equal.
  pub total_le : F → F → Bool
  pub is_finite : F → Bool
  -- `(r * 1000.0).round() as u16`, and `f32::from(m) / 1000.0`.
  pub to_milli : F → ℕ
  pub of_milli : ℕ → F

module _ (fl : Floats) where
  -- `MIN_PANE_SPLIT_RATIO`, `1.0 - MIN_PANE_SPLIT_RATIO` and `DEFAULT_PANE_SPLIT_RATIO`.
  abbrev pub min_ratio : fl.F
  min_ratio = fl.num 1 10

  abbrev pub max_ratio : fl.F
  max_ratio = fl.sub (fl.num 1 1) (fl.num 1 10)

  abbrev pub default_ratio : fl.F
  default_ratio = fl.num 5 10

  -- `clamp`, on a number.
  abbrev pub clamp_ratio : fl.F → fl.F
  clamp_ratio r =
      if fl.lt r min_ratio then min_ratio else if fl.lt max_ratio r then max_ratio else r

  abbrev pub in_range : fl.F → Bool
  in_range r = fl.le min_ratio r && fl.le r max_ratio

  -- Rounding to thousandths and back, between a tenth and nine tenths.
  pub record FloatLaws : Type 0 where
    pub default_in : in_range default_ratio ≡ true
    pub min_in : in_range min_ratio ≡ true
    pub max_in : in_range max_ratio ≡ true
    -- The order of finite numbers is total.
    pub between :
        (r : fl.F)
        → fl.is_finite r ≡ true
        → fl.lt r min_ratio ≡ false
        → fl.lt max_ratio r ≡ false
        → in_range r ≡ true
    pub to_milli_in : (r : fl.F) → in_range r ≡ true → (100 ≤ fl.to_milli r) × (fl.to_milli r ≤ 900)
    pub of_milli_in : (m : ℕ) → 100 ≤ m → m ≤ 900 → in_range (fl.of_milli m) ≡ true
    pub to_of : (m : ℕ) → 100 ≤ m → m ≤ 900 → fl.to_milli (fl.of_milli m) ≡ m
