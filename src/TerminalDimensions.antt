-- ===== src/TerminalDimensions.antt =====
-- src/terminal_dimensions.rs: the size limits that the terminal model, the settings and the
-- workers share.
pub mod Bounds
use ax_ssh.Prelude.{ℕ, ◌-◌, ◌^◌, ◌||◌, min, max, ltb, ◌==◌, if◌then◌else◌}

abbrev pub min_terminal_columns : ℕ
min_terminal_columns = 10

abbrev pub min_terminal_rows : ℕ
min_terminal_rows = 3

abbrev pub max_terminal_columns : ℕ
max_terminal_columns = 300

abbrev pub max_terminal_rows : ℕ
max_terminal_rows = 100

abbrev pub u32_max : ℕ
u32_max = 2 ^ 32 - 1

pub record TerminalSize : Type 0 where
  pub columns : ℕ
  pub rows : ℕ
  pub pixel_width : ℕ
  pub pixel_height : ℕ

-- `Ord::clamp` on `u32`.
abbrev pub clamp : ℕ → ℕ → ℕ → ℕ
clamp lo hi x = if ltb x lo then lo else if ltb hi x then hi else x

-- `u32::try_from(n).unwrap_or(u32::MAX)`.
abbrev pub saturating_u32 : ℕ → ℕ
saturating_u32 n = if ltb u32_max n then u32_max else n

unfoldable pub model : ℕ → ℕ → TerminalSize
model columns rows = record {
  columns = clamp min_terminal_columns max_terminal_columns (saturating_u32 columns);
  rows = clamp min_terminal_rows max_terminal_rows (saturating_u32 rows);
  pixel_width = 0;
  pixel_height = 0;
}

unfoldable pub model_with_pixels : ℕ → ℕ → ℕ → ℕ → TerminalSize
unfolding model
model_with_pixels columns rows width height = record (model columns rows) {
  pixel_width = width;
  pixel_height = height;
}

unfoldable pub backend : ℕ → ℕ → TerminalSize
backend columns rows = record {
  columns = clamp 1 max_terminal_columns columns;
  rows = clamp 1 max_terminal_rows rows;
  pixel_width = 0;
  pixel_height = 0;
}

unfoldable pub backend_with_pixels : ℕ → ℕ → ℕ → ℕ → TerminalSize
unfolding backend
backend_with_pixels columns rows width height = record (backend columns rows) {
  pixel_width = width;
  pixel_height = height;
}

pub data SizeCheck : Type 0 where
  accepted zero_dimension over_limit : SizeCheck

unfoldable pub validate_backend_size : ℕ → ℕ → SizeCheck
validate_backend_size columns rows =
    if columns == 0 || rows == 0
    then zero_dimension
    else if ltb max_terminal_columns columns || ltb max_terminal_rows rows
    then over_limit
    else accepted
