-- ===== src/TerminalDimensions/Bounds.antt =====
-- src/terminal_dimensions.rs: the bounds that every constructor keeps, and the sizes that are
-- accepted as they are.
use ax_ssh.Prelude.{ℕ, ◌≤◌, ◌≡◌, ◌↔◌, arith}
use ax_ssh.TerminalDimensions.{
  TerminalSize, accepted, model, model_with_pixels, backend, backend_with_pixels,
  validate_backend_size,
}

-- Within the limits of the model, columns 10 to 300 and rows 3 to 100.
pub record IsModelSize (s : TerminalSize) : Type 0 where
  pub columns_from : 10 ≤ s.columns
  pub columns_to : s.columns ≤ 300
  pub rows_from : 3 ≤ s.rows
  pub rows_to : s.rows ≤ 100

-- Within the limits of a backend, columns 1 to 300 and rows 1 to 100.
pub record IsBackendSize (s : TerminalSize) : Type 0 where
  pub columns_from : 1 ≤ s.columns
  pub columns_to : s.columns ≤ 300
  pub rows_from : 1 ≤ s.rows
  pub rows_to : s.rows ≤ 100

-- A size of the model, with or without pixels, is within the model's limits for every requested
-- size, and a backend takes its columns and rows unchanged.
pub model-IsModelSize :
    (c r w h : ℕ)
    → IsModelSize (model c r)
      × IsModelSize (model_with_pixels c r w h)
      × (backend (model c r).columns (model c r).rows ≡ model c r)
unfolding model model_with_pixels backend
model-IsModelSize c r w h = (ground arith, ground arith, ground arith)

-- The backend's check accepts exactly the sizes of 1 to 300 columns and 1 to 100 rows; those are the
-- sizes that the backend constructor leaves as they are, and that constructor, with or without
-- pixels, is within these limits for every requested size.
pub validate_backend_size_iff :
    (c r w h : ℕ)
    → ((validate_backend_size c r ≡ accepted) ↔ (((1 ≤ c) × (c ≤ 300)) × ((1 ≤ r) × (r ≤ 100))))
      × ((validate_backend_size c r ≡ accepted)
          ↔ (((backend c r).columns ≡ c) × ((backend c r).rows ≡ r)))
      × IsBackendSize (backend c r)
      × IsBackendSize (backend_with_pixels c r w h)
unfolding validate_backend_size backend backend_with_pixels
validate_backend_size_iff c r w h = (
  ((λ e. ground arith), (λ e. ground arith)),
  ((λ e. ground arith), (λ e. ground arith)),
  ground arith,
  ground arith,
)
