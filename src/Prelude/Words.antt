-- ===== src/Prelude/Words.antt =====
-- Machine words: the wrapping successors that the program uses for revisions and request numbers.
use Prim.Native.Nat.{ℕ, ◌+◌, ◌%◌, ◌^◌, ◌<◌, max}
use mathlib.Core.Path.{◌≡◌}
use mathlib.Core.Logic.{◌≢◌}
use native.Mathlib.Omega.{arith}
use ax_ssh.Prelude.Tests.{if◌then◌else◌, ◌==◌}

-- `wrapping_add(1)` on `u64`.
unfoldable pub wrapping_succ : ℕ → ℕ
wrapping_succ n = (n + 1) % 2 ^ 64

-- A number of a request: the wrapping successor, past zero.
unfoldable pub next_request_id : ℕ → ℕ
unfolding wrapping_succ
next_request_id n = if wrapping_succ n == 0 then 1 else wrapping_succ n

-- It is written `wrapping_add(1).max(1)` elsewhere, which is the same number.
pub next_request_id-max : (n : ℕ) → max (wrapping_succ n) 1 ≡ next_request_id n
unfolding next_request_id
next_request_id-max n = ground arith

pub next_request_id-pos : (n : ℕ) → 0 < next_request_id n
unfolding next_request_id
next_request_id-pos n = ground arith

-- A request number is never that of the request before.
pub next_request_id_ne : (n : ℕ) → 0 < n → n < 2 ^ 64 → next_request_id n ≢ n
unfolding next_request_id
next_request_id_ne n h k = ground arith
