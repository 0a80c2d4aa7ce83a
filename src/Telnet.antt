-- ===== src/Telnet.antt =====
-- src/telnet.rs: the Telnet worker. The names of the protocol's bytes come from a library, so they
-- are a parameter here, as is that library's parser.
pub mod Frames
use ax_ssh.Prelude.{ℕ, List, []}

abbrev pub Bytes : Type 0
Bytes = List ℕ

-- The command bytes that the worker tests for (RFC 854 gives their values).
pub record OpCommand : Type 0 where
  pub iac : ℕ
  pub will : ℕ
  pub wont : ℕ
  pub do_ : ℕ
  pub dont : ℕ
  pub sb : ℕ
  pub se : ℕ

-- The values of RFC 854.
abbrev pub rfc854 : OpCommand
rfc854 = record { iac = 255; will = 251; wont = 252; do_ = 253; dont = 254; sb = 250; se = 240 }
