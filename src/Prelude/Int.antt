-- ===== src/Prelude/Int.antt =====
-- The values of a C `int` that the kernel returns and receives: pids, file ids, exit codes.
use Prim.Native.Nat.{ℕ}

-- `negsuc n` is -(n + 1).
pub data ℤ : Type 0 where
  pos : ℕ → ℤ
  negsuc : ℕ → ℤ

-- NOPROC, NOFILE and the plain error return.
abbrev pub minus_one : ℤ
minus_one = negsuc 0
