-- ===== src/Base/Codes.antt =====
-- Return codes of the C functions: 0, or a negated errno value.
use Prim.Native.Nat.{ℕ}

-- The errno names that the code returns or tests; `other` is a code that a driver returns.
pub data Errno : Type 0 where
  einval enomem emsgsize enoent enodev ealready : Errno
  other : ℕ → Errno

pub data Rc : Type 0 where
  ok : Rc
  err : Errno → Rc
