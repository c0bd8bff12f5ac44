-- ===== src/Prelude/Int32.antt =====
-- Go's `int32` in two's complement, as a number below 2 ^ 32.
use Prim.Native.Nat.{ℕ, ◌+◌, ◌%◌, ◌<◌}
use mathlib.Core.Path.{◌≡◌}
use mathlib.Core.Bool.{Bool, true, ◌&&◌}
use native.Mathlib.Omega.{arith}
use nyyu_market.Prelude.Tests.{ltb}

abbrev pub inc : ℕ → ℕ
inc n = (n + 1) % 4294967296

abbrev pub dec : ℕ → ℕ
dec n = (n + 4294967295) % 4294967296

-- `n > 0`
abbrev pub is_positive : ℕ → Bool
is_positive n = ltb 0 n && ltb n 2147483648

pub inc-small : (n : ℕ) → n < 2147483647 → inc n ≡ n + 1
inc-small n h = omega arith

pub dec-small : (n : ℕ) → n < 2147483647 → dec (n + 1) ≡ n
dec-small n h = omega arith

pub is_positive-suc : (n : ℕ) → n < 2147483647 → is_positive (n + 1) ≡ true
is_positive-suc n h = ground arith
