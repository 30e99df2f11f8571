-- ===== src/Prelude/Int.antt =====
-- Integers over the native numbers, for `i32`, with its wrapping increment and checked decrement.
use Prim.Native.Nat.{ℕ, zero, suc, ◌+◌, ◌-◌, ◌^◌}
use mathlib.Core.Bool.{Bool, true, false}
use mathlib.Core.Option.{Option, none, some}
use mctp_emu.Prelude.Tests.{ltb, ◌==◌, if◌then◌else◌}

-- `negsuc n` is -(n + 1).
pub data ℤ : Type 0 where
  pos : ℕ → ℤ
  negsuc : ℕ → ℤ

abbrev pub lt_int : ℤ → ℤ → Bool
lt_int (pos a) (pos b) = ltb a b
lt_int (pos a) (negsuc b) = false
lt_int (negsuc a) (pos b) = true
lt_int (negsuc a) (negsuc b) = ltb b a

abbrev pub eq_int : ℤ → ℤ → Bool
eq_int (pos a) (pos b) = a == b
eq_int (pos a) (negsuc b) = false
eq_int (negsuc a) (pos b) = false
eq_int (negsuc a) (negsuc b) = a == b

-- `AtomicI32::fetch_add(1)` wraps at 2^31.
abbrev pub i32_add_one : ℤ → ℤ
i32_add_one (pos n) = if n + 1 == 2 ^ 31 then negsuc (2 ^ 31 - 1) else pos (n + 1)
i32_add_one (negsuc zero) = pos 0
i32_add_one (negsuc (suc n)) = negsuc n

-- `n - 1`; `none` is the overflow.
abbrev pub i32_sub_one : ℤ → Option ℤ
i32_sub_one (pos zero) = some (negsuc 0)
i32_sub_one (pos (suc n)) = some (pos n)
i32_sub_one (negsuc n) = if n + 1 == 2 ^ 31 then none else some (negsuc (n + 1))
