-- ===== src/Base/Int32.antt =====
-- Division of an int32_t, which is its bit pattern: C rounds to 0, and a remainder has the sign of
-- what is divided.
use Prim.Native.Nat.{ℕ, ◌-◌, ◌/◌, ◌%◌, ◌^◌, ◌<◌}
use mathlib.Core.Path.{◌≡◌, refl}
use tpsoaprobado.Base.Tests.{ltb, if◌then◌else◌, lt→ltb}

-- The pattern of `- n`.
abbrev pub negated : ℕ → ℕ
negated n = (2 ^ 32 - n) % 2 ^ 32

-- `x / d` for a positive `d`.
unfoldable pub int32_div : ℕ → ℕ → ℕ
int32_div x d = if ltb x (2 ^ 31) then x / d else negated ((2 ^ 32 - x) / d)

-- `x % d` for a positive `d`.
unfoldable pub int32_mod : ℕ → ℕ → ℕ
int32_mod x d = if ltb x (2 ^ 31) then x % d else negated ((2 ^ 32 - x) % d)

pub int32_div-positive : (x d : ℕ) → x < 2 ^ 31 → int32_div x d ≡ x / d
unfolding int32_div
int32_div-positive x d h = rw (lt→ltb x (2 ^ 31) h) refl

pub int32_mod-positive : (x d : ℕ) → x < 2 ^ 31 → int32_mod x d ≡ x % d
unfolding int32_mod
int32_mod-positive x d h = rw (lt→ltb x (2 ^ 31) h) refl
