-- ===== src/Prelude/Int.antt =====
-- Go's int of 64 bits as a signed number, and its products.
use Prim.Native.Nat.{ℕ, zero, suc, ◌+◌, ◌-◌, ◌*◌, ◌%◌}
use mathlib.Core.Bool.{Bool, true, false}
use num_duel.Prelude.Booleans.{ltb, if◌then◌else◌}

-- `negsuc n` is -(n + 1).
pub data ℤ : Type 0 where
  pos : ℕ → ℤ
  negsuc : ℕ → ℤ

abbrev pub is_positive : ℤ → Bool
is_positive (pos zero) = false
is_positive (pos (suc n)) = true
is_positive (negsuc n) = false

-- The residue modulo 2 ^ 64.
abbrev pub residue : ℤ → ℕ
residue (pos n) = n % 18446744073709551616
residue (negsuc n) = 18446744073709551615 - n % 18446744073709551616

-- What an int64 holds of a number.
abbrev pub wrap64 : ℤ → ℤ
wrap64 z =
    let r = residue z in
    if ltb r 9223372036854775808 then pos r else negsuc (18446744073709551615 - r)

abbrev pub scale : ℤ → ℕ → ℤ
scale (pos n) k = pos (n * k)
scale (negsuc n) zero = pos 0
scale (negsuc n) (suc k) = negsuc (n * suc k + k)

-- `time.Duration(z) * unit`
unfoldable pub duration : ℤ → ℕ → ℤ
duration z unit = wrap64 (scale z unit)
