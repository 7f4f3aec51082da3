-- ===== src/Base/Int.antt =====
-- The source's `int` status: a count of zero or more, or a negative errno.
use fl.Base.{zero}
use Prim.Native.Nat.{ℕ}
use fl.Base.Tests.{◌==◌}
use mathlib.Core.Bool.{Bool, true, false}

-- `negsuc n` is -(n + 1).
pub data ℤ : Type 0 where
  pos : ℕ → ℤ
  negsuc : ℕ → ℤ

-- `status < 0`
abbrev pub is_neg : ℤ → Bool
is_neg (pos n) = false
is_neg (negsuc n) = true

-- The error codes of Linux's errno headers that the driver returns.
abbrev pub enomem : ℤ
enomem = negsuc 11

abbrev pub enodev : ℤ
enodev = negsuc 18

abbrev pub ebusy : ℤ
ebusy = negsuc 15

abbrev pub epipe : ℤ
epipe = negsuc 31

abbrev pub enospc : ℤ
enospc = negsuc 27

abbrev pub etime : ℤ
etime = negsuc 61

abbrev pub einval : ℤ
einval = negsuc 21

abbrev pub enobufs : ℤ
enobufs = negsuc 104

abbrev pub eshutdown : ℤ
eshutdown = negsuc 107

abbrev pub etimedout : ℤ
etimedout = negsuc 109

-- `status > 0`
abbrev pub is_positive : ℤ → Bool
is_positive (pos zero) = false
is_positive (pos _) = true
is_positive (negsuc n) = false

-- `a == b` on status codes.
abbrev pub eqb_ℤ : ℤ → ℤ → Bool
eqb_ℤ (pos m) (pos n) = m == n
eqb_ℤ (pos m) (negsuc n) = false
eqb_ℤ (negsuc m) (pos n) = false
eqb_ℤ (negsuc m) (negsuc n) = m == n

abbrev pub e2big : ℤ
e2big = negsuc 6
