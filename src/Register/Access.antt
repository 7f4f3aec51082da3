-- ===== src/Register/Access.antt =====
-- Register accesses (ehub_embedded_register.c): the buffer of a request, and what a failure leaves.
use fl.Urb.{put_urb}
use fl.Base.Bytes.{u32_max, overwrite}
use fl.Base.Int.{ℤ, is_neg, enodev}
use fl.Device.{Device, error_check, UrbContext}
use fl.Register.{write_buffer, register_fail, register_error}
use fl.Base.{ℕ, List, ◌≡◌, true, inr, false, some, ◌⊎◌, arith, ◌+◌, length, ◌≤◌, refl}

pub write_buffer_eq :
    (id off : ℕ) (bs : List ℕ) (u : UrbContext) (d : Device)
    → d.urbs id ≡ some u
    → off + length bs ≤ length u.data_buffer
    → write_buffer id off bs d
      ≡ put_urb id (some (record u { data_buffer = overwrite off bs u.data_buffer })) d
unfolding write_buffer
write_buffer_eq id off bs u d e h = ground arith

-- An error of the register path stays: every later check of the device fails.
pub register_error_latches :
    (d : Device) → d.error_flags.embedded_register_error ≡ true → error_check d ≡ enodev
unfolding error_check
register_error_latches d h = ground arith

-- How a register access may end: with a status of zero or more, or with all ones for the data and
-- the device in error from then on.
abbrev pub Settled : Device × ℕ × ℤ → Type 0
Settled r = (is_neg r.2 ≡ false) ⊎ ((r.1 ≡ u32_max) × (error_check r.0 ≡ enodev))

pub fail-Settled : (d : Device) (status : ℤ) → Settled (register_fail d status)
fail-Settled d status = inr (refl, register_error_latches (register_error d) refl)
