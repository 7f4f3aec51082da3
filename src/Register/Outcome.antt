-- ===== src/Register/Outcome.antt =====
-- Reads and writes of registers (ehub_embedded_register.c): what is sent, and how they end.
use fl.Base.Bytes.{u32_max}
use fl.Notification.{notification_wait}
use fl.Urb.{urb_submit}
use fl.Register.{read_request, write_request}
use fl.Device.{Device, UrbContext, error_check}
use fl.Base.Int.{ℤ, is_neg, enodev}
use fl.Kernel.{Kernel, register_read_event, urb_event}
use fl.Base.{ap, ℕ, List, Option, ◌≡◌, none, some, ◌∷◌, [], false, if◌then◌else◌, ◌⊎◌, true, ap}

-- The first failure of some steps.
unfoldable pub first_failure : List ℤ → Option ℤ
first_failure [] = none
first_failure (s ∷ rest) = if is_neg s then some s else first_failure rest

-- How an access ends, told by the statuses of its steps: with `value` and a status of zero or more
-- where none failed; else with the status of the first that failed, all ones for the data, and the
-- error flag of the register path set, with which the check of the device fails.
abbrev pub Ended : List ℤ → ℕ → Device × ℕ × ℤ → Type 0
Ended steps value r =
    ((first_failure steps ≡ none) × (is_neg r.2 ≡ false) × (r.1 ≡ value))
    ⊎ ((e : ℤ) × (first_failure steps ≡ some e)
        × (r.2 ≡ e)
        × (r.1 ≡ u32_max)
        × (r.0.error_flags.embedded_register_error ≡ true)
        × (error_check r.0 ≡ enodev))

module _ (k : Kernel) (first second : Device → Device) (id address : ℕ) (u : UrbContext)
    (d : Device) where
  -- The submission and the two waits of a read.
  abbrev pub read_sent : Device × ℤ
  read_sent = urb_submit k id (read_request id address d)

  abbrev pub read_completed : Device × ℤ
  read_completed = notification_wait k first (urb_event id) read_sent.0

  abbrev pub read_answered : Device × ℤ
  read_answered = notification_wait k second register_read_event read_completed.0

module _ (k : Kernel) (meanwhile : Device → Device) (id address value : ℕ) (u : UrbContext)
    (d : Device) where
  -- The submission and the wait of a write.
  abbrev pub write_sent : Device × ℤ
  write_sent = urb_submit k id (write_request id address value d)

  abbrev pub write_completed : Device × ℤ
  write_completed = notification_wait k meanwhile (urb_event id) write_sent.0
