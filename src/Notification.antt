-- ===== src/Notification.antt =====
-- ehub_notification.c: waiting for a completion, and what runs meanwhile.
use fl.Base.{if◌then◌else◌, zero}
use fl.Base.Int.{ℤ, pos, negsuc, is_neg, einval, eshutdown, etimedout}
use fl.Kernel.{Kernel, Event, wait_for_completion, init_completion, complete}
use fl.Device.{Device, record_call, error_check}

-- The status that the jiffies left stand for.
abbrev pub wait_status : ℤ → ℤ
wait_status (pos zero) = etimedout
wait_status (pos n) = pos 0
wait_status (negsuc n) = einval

-- `NOTIFICATION_Wait`. The caller sleeps: `meanwhile` is what the work queue and the interrupt
-- handlers do to the device before it wakes.
unfoldable pub notification_wait : Kernel → (Device → Device) → Event → Device → Device × ℤ
notification_wait k meanwhile event d =
    if is_neg (error_check d)
    then (d, eshutdown)
    else let d' = meanwhile (record_call (wait_for_completion event) d) in
      (d', wait_status (k.waits d'.history))

-- `NOTIFICATION_Reset`
abbrev pub notification_reset : Event → Device → Device
notification_reset event d = record_call (init_completion event) d

-- `NOTIFICATION_Notify`
abbrev pub notification_notify : Event → Device → Device
notification_notify event d = record_call (complete event) d
