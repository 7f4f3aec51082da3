-- ===== src/Device/Health.antt =====
-- `DEVICECONTEXT_ErrorCheck` against a description of the devices that may be used.
use fl.Base.{◌≡◌, ◌↔◌, ◌⊎◌, false, Option, none, some, arith}
use fl.Base.Int.{pos, enodev}
use fl.Device.{Device, XhciFlags, bound, binding, error_check}

-- The host controller is there and not dying.
abbrev pub IsAlive : Option XhciFlags → Type 0
IsAlive none = ⊥
IsAlive (some x) = x.dying ≡ false

-- A device that may be used: its interface is bound or being bound, its host controller is there
-- and alive, the device is attached, and none of the three fatal errors has happened.
pub record IsHealthy (d : Device) : Type 0 where
  pub usable : (d.interface_backup ≡ some bound) ⊎ (d.interface_backup ≡ some binding)
  pub alive : IsAlive d.xhci_hcd
  pub valid_hcd : d.is_usb_hcd_invalid ≡ false
  pub attached : d.not_attached ≡ false
  pub no_allocation_error : d.error_flags.urb_context_allocation_error ≡ false
  pub no_register_error : d.error_flags.embedded_register_error ≡ false
  pub no_cache_error : d.error_flags.embedded_cache_write_error ≡ false

IsHealthy-error_check : (d : Device) → IsHealthy d → error_check d ≡ pos 0
unfolding error_check
IsHealthy-error_check d h = ground arith

error_check-IsHealthy : (d : Device) → error_check d ≡ pos 0 → IsHealthy d
unfolding error_check
error_check-IsHealthy d h = record {
  usable = ground arith;
  alive = ground arith;
  valid_hcd = ground arith;
  attached = ground arith;
  no_allocation_error = ground arith;
  no_register_error = ground arith;
  no_cache_error = ground arith;
}

-- `DEVICECONTEXT_ErrorCheck` gives 0 for exactly the devices that may be used, and -ENODEV for all
-- others.
pub error_check_lem :
    (d : Device)
    → ((error_check d ≡ pos 0) ↔ IsHealthy d) × ((error_check d ≡ pos 0) ⊎ (error_check d ≡ enodev))
unfolding error_check
error_check_lem d = ((error_check-IsHealthy d, IsHealthy-error_check d), ground arith)
