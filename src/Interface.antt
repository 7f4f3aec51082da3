-- ===== src/Interface.antt =====
-- ehub_usb.c: the three interfaces of the device, and their suspend and resume, which
-- `MODULE_Suspend` and `MODULE_Resume` (ehub_module.c) call for the interface of number 0.
use fl.Loop.{
  stop_loop_interrupt, init_loop_isoch, stop_loop_bulk, start_loop_interrupt, free_loop_isoch,
  start_loop_bulk, stop_loop_isoch, start_loop_isoch, isoch_running,
}
use fl.Base.Int.{ℤ, pos, is_neg}
use fl.Device.{Device, record_call, error_check}
use fl.Kernel.{Kernel, usb_set_interface}
use fl.Base.{none, some, ℕ, Bool, if◌then◌else◌, not, ◌==◌, false, ltb}

-- `usb_set_interface`, with the number of the interface and of its alternate setting.
abbrev pub set_interface : Kernel → ℕ → ℕ → Device → Device × ℤ
set_interface k number setting d =
    let d₁ = record_call (usb_set_interface number setting) d in (d₁, k.interfaces d₁.history)

-- `USB_InterfaceCreateBulk`
unfoldable pub interface_create_bulk : Kernel → Device → Device × ℤ
interface_create_bulk k d =
    let (d₁, status) = set_interface k 0 0 d in
    if is_neg status then (d₁, status) else start_loop_bulk k d₁

-- `USB_InterfaceCreateInterrupt`
unfoldable pub interface_create_interrupt : Kernel → Device → Device × ℤ
interface_create_interrupt k d =
    let (d₁, status) = set_interface k 2 2 d in
    if is_neg status then (d₁, status) else start_loop_interrupt k d₁

-- `USB_InterfaceCreateIsoch`: a failure to make the contexts frees those that were made.
unfoldable pub interface_create_isoch : Kernel → Device → Device × ℤ
interface_create_isoch k d =
    let (d₁, status) = set_interface k 1 1 d in
    let (d₂, status') = init_loop_isoch k d₁ in
    if is_neg status
    then (d₁, status)
    else if is_neg status'
    then (free_loop_isoch d₂, status')
    else (d₂, status')

-- `USB_InterfaceDestroyBulk`, `USB_InterfaceDestroyInterrupt` and `USB_InterfaceDestroyIsoch`
unfoldable pub interface_destroy_bulk : Device → Device × ℤ
interface_destroy_bulk d = (stop_loop_bulk d, pos 0)

unfoldable pub interface_destroy_interrupt : Device → Device × ℤ
interface_destroy_interrupt d = (stop_loop_interrupt d, pos 0)

unfoldable pub interface_destroy_isoch : Device → Device × ℤ
interface_destroy_isoch d = (free_loop_isoch (stop_loop_isoch d), pos 0)

-- `USB_InterfaceSuspendBulk`, `USB_InterfaceSuspendInterrupt` and `USB_InterfaceSuspendIsoch`
unfoldable pub interface_suspend_bulk : Device → Device × ℤ
interface_suspend_bulk d = (stop_loop_bulk d, pos 0)

unfoldable pub interface_suspend_interrupt : Device → Device × ℤ
interface_suspend_interrupt d = (stop_loop_interrupt d, pos 0)

unfoldable pub interface_suspend_isoch : Device → Device × ℤ
interface_suspend_isoch d = (if isoch_running d then stop_loop_isoch d else d, pos 0)

-- `USB_InterfaceResumeBulk`, `USB_InterfaceResumeInterrupt` and `USB_InterfaceResumeIsoch`
unfoldable pub interface_resume_bulk : Kernel → Device → Device × ℤ
interface_resume_bulk k d = start_loop_bulk k d

unfoldable pub interface_resume_interrupt : Kernel → Device → Device × ℤ
interface_resume_interrupt k d = start_loop_interrupt k d

-- Whether `num_active_isoc_eps` is not zero.
abbrev pub has_active_isoc_eps : Device → Bool
has_active_isoc_eps d = elim d.xhci_hcd [ none ↦ false | some x ↦ ltb 0 x.num_active_isoc_eps ]

unfoldable pub interface_resume_isoch : Kernel → Device → Device × ℤ
interface_resume_isoch k d = if has_active_isoc_eps d then start_loop_isoch k d else (d, pos 0)

-- What `MODULE_Suspend` and `MODULE_Resume` do for an interface: only number 0 counts, and only of
-- a device without errors; the steps go on until one of them fails.
abbrev pub guarded : ℕ → Device → Device × ℤ → Device × ℤ
guarded number d r =
    if not (number == 0)
    then (d, pos 0)
    else if is_neg (error_check d)
    then (d, error_check d)
    else r

-- `MODULE_Suspend`
unfoldable pub module_suspend : ℕ → Device → Device × ℤ
module_suspend number d =
    let (d₁, s₁) = interface_suspend_bulk d in
    let (d₂, s₂) = interface_suspend_isoch d₁ in
    let r₃ = interface_suspend_interrupt d₂ in
    guarded number d (if is_neg s₁ then (d₁, s₁) else if is_neg s₂ then (d₂, s₂) else r₃)

-- `MODULE_Resume`, and `MODULE_ResetResume`, which has the same text.
unfoldable pub module_resume : Kernel → ℕ → Device → Device × ℤ
module_resume k number d =
    let (d₁, s₁) = interface_resume_bulk k d in
    let (d₂, s₂) = interface_resume_isoch k d₁ in
    let r₃ = interface_resume_interrupt k d₂ in
    guarded number d (if is_neg s₁ then (d₁, s₁) else if is_neg s₂ then (d₂, s₂) else r₃)
