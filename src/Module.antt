-- ===== src/Module.antt =====
-- ehub_module.c: the device is connected and disconnected; with DEVICECONTEXT_Create and
-- DEVICECONTEXT_Destroy of ehub_device_context.c, and ehub_xhci_add and ehub_xhci_remove of xhci-ehub.c.
pub mod Leak
use fl.Base.{
  ℕ, zero, suc, Bool, true, false, not, List, [], ◌∷◌, Option, none, some, if◌then◌else◌, ◌==◌,
  replicate, ◌-◌,
}
use fl.Base.Int.{ℤ, pos, is_neg, enodev, enomem, eqb_ℤ}
use fl.Kernel.{Kernel, Call, kzalloc, kfree}
use fl.Device.{
  Device, XhciFlags, binding, unbinding, record_call, add_fault, null_pointer, no_errors, bulk_out,
  simple,
}
use fl.Urb.{urb_create, urb_destroy}
use fl.Register.{doorbell_expand}
use fl.Xhci.{Xhci, on_device}
use fl.Cache.{cache_create}
use fl.Cache.Destroy.{cache_destroy}
use fl.Interface.{
  interface_create_bulk, interface_create_interrupt, interface_create_isoch, interface_destroy_bulk,
  interface_destroy_interrupt, interface_destroy_isoch,
}
use fl.Loop.{message_size_bulk}

-- What the USB core answers, and what it has the driver do while the host controller is added, and
-- while it is declared dead and removed. `get_configuration` gives its status and the number of the configuration.
pub record Usb : Type 0 where
  pub kernel : Kernel
  pub meanwhile : Device → Device
  pub disabled : Bool
  pub creates_hcd : List Call → Bool
  pub add_hcd : List Call → ℤ
  pub while_adding : Xhci → Xhci
  pub while_removing : Xhci → Xhci
  pub get_configuration : List Call → ℤ × ℕ
  pub set_configuration : List Call → ℤ

-- The driver's memory for one device: its context, which is `xhci.device`, the host controller, and
-- what is held of the USB core. `none` for a queue is NULL.
pub record Module : Type 0 where
  pub xhci : Xhci
  pub context_allocated : Bool
  pub work_item_queue : Bool
  pub xhci_allocated : Bool
  pub hcd_allocated : Bool
  pub usb_device_refs : ℕ

abbrev pub on_context : (Device → Device) → Module → Module
on_context f m = record m { xhci = on_device f m.xhci }

-- A step of the device, with its status.
abbrev pub with_context : (Device → Device × ℤ) → Module → Module × ℤ
with_context f m = let (d, status) = f m.xhci.device in (on_context (λ _. d) m, status)

-- A context as `kzalloc` leaves it: nothing but the store of URB contexts and the record of calls is
-- kept.
abbrev pub zeroed : Device → Device
zeroed d = record d {
  interface_backup = none;
  xhci_hcd = none;
  is_usb_hcd_invalid = false;
  error_flags = no_errors;
  is_ehub_xhci_init_ready = false;
  doorbell_list_free = [];
  doorbell_list_busy = [];
  work_item_processing_queue = [];
  number_of_work_item_in_processing_queue = 0;
  data_embedded_register_read = 0;
  last_uframe_cnt = 0;
  urb_context_embedded_register_read = none;
  urb_context_embedded_register_write = none;
  urb_context_embedded_memory_read_completion = replicate 8 none;
  current_embedded_memory_read_completion_index = 0;
  urb_context_message_bulk = replicate 8 none;
  urb_context_message_interrupt = replicate 8 none;
  urb_context_message_isoch = replicate 6 none;
  stop_isoch_pending = false;
}

-- `DEVICECONTEXT_Create`, with whether a context is returned. Where the work queue cannot be made the
-- context is not freed.
unfoldable pub device_context_create : Usb → Module → Module × Bool
device_context_create u m =
    let m₁ = on_context (record_call kzalloc) m in
    let m₂ = record (on_context zeroed m₁) { context_allocated = true } in
    let m₃ = on_context (record_call kzalloc) m₂ in
    if not (u.kernel.allocates m₁.xhci.device.history)
    then (m₁, false)
    else if not (u.kernel.allocates m₃.xhci.device.history)
    then (m₃, false)
    else (record m₃ { work_item_queue = true }, true)

-- `DEVICECONTEXT_Destroy`
unfoldable pub device_context_destroy : Module → Module
device_context_destroy m = record (on_context (record_call kfree) m) {
  work_item_queue = false;
  context_allocated = false;
}

-- `ehub_xhci_add`, behind the allocations: the cache, and the host controller for the USB core. On a
-- failure the host controller's memory is freed, but `UsbContext.xhci_hcd` and the `hcd` stay.
unfoldable pub xhci_add_cached : Usb → Module → Module × ℤ
xhci_add_cached u m =
    let (x₁, status) = cache_create u.kernel u.meanwhile m.xhci in
    let x₂ = u.while_adding x₁ in
    let added = u.add_hcd x₁.device.history in
    let failed =
      λ (x : Xhci). record m { xhci = on_device (record_call kfree) x; xhci_allocated = false } in
    if not (eqb_ℤ status (pos 0))
    then (failed x₁, status)
    else if not (eqb_ℤ added (pos 0))
    then (failed (cache_destroy x₂), added)
    else (record m { xhci = x₂ }, pos 0)

abbrev pub new_flags : XhciFlags
new_flags = record { dying = false; isoch_in_running = false; num_active_isoc_eps = 0 }

-- `ehub_xhci_add`
unfoldable pub xhci_add : Usb → Module → Module × ℤ
xhci_add u m =
    let m₁ = record m { hcd_allocated = true } in
    let m₂ = on_context (record_call kzalloc) m₁ in
    let m₃ = record (on_context (λ d. record d { xhci_hcd = some new_flags }) m₂) {
      xhci_allocated = true;
    } in
    if u.disabled
    then (m, enodev)
    else if not (u.creates_hcd m.xhci.device.history)
    then (m, enomem)
    else if not (u.kernel.allocates m₂.xhci.device.history)
    then (m₂, enomem)
    else xhci_add_cached u m₃

-- `ehub_xhci_remove`
unfoldable pub xhci_remove : Usb → Module → Module
xhci_remove u m =
    let x₁ = on_device (record_call kfree) (cache_destroy (u.while_removing m.xhci)) in
    record m {
      xhci = on_device (λ d. record d { is_usb_hcd_invalid = true }) x₁;
      xhci_allocated = false;
      hcd_allocated = false;
    }

-- A URB context of the connection, for the bulk pipe out.
abbrev pub make_urb : Kernel → ℕ → (Option ℕ → Device → Device) → Device → Device
make_urb k len keep d = let (d₁, urb) = urb_create k bulk_out len simple d in keep urb d₁

-- The contexts for the completions of memory reads, `n` of them.
unfoldable pub make_completions : Kernel → ℕ → Device → Device × List (Option ℕ)
make_completions k zero d = (d, [])
make_completions k (suc n) d =
    let (d₁, urb) = urb_create k bulk_out message_size_bulk simple d in
    let (d₂, urbs) = make_completions k n d₁ in (d₂, urb ∷ urbs)

-- All URB contexts that the connection makes.
unfoldable pub make_urbs : Kernel → Device → Device
make_urbs k d =
    let d₁ = make_urb k 8 (λ urb e. record e { urb_context_embedded_register_read = urb }) d in
    let d₂ = make_urb k 8 (λ urb e. record e { urb_context_embedded_register_write = urb }) d₁ in
    let (d₃, urbs) = make_completions k 8 (doorbell_expand k 32 d₂).0 in
    record d₃ {
      urb_context_embedded_memory_read_completion = urbs;
      current_embedded_memory_read_completion_index = 0;
    }

-- A failed step of the connection: the reference to the USB device and the context are given back.
unfoldable pub give_up : ℤ → Module → Module × ℤ
give_up status m =
    (device_context_destroy (record m { usb_device_refs = m.usb_device_refs - 1 }), status)

-- One step of the connection, and the next ones where it does not fail.
unfoldable pub or_give_up : Module × ℤ → (Module → Module × ℤ) → Module × ℤ
or_give_up (m, status) next = if is_neg status then give_up status m else next m

-- The steps behind the configuration.
unfoldable pub start_up : Usb → Module → Module × ℤ
start_up u m =
    or_give_up (with_context (interface_create_bulk u.kernel) (on_context (make_urbs u.kernel) m))
      (λ m₁. or_give_up (with_context (interface_create_interrupt u.kernel) m₁) (λ m₂.
        or_give_up (xhci_add u m₂) (λ m₃.
          or_give_up (with_context (interface_create_isoch u.kernel) m₃) (λ m₄. (m₄, pos 0)))))

-- The device is put into configuration 1, if it is in none. The memory for the number is used
-- unchecked.
unfoldable pub configure : Usb → Module → Module × ℤ
configure u m =
    let m₁ = on_context (record_call kzalloc) m in
    let faulty = on_context (add_fault null_pointer) m₁ in
    let m₂ = if u.kernel.allocates m₁.xhci.device.history then m₁ else faulty in
    let (status, current) = u.get_configuration m₂.xhci.device.history in
    let m₃ = on_context (record_call kfree) m₂ in
    if is_neg status
    then (m₃, status)
    else if current == 0
    then (m₃, u.set_configuration m₂.xhci.device.history)
    else (m₃, pos 0)

-- `MODULE_UsbInterfaceConnect`. The interface is being bound while it runs.
unfoldable pub connect : Usb → ℕ → Module → Module × ℤ
connect u number m =
    let (m₁, created) = device_context_create u m in
    let m₂ = record (on_context (λ d. record d { interface_backup = some binding }) m₁) {
      usb_device_refs = suc m₁.usb_device_refs;
    } in
    if not (number == 0)
    then (m, pos 0)
    else if not created
    then (m₁, enomem)
    else or_give_up (configure u m₂) (start_up u)

-- URB contexts are destroyed, one after the other.
unfoldable pub destroy_all : List ℕ → Device → Device
destroy_all [] d = d
destroy_all (urb ∷ urbs) d = destroy_all urbs (urb_destroy (some urb) d)

unfoldable pub destroy_slots : List (Option ℕ) → Device → Device
destroy_slots [] d = d
destroy_slots (urb ∷ urbs) d = destroy_slots urbs (urb_destroy urb d)

-- `Cleanup` of the disconnection: the doorbells, busy and free, the completions of memory reads, and
-- the two contexts for registers.
unfoldable pub cleanup : Device → Device
cleanup d =
    let d₁ = destroy_all d.doorbell_list_busy d in
    let d₂ = destroy_all d₁.doorbell_list_free d₁ in
    let d₃ = destroy_slots d₂.urb_context_embedded_memory_read_completion d₂ in
    let d₄ = urb_destroy d₃.urb_context_embedded_register_read d₃ in
    let d₅ = urb_destroy d₄.urb_context_embedded_register_write d₄ in
    record d₅ {
      urb_context_embedded_memory_read_completion = replicate 8 none;
      urb_context_embedded_register_read = none;
      urb_context_embedded_register_write = none;
    }

-- The device goes back into configuration 0; whether that fails makes no difference.
unfoldable pub unconfigure : Usb → Module → Module
unconfigure u m =
    let m₁ = on_context (record_call kzalloc) m in
    let faulty = on_context (add_fault null_pointer) m₁ in
    let m₂ = if u.kernel.allocates m₁.xhci.device.history then m₁ else faulty in
    if m.xhci.device.not_attached then m else on_context (record_call kfree) m₂

-- `MODULE_UsbInterfaceDisconnect`
unfoldable pub disconnect : Usb → ℕ → Module → Module
disconnect u number m =
    let died = on_context (λ d. record d { interface_backup = some unbinding }) m in
    let m₁ = record (xhci_remove u died) { work_item_queue = false } in
    let m₂ = (with_context interface_destroy_isoch m₁).0 in
    let m₃ = (with_context interface_destroy_bulk m₂).0 in
    let m₄ = (with_context interface_destroy_interrupt m₃).0 in
    let m₅ = on_context cleanup (unconfigure u m₄) in
    let m₆ = device_context_destroy (record m₅ { usb_device_refs = m₅.usb_device_refs - 1 }) in
    if number == 0 then m₆ else m
