-- ===== src/Device.antt =====
-- ehub_device_context.h and ehub_device_context.c: the state of the device, and its error check.
pub mod Health
use fl.Base.{
  ℕ, ◌+◌, ◌≡◌, refl, Bool, true, false, not, ◌||◌, Option, none, some, List, [], ◌∷◌, ◌==◌,
  if◌then◌else◌,
}
use fl.Base.Int.{ℤ, pos, enodev}
use fl.Kernel.{Call, Event}

-- `interface->condition`, Linux's `enum usb_interface_condition`.
pub data Condition : Type 0 where
  unbound binding bound unbinding : Condition

-- Each flag is a `u32` that the driver only ever sets to 1.
pub record ErrorFlags : Type 0 where
  pub urb_context_allocation_error : Bool
  pub usb_allocate_urb_error : Bool
  pub usb_allocate_coherent_error : Bool
  pub embedded_register_error : Bool
  pub embedded_cache_write_error : Bool

-- The fields of `struct xhci_hcd` that the embedded hub code reads through the device context.
pub record XhciFlags : Type 0 where
  pub dying : Bool
  pub isoch_in_running : Bool
  pub num_active_isoc_eps : ℕ

pub data Pipe : Type 0 where
  bulk_in bulk_out interrupt_in interrupt_out isoch_in : Pipe

-- The function that the kernel calls when a URB is done, with its context argument.
pub data Routine : Type 0 where
  get_message simple doorbell : Routine
  cache_write : ℕ → Routine

-- `URB_STATUS_*`
pub data UrbStatus : Type 0 where
  status_none status_free status_submitted status_complete status_submit_error : UrbStatus

-- `URB_CONTEXT`, with the fields of its URB that the driver sets. A buffer is a list of bytes.
pub record UrbContext : Type 0 where
  pub pipe : Pipe
  pub routine : Routine
  pub number_of_packets : ℕ
  pub data_buffer : List ℕ
  pub data_buffer_length : ℕ
  pub transfer_buffer_length : ℕ
  pub urb_completion_status : ℤ
  pub actual_length : ℕ
  pub status : UrbStatus

-- What C leaves undefined, and a lock that is taken twice.
pub data Fault : Type 0 where
  null_pointer freed_pointer out_of_bounds deadlock bad_shift breakpoint : Fault

-- `WORK_ITEM_CONTEXT`: every one that is queued handles a message, and carries its bytes.
pub record WorkItem : Type 0 where
  pub data_buffer : List ℕ
  pub data_buffer_length : ℕ

-- `DEVICE_CONTEXT`. URB contexts live in a store: `none` is memory that is free.
pub record Device : Type 0 where
  pub interface_backup : Option Condition
  pub xhci_hcd : Option XhciFlags
  pub is_usb_hcd_invalid : Bool
  -- `UsbDevice->state == USB_STATE_NOTATTACHED`
  pub not_attached : Bool
  pub error_flags : ErrorFlags
  pub is_ehub_xhci_init_ready : Bool
  pub doorbell_list_free : List ℕ
  pub doorbell_list_busy : List ℕ
  pub work_item_processing_queue : List WorkItem
  pub number_of_work_item_in_processing_queue : ℕ
  pub data_embedded_register_read : ℕ
  pub last_uframe_cnt : ℕ
  pub urb_context_embedded_register_read : Option ℕ
  pub urb_context_embedded_register_write : Option ℕ
  pub urb_context_embedded_memory_read_completion : List (Option ℕ)
  pub current_embedded_memory_read_completion_index : ℕ
  pub urb_context_message_bulk : List (Option ℕ)
  pub urb_context_message_interrupt : List (Option ℕ)
  pub urb_context_message_isoch : List (Option ℕ)
  -- whether the delayed work `stop_isoch_work` is pending
  pub stop_isoch_pending : Bool
  pub urbs : ℕ → Option UrbContext
  pub next_urb : ℕ
  -- the calls of the kernel, latest first, and what went wrong, latest first
  pub history : List Call
  pub faults : List Fault

abbrev pub number_of_message_bulk : ℕ
number_of_message_bulk = 8

abbrev pub number_of_message_interrupt : ℕ
number_of_message_interrupt = 8

abbrev pub number_of_message_isoch : ℕ
number_of_message_isoch = 6

abbrev pub number_of_message_isoch_pkt : ℕ
number_of_message_isoch_pkt = 16

abbrev pub ehub_min_valid_vaddr : ℕ
ehub_min_valid_vaddr = 0x0010_0000

-- A call is put on record.
abbrev pub record_call : Call → Device → Device
record_call c d = record d { history = c ∷ d.history }

abbrev pub add_fault : Fault → Device → Device
add_fault f d = record d { faults = f ∷ d.faults }

abbrev pub no_errors : ErrorFlags
no_errors = record {
  urb_context_allocation_error = false;
  usb_allocate_urb_error = false;
  usb_allocate_coherent_error = false;
  embedded_register_error = false;
  embedded_cache_write_error = false;
}

-- `condition == USB_INTERFACE_BOUND || condition == USB_INTERFACE_BINDING`
abbrev pub is_bound : Condition → Bool
is_bound bound = true
is_bound binding = true
is_bound _ = false

-- `xhci_is_dying_safe`: no host controller counts as dying.
unfoldable pub xhci_is_dying_safe : Device → Bool
xhci_is_dying_safe d = elim d.xhci_hcd [ none ↦ true | some x ↦ x.dying ]

-- `DEVICECONTEXT_ErrorCheck` of a context that is there.
unfoldable pub error_check : Device → ℤ
unfolding xhci_is_dying_safe
error_check d = elim d.interface_backup [
  | none ↦ enodev
  | some condition ↦
      if not (is_bound condition)
      then enodev
      else if xhci_is_dying_safe d
      then enodev
      else if d.is_usb_hcd_invalid
      then enodev
      else if d.not_attached
      then enodev
      else if d.error_flags.urb_context_allocation_error
      then enodev
      else if d.error_flags.embedded_register_error
      then enodev
      else if d.error_flags.embedded_cache_write_error
      then enodev
      else pos 0
]
