-- ===== src/Register.antt =====
-- ehub_embedded_register.c, and `ehub_xhci_doorbell_expand` of ehub_module.c: register accesses
-- of the embedded host controller, sent as URBs.
pub mod Access
pub mod Doorbell
pub mod Outcome
use fl.Base.{
  ℕ, suc, ◌+◌, ◌-◌, ◌*◌, ◌%◌, ◌<◌, zero, Bool, true, false, not, ◌||◌, Option, none, some, List, [],
  ◌∷◌, ◌++◌, ◌==◌, leb, ltb, if◌then◌else◌, length,
}
use fl.Base.Int.{ℤ, pos, is_neg, einval, eshutdown, enobufs}
use fl.Base.Bytes.{le32, u32_max, overwrite}
use fl.Base.Chain.{remove}
use fl.Kernel.{Kernel, Event, urb_event, register_read_event}
use fl.Device.{
  Device, UrbContext, Routine, simple, doorbell, Pipe, interrupt_out, Fault, freed_pointer,
  out_of_bounds, null_pointer, add_fault, error_check,
}
use fl.Urb.{put_urb, urb_create, urb_submit}
use fl.Notification.{notification_wait, notification_reset}

-- `EMBEDDED_REGISTER_COMMAND`, packed from the low bit on: Read 1, Write 1, reserved 3,
-- RegAccess 1, TrafficClass 2, ByteEnables 8, Address 16. A bit-field keeps the low bits.
abbrev pub bit : Bool → ℕ
bit true = 1
bit false = 0

abbrev pub register_command : Bool → Bool → ℕ → ℕ → ℕ
register_command read write byte_enables address =
    bit read + 2 * bit write + 32 + 256 * (byte_enables % 256) + 65536 * (address % 65536)

-- `memcpy` into the buffer of a URB context.
unfoldable pub write_buffer : ℕ → ℕ → List ℕ → Device → Device
write_buffer id off bs d = elim (d.urbs id) [
  | none ↦ add_fault freed_pointer d
  | some u ↦
      if leb (off + length bs) (length u.data_buffer)
      then put_urb id (some (record u { data_buffer = overwrite off bs u.data_buffer })) d
      else add_fault out_of_bounds d
]

-- `DeviceContext->ErrorFlags.EmbeddedRegisterError = 1`
abbrev pub register_error : Device → Device
register_error d = record d {
  error_flags = record (d.error_flags) { embedded_register_error = true };
}

-- The failed end of a read or write: all ones for the data, and the error is kept.
abbrev pub register_fail : Device → ℤ → Device × ℕ × ℤ
register_fail d status = (register_error d, u32_max, status)

-- The end of `EMBEDDED_REGISTER_Read`, after the URB was submitted: the URB's completion, and
-- then the response message, each waited for.
unfoldable pub read_response :
    Kernel → (Device → Device) → (Device → Device) → ℕ → Device → Device × ℕ × ℤ
read_response k first second id d =
    let (d₁, sent) = notification_wait k first (urb_event id) d in
    let (d₂, answered) = notification_wait k second register_read_event d₁ in
    if is_neg sent
    then register_fail d₁ sent
    else if is_neg answered
    then register_fail d₂ answered
    else (d₂, d₂.data_embedded_register_read, answered)

-- The command of a read goes into the buffer, and both events are reset.
unfoldable pub read_request : ℕ → ℕ → Device → Device
read_request id address d = notification_reset register_read_event (
    notification_reset (urb_event id)
      (write_buffer id 0 (le32 (register_command true false 0x0f address)) d))

-- The body of `EMBEDDED_REGISTER_Read`, with its URB context.
unfoldable pub read_with :
    Kernel → (Device → Device) → (Device → Device) → ℕ → ℕ → Device → Device × ℕ × ℤ
read_with k first second id address d =
    let (d₁, status) = urb_submit k id (read_request id address d) in
    if is_neg status then register_fail d₁ status else read_response k first second id d₁

-- `EMBEDDED_REGISTER_Read`, with its `*Data` and its status. The semaphore around it makes it one
-- call at a time; `first` and `second` are what runs during the two waits.
unfoldable pub embedded_register_read :
    Kernel → (Device → Device) → (Device → Device) → ℕ → Device → Device × ℕ × ℤ
embedded_register_read k first second address d = elim d.urb_context_embedded_register_read [
  | none ↦ register_fail d eshutdown
  | some id ↦ read_with k first second id address d
]

-- The command and the value of a write go into the buffer.
unfoldable pub write_request : ℕ → ℕ → ℕ → Device → Device
write_request id address value d =
    write_buffer id 4 (le32 value)
      (write_buffer id 0 (le32 (register_command false true 0xff address)) d)

-- The body of `EMBEDDED_REGISTER_Write`, with its URB context.
unfoldable pub write_with : Kernel → (Device → Device) → ℕ → ℕ → ℕ → Device → Device × ℕ × ℤ
write_with k meanwhile id address value d =
    let (d₁, status) = urb_submit k id (write_request id address value d) in
    let (d₂, sent) = notification_wait k meanwhile (urb_event id) d₁ in
    if is_neg status
    then register_fail d₁ status
    else if is_neg sent
    then register_fail d₂ sent
    else (d₂, value, sent)

-- `EMBEDDED_REGISTER_Write`, with `*Data` after it and its status.
unfoldable pub embedded_register_write :
    Kernel → (Device → Device) → ℕ → ℕ → Device → Device × ℕ × ℤ
embedded_register_write k meanwhile address value d = elim d.urb_context_embedded_register_write [
  | none ↦ (add_fault null_pointer d, value, eshutdown)
  | some id ↦ write_with k meanwhile id address value d
]

-- `ehub_xhci_doorbell_expand`: new contexts at the end of the free list, until one cannot be
-- made; the number made.
unfoldable pub doorbell_expand : Kernel → ℕ → Device → Device × ℕ
doorbell_expand k zero d = (d, 0)
doorbell_expand k (suc entries) d =
    let (d₁, made) = urb_create k interrupt_out 8 doorbell d in
    elim made [
      | none ↦ (d₁, 0)
      | some id ↦
          let (d₂, more) =
            doorbell_expand k entries
              (record d₁ { doorbell_list_free = d₁.doorbell_list_free ++ id ∷ [] }) in
          (d₂, suc more)
    ]

-- `list_move_tail(&urbContext->list, &DeviceContext->doorbell_list_busy)`
unfoldable pub doorbell_claim : ℕ → Device → Device
doorbell_claim id d = record d {
  doorbell_list_free = remove id d.doorbell_list_free;
  doorbell_list_busy = remove id d.doorbell_list_busy ++ id ∷ [];
}

-- The doorbell write with the context `id` taken from the free list.
unfoldable pub doorbell_send : Kernel → ℕ → ℕ → ℕ → Device → Device × ℕ × ℤ
doorbell_send k id address value d =
    let (d₁, status) = urb_submit k id (write_request id address value (doorbell_claim id d)) in
    if is_neg status then register_fail d₁ status else (d₁, value, status)

-- The first context of the free list is used. After an expansion that made one the list is not empty.
unfoldable pub doorbell_first : Kernel → ℕ → ℕ → Device → Device × ℕ × ℤ
doorbell_first k address value d = elim d.doorbell_list_free [
  | [] ↦ (add_fault out_of_bounds d, value, einval)
  | id ∷ _ ↦ doorbell_send k id address value d
]

-- `EMBEDDED_REGISTER_Write_Doorbell`: nobody waits for it, so the context stays busy until the
-- completion routine frees it.
unfoldable pub write_doorbell : Kernel → ℕ → ℕ → Device → Device × ℕ × ℤ
write_doorbell k address value d = elim d.doorbell_list_free [
  | [] ↦
      let (d₁, new_entries) = doorbell_expand k 4 d in
      if ltb new_entries 1 then (d₁, value, enobufs) else doorbell_first k address value d₁
  | _ ↦ doorbell_first k address value d
]

-- `ehub_xhci_readl`: all ones where the device is in error.
unfoldable pub ehub_xhci_readl :
    Kernel → (Device → Device) → (Device → Device) → ℕ → Device → Device × ℕ
ehub_xhci_readl k first second address d =
    let (d₁, value, status) = embedded_register_read k first second address d in
    if is_neg (error_check d)
    then (d, u32_max)
    else if is_neg status
    then (d₁, u32_max)
    else (d₁, value)

-- `ehub_xhci_writel`
unfoldable pub ehub_xhci_writel : Kernel → (Device → Device) → ℕ → ℕ → Device → Device
ehub_xhci_writel k meanwhile value address d =
    if is_neg (error_check d) then d else (embedded_register_write k meanwhile address value d).0

-- `ehub_xhci_writel_doorbell`
unfoldable pub ehub_xhci_writel_doorbell : Kernel → ℕ → ℕ → Device → Device
ehub_xhci_writel_doorbell k value address d =
    if is_neg (error_check d) then d else (write_doorbell k address value d).0
