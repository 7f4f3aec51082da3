-- ===== src/Message.antt =====
-- ehub_message.c: the messages that the device sends, their parsing, and their handlers. A handler
-- gets the bytes from its header on, up to the end of the buffer.
pub mod Parsing
pub mod Frames
use fl.Register.{write_buffer}
use fl.Urb.{urb_submit, put_urb}
use fl.Notification.{notification_notify}
use fl.Base.Bytes.{u32_at}
use fl.Device.{
  Device, record_call, number_of_message_bulk, ehub_min_valid_vaddr, add_fault, error_check,
  out_of_bounds, freed_pointer,
}
use fl.Kernel.{
  Kernel, xhci_handle_event, register_read_event, probe_kernel_write, probe_kernel_read,
}
use fl.Base.{
  ℕ, if◌then◌else◌, ◌/◌, ◌+◌, Bool, List, false, leb, ◌%◌, ◌==◌, Option, ◌*◌, suc, true, length,
  not, none, drop, ltb, ◌^◌, take, some, get_elem?, zero,
}
use fl.Base.Int.{is_neg}

-- `MESSAGE_TYPE_*`
pub data MessageType : Type 0 where
  unknown memory_read_completion memory_write_completion register_read_completion event_trb :
      MessageType

-- The fields of `EMBEDDED_GENERIC_HEADER` and `EMBEDDED_MEMORY_COMMAND`: Read is bit 0, Write bit
-- 1, RegAccess bit 5, Length the bits from 8 on, RequestId the bits from 24 on.
abbrev pub header_read : ℕ → Bool
header_read w = w % 2 == 1

abbrev pub header_write : ℕ → Bool
header_write w = (w / 2) % 2 == 1

abbrev pub header_reg_access : ℕ → Bool
header_reg_access w = (w / 32) % 2 == 1

abbrev pub header_length : ℕ → ℕ
header_length w = (w / 256) % 65536

abbrev pub header_request_id : ℕ → ℕ
header_request_id w = (w / 16777216) % 8

-- `MEM_WR_TAG_EVT_MGR`
abbrev pub mem_wr_tag_evt_mgr : ℕ
mem_wr_tag_evt_mgr = 0

-- `MESSAGE_GetType`: the type and the length in bytes. A transfer header has twelve bytes, the
-- response to a register read sixteen.
unfoldable pub get_type : ℕ → MessageType × ℕ
get_type w =
    if header_reg_access w
    then (register_read_completion, 16)
    else if header_read w
    then (memory_read_completion, 12)
    else if header_write w
    then (
      if header_request_id w == mem_wr_tag_evt_mgr then event_trb else memory_write_completion,
      12 + header_length w,
    )
    else (unknown, 0)

-- `roundup( messageLength, 4 )`
abbrev pub roundup4 : ℕ → ℕ
roundup4 n = ((n + 3) / 4) * 4

-- A read of `n` bytes of the buffer, or the fault of a read past its end.
abbrev pub check_read : ℕ → List ℕ → Device → Device
check_read n buffer d = if leb n (length buffer) then d else add_fault out_of_bounds d

-- `trb_ptr_to_addr` of the second and the third word.
abbrev pub target_address : List ℕ → ℕ
target_address buffer = u32_at (drop 8 buffer) * 2 ^ 32 + u32_at (drop 4 buffer)

-- The end of the handler of a memory read: the bytes that were found go into the URB, and it is
-- sent.
unfoldable pub send_read : Kernel → ℕ → ℕ → Device → Device
send_read k id len d = elim (k.reads d.history) [
  | none ↦ d
  | some bytes ↦ (urb_submit k id (write_buffer id 4 (take len bytes) d)).0
]

-- The URB of a memory read: its length, its first word, and the read itself.
unfoldable pub fill_read : Kernel → ℕ → List ℕ → Device → Device
fill_read k id buffer d = elim (d.urbs id) [
  | none ↦ add_fault freed_pointer d
  | some u ↦
      let len = header_length (u32_at buffer) in
      let d₁ = put_urb id (some (record u { transfer_buffer_length = 4 + len })) d in
      let d₂ = write_buffer id 0 (take 4 buffer) d₁ in
      send_read k id len (record_call (probe_kernel_read (target_address buffer) len) d₂)
]

-- `MESSAGE_HandleMessage_EMBEDDED_MEMORY_READ_COMPLETION`: the contexts take turns.
unfoldable pub handle_memory_read : Kernel → List ℕ → Device → Device
handle_memory_read k buffer d =
    let index = d.current_embedded_memory_read_completion_index in
    let d₁ = record (check_read 12 buffer d) {
      current_embedded_memory_read_completion_index = (index + 1) % number_of_message_bulk;
    } in
    if is_neg (error_check d)
    then check_read 12 buffer d
    else elim (get_elem? d.urb_context_embedded_memory_read_completion index) [
      | none ↦ add_fault out_of_bounds d₁
      | some entry ↦ elim entry [ none ↦ d₁ | some id ↦ fill_read k id buffer d₁ ]
    ]

-- `MESSAGE_HandleMessage_EMBEDDED_EVENT_TRB`: the four words behind the header, whatever Length
-- says, and only once the host controller is set up.
unfoldable pub handle_event_trb : List ℕ → Device → Device
handle_event_trb buffer d =
    if d.is_ehub_xhci_init_ready
    then record_call (xhci_handle_event (take 16 (drop 12 buffer))) (check_read 28 buffer d)
    else d

abbrev pub mfindex_reg_address : ℕ
mfindex_reg_address = 0x2000

-- `MESSAGE_HandleMessage_EMBEDDED_REGISTER_READ_COMPLETION`. The clock that it reads beside the
-- frame count serves a debug line only.
unfoldable pub handle_register_read : List ℕ → Device → Device
handle_register_read buffer d =
    let value = u32_at (drop 12 buffer) in
    let d₁ = record (check_read 16 buffer d) { data_embedded_register_read = value } in
    notification_notify register_read_event (
      if u32_at (drop 4 buffer) == mfindex_reg_address
      then record d₁ { last_uframe_cnt = value }
      else d₁)

-- `MESSAGE_HandleMessage_EMBEDDED_MEMORY_WRITE_COMPLETION`: a target below the kernel's memory is
-- refused.
unfoldable pub handle_memory_write : List ℕ → Device → Device
handle_memory_write buffer d =
    let len = header_length (u32_at buffer) in
    if ltb (target_address buffer) ehub_min_valid_vaddr
    then check_read 12 buffer d
    else record_call (probe_kernel_write (target_address buffer) (take len (drop 12 buffer)))
        (check_read (12 + len) buffer d)

-- `MESSAGE_Handle`
unfoldable pub handle : Kernel → MessageType → List ℕ → Device → Device
handle k register_read_completion buffer d = handle_register_read buffer d
handle k memory_read_completion buffer d = handle_memory_read k buffer d
handle k event_trb buffer d = handle_event_trb buffer d
handle k memory_write_completion buffer d = handle_memory_write buffer d
handle k unknown buffer d = d

-- Whether the loop goes on behind a header: it is not zero, its type is known, and the device is
-- usable.
abbrev pub is_known : MessageType → Bool
is_known unknown = false
is_known _ = true

abbrev pub goes_on : ℕ → Device → Bool
goes_on w d =
    if w == 0
    then false
    else if is_known (get_type w).0
    then not (is_neg (error_check d))
    else false

-- The loop of `MESSAGE_Parsing`, on fuel: `buffer` is what is left from `parsed` on, of `total`
-- bytes. `none` means that the fuel ran out.
unfoldable pub parse_loop : Kernel → ℕ → List ℕ → ℕ → ℕ → Device → Option Device
parse_loop k zero buffer parsed total d = none
parse_loop k (suc fuel) buffer parsed total d =
    let w = u32_at buffer in
    let size = roundup4 (get_type w).1 in
    let d' = handle k (get_type w).0 buffer d in
    let rest = parse_loop k fuel (drop size buffer) (parsed + size) total d' in
    if ltb (length buffer) 4
    then some (add_fault out_of_bounds d)
    else if goes_on w d
    then (if ltb (parsed + size) total then rest else some d')
    else some d

-- `MESSAGE_Parsing` of a buffer of `total` bytes.
unfoldable pub message_parsing : Kernel → List ℕ → ℕ → Device → Option Device
message_parsing k buffer total d = parse_loop k (suc total) buffer 0 total d
