-- ===== src/CacheWrite.antt =====
-- ehub_embedded_cache.c: `EMBEDDED_CACHE_Write`, which sends a piece of memory to the cache of
-- the device.
use fl.Base.{
  ℕ, suc, zero, ◌+◌, ◌-◌, ◌*◌, ◌/◌, ◌%◌, true, not, Option, none, some, List, ◌++◌, ◌==◌, leb,
  if◌then◌else◌, length, take, drop, replicate,
}
use fl.Base.Int.{ℤ, pos, is_neg, eqb_ℤ, einval}
use fl.Base.Bytes.{le32, u32_at}
use fl.Kernel.{Kernel}
use fl.Device.{Device, freed_pointer, out_of_bounds, add_fault, error_check}
use fl.Urb.{put_urb, urb_submit}
use fl.Register.{write_buffer}

abbrev pub trbs_per_segment : ℕ
trbs_per_segment = 64

-- `EmbeddedMemoryCommand.Length = len; EmbeddedMemoryCommand.Cache = true`, which leave the other
-- fields of the word: Cache is bit 4, Length the sixteen bits from bit 8 on.
abbrev pub set_cache_command : ℕ → ℕ → ℕ
set_cache_command word len =
    word % 16 + 16 + 32 * ((word / 32) % 8) + 256 * (len % 65536) + 16777216 * (word / 16777216)

-- `dataBufferLengthAligned`: the length made a multiple of 8.
abbrev pub align8 : ℕ → ℕ
align8 len = if len % 8 == 0 then len else len + (8 - len % 8)

-- The transfer length, and the header of two words that goes before the data.
unfoldable pub write_header : ℕ → ℕ → ℕ → Device → Device
write_header id address aligned d = elim (d.urbs id) [
  | none ↦ add_fault freed_pointer d
  | some u ↦
      write_buffer id 0
        (le32 (set_cache_command (u32_at u.data_buffer) (aligned / 8)) ++ le32 address)
        (put_urb id (some (record u { transfer_buffer_length = 8 + aligned })) d)
]

-- `trb->control |= TRB_CYCLE`, for a TRB whose control word is at this offset of the buffer.
unfoldable pub set_cycle : ℕ → ℕ → Device → Device
set_cycle id off d = elim (d.urbs id) [
  | none ↦ add_fault freed_pointer d
  | some u ↦
      let word = u32_at (drop off u.data_buffer) in
      write_buffer id off (le32 (word + 1 - word % 2)) d
]

-- The loop over the TRBs of a segment. The step is `sizeof(struct xhci_link_trb)` elements of
-- that size, 256 bytes, and the control word is the last of a TRB's four.
unfoldable pub set_cycles : ℕ → ℕ → ℕ → Device → Device
set_cycles id zero index d = d
set_cycles id (suc rounds) index d =
    set_cycles id rounds (suc index) (set_cycle id (8 + 256 * index + 12) d)

-- The data: copied, or zeroed where there is none. A copy reads `len` bytes of the source.
unfoldable pub write_data : ℕ → Option (List ℕ) → ℕ → ℤ → Device → Device
write_data id none len cycle d =
    let d₁ = write_buffer id 8 (replicate len 0) d in
    if eqb_ℤ cycle (pos 0) then set_cycles id trbs_per_segment 0 d₁ else d₁
write_data id (some bytes) len cycle d =
    if leb len (length bytes)
    then write_buffer id 8 (take len bytes) d
    else add_fault out_of_bounds d

-- The checks, the transfer and its submission: everything but the error flag.
unfoldable pub cache_transfer : Kernel → ℕ → ℕ → Option (List ℕ) → ℕ → ℤ → Device → Device × ℤ
cache_transfer k id address bytes len cycle d =
    let checked = error_check d in
    if is_neg checked
    then (d, checked)
    else if not (address % 8 == 0)
    then (d, einval)
    else urb_submit k id (write_data id bytes len cycle (write_header id address (align8 len) d))

-- `EMBEDDED_CACHE_Write`: a failure is kept in the error flags.
unfoldable pub embedded_cache_write : Kernel → ℕ → ℕ → Option (List ℕ) → ℕ → ℤ → Device → Device × ℤ
embedded_cache_write k id address bytes len cycle d =
    let (d₁, status) = cache_transfer k id address bytes len cycle d in
    if is_neg status
    then (
      record d₁ { error_flags = record (d₁.error_flags) { embedded_cache_write_error = true } },
      status,
    )
    else (d₁, status)
