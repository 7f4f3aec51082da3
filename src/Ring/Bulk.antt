-- ===== src/Ring/Bulk.antt =====
-- `ehub_xhci_queue_bulk_tx` (xhci-ring.c) without a scatter list: a transfer is split at the 64 KB
-- boundaries of its buffer, one TRB for each part.
use fl.Cache.{UrbPriv, data_buffer_addr}
use fl.Ring.{Quirks, Ring, Trb}
use fl.Ring.Move.{queue_trb}
use fl.Base.{
  ℕ, Bool, ltb, ◌^◌, ◌%◌, ◌-◌, ◌+◌, if◌then◌else◌, Option, false, leb, not, ◌/◌, ◌==◌, true, none,
  ◌*◌, ◌||◌, min, ◌&&◌, some,
}
use fl.Base.Int.{ℤ, pos, negsuc}
use fl.Base.{zero, suc}

-- `TRB_MAX_BUFF_SIZE`
abbrev pub trb_max_buff_size : ℕ
trb_max_buff_size = 65536

-- The URB, with what the kernel's macros read of its endpoint, and the version of the controller.
pub record BulkUrb : Type 0 where
  pub transfer_buffer : ℕ
  pub transfer_buffer_length : ℕ
  pub max_packet : ℕ
  pub dir_in : Bool
  pub hcpriv : UrbPriv
  pub hci_version : ℕ

-- `xhci_td_remainder`
abbrev pub xhci_td_remainder : ℕ → ℕ
xhci_td_remainder remainder =
    if leb 31 (remainder / 1024) then 31 * 2 ^ 17 else (remainder / 1024) * 2 ^ 17

-- `xhci_v1_0_td_remainder`
abbrev pub xhci_v1_0_td_remainder : ℕ → ℕ → ℕ → ℕ → ℕ → ℕ
xhci_v1_0_td_remainder running_total trb_buff_len total_packet_count max_packet num_trbs_left =
    let transferred = (running_total + trb_buff_len) / (max_packet % 2048) in
    let left = (total_packet_count + 2 ^ 32 - transferred) % 2 ^ 32 in
    if (num_trbs_left == 0) || ((running_total == 0) && (trb_buff_len == 0))
    then 0
    else if ltb 31 left
    then 31 * 2 ^ 17
    else left * 2 ^ 17

-- The loop that counts 64 KB chunks, on fuel.
unfoldable pub count_chunks : ℕ → ℕ → ℕ → ℕ
count_chunks zero running_total len = 0
count_chunks (suc fuel) running_total len =
    let more = count_chunks fuel (running_total + trb_max_buff_size) len in
    if ltb running_total len then suc more else 0

-- The data before the first 64 KB boundary.
abbrev pub before_boundary : ℕ → ℕ
before_boundary buffer_addr = trb_max_buff_size - buffer_addr % trb_max_buff_size

-- `num_trbs`, as it is counted before the ring is prepared. A round for each byte is enough.
unfoldable pub bulk_num_trbs : ℕ → ℕ → ℕ
bulk_num_trbs buffer_addr len =
    let running_total = before_boundary buffer_addr % trb_max_buff_size in
    let chunks = count_chunks (suc len) running_total len in
    if not (running_total == 0) || (len == 0) then suc chunks else chunks

-- The control word of a TRB of the transfer. The first TRB is not given to the hardware yet.
abbrev pub bulk_control : Bool → ℕ → ℕ → Bool → Bool → ℕ
bulk_control first start_cycle cycle more dir_in =
    let cycle_bit =
      if first then (if start_cycle == 0 then 1 else 0) else (if cycle == 0 then 0 else 1) in
    cycle_bit + (if more then 16 else 32) + (if dir_in then 4 else 0) + 1024

-- `num_trbs > 1`
abbrev pub above_one : ℤ → Bool
above_one (pos n) = ltb 1 n
above_one (negsuc n) = false

-- `num_trbs - 1`
abbrev pub minus_one : ℤ → ℤ
minus_one (pos zero) = negsuc 0
minus_one (pos (suc n)) = pos n
minus_one (negsuc n) = negsuc (suc n)

-- An `int` as an `unsigned int`
abbrev pub as_u32 : ℤ → ℕ
as_u32 (pos n) = n
as_u32 (negsuc n) = 2 ^ 32 - suc n

-- The TRB for `len` bytes at this address of the bus.
abbrev pub bulk_trb : BulkUrb → ℕ → Bool → ℤ → ℕ → ℕ → ℕ → ℕ → Trb
bulk_trb u start_cycle first num_trbs running_total len address cycle =
    let packets = (u.transfer_buffer_length + (u.max_packet - 1)) / u.max_packet in
    let remainder =
      if ltb u.hci_version 0x100
      then xhci_td_remainder (u.transfer_buffer_length - running_total)
      else xhci_v1_0_td_remainder running_total len packets u.max_packet
          (as_u32 (minus_one num_trbs)) in
    record {
      field0 = address % 2 ^ 32;
      field1 = (address / 2 ^ 32) % 2 ^ 32;
      field2 = len % 2 ^ 17 + remainder;
      field3 = bulk_control first start_cycle cycle (above_one num_trbs) u.dir_in;
    }

-- The state after the loop: `num_trbs`, `running_total`, the place of `td->last_trb` with its segment
-- if it is set, and the ring.
pub record BulkState : Type 0 where
  pub num_trbs : ℤ
  pub running_total : ℕ
  pub td_last_trb : Option (ℕ × ℕ)
  pub ring : Ring

-- The loop, on fuel: `none` where it does not end, and where the address of the data panics.
unfoldable pub bulk_loop : ℕ → Quirks → BulkUrb → ℕ → Bool → ℤ → ℕ → ℕ → ℕ → Ring → Option BulkState
bulk_loop zero q u start_cycle first num_trbs running_total addr len r = none
bulk_loop (suc fuel) q u start_cycle first num_trbs running_total addr len r =
    elim (data_buffer_addr u.hcpriv u.transfer_buffer addr) [
      | none ↦ none
      | some address ↦
          elim (queue_trb q (above_one num_trbs)
            (bulk_trb u start_cycle first num_trbs running_total len address r.cycle_state) r) [
              | none ↦ none
              | some r₁ ↦
                  let left = minus_one num_trbs in
                  let total = running_total + len in
                  let next = min (u.transfer_buffer_length - total) trb_max_buff_size in
                  let rest =
                    bulk_loop fuel q u start_cycle false left total ((addr + len) % 2 ^ 64) next
                      r₁ in
                  if ltb total u.transfer_buffer_length
                  then rest
                  else some (record {
                    num_trbs = left;
                    running_total = total;
                    td_last_trb = if above_one num_trbs then none else some (r.enq_seg, r.enqueue);
                    ring = r₁;
                  })
            ]
    ]

-- Whether no division is by zero and no `int` overflows: `running_total` gets to the length, and in the
-- count to less than 64 KB more.
abbrev pub in_range : BulkUrb → Bool
in_range u =
    not (u.max_packet % 2048 == 0) && ltb (u.transfer_buffer_length + trb_max_buff_size) (2 ^ 31)

-- The part of `ehub_xhci_queue_bulk_tx` between `prepare_transfer` and `check_trb_math`, with the
-- number of TRBs that was counted before. The loop is defined on transfers in range only, so the
-- result for all others is `none`.
unfoldable pub queue_bulk_tx : Quirks → BulkUrb → Ring → Option BulkState
queue_bulk_tx q u r =
    let len = u.transfer_buffer_length in
    if not (in_range u)
    then none
    else bulk_loop (suc len) q u r.cycle_state true (pos (bulk_num_trbs u.transfer_buffer len)) 0
        u.transfer_buffer (min (before_boundary u.transfer_buffer) len) r
