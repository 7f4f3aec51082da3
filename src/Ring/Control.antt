-- ===== src/Ring/Control.antt =====
-- `ehub_xhci_queue_ctrl_tx` and `giveback_first_trb` (xhci-ring.c), on a ring that is prepared.
use fl.Device.{record_call}
use fl.Ring.Bulk.{xhci_td_remainder}
use fl.Ring.Copy.{cache_copy_from_ring}
use fl.Xhci.{Xhci, on_device}
use fl.Kernel.{Kernel, ring_ep_doorbell}
use fl.Ring.{Quirks, Ring, Trb, Segment, ehub_cache_ring, put_control}
use fl.Ring.Move.{queue_trb}
use fl.Base.{
  none, some, ℕ, Bool, List, ◌/◌, if◌then◌else◌, ltb, Option, ◌%◌, ◌*◌, ◌==◌, ◌^◌, ◌&&◌, true, ◌-◌,
  ◌+◌, some, false,
}

-- The URB of a control transfer, its setup packet, and the version of the controller.
pub record CtrlUrb : Type 0 where
  pub b_request_type : ℕ
  pub b_request : ℕ
  pub w_value : ℕ
  pub w_index : ℕ
  pub w_length : ℕ
  pub transfer_buffer : ℕ
  pub transfer_buffer_length : ℕ
  pub dir_in : Bool
  pub hci_version : ℕ

-- `setup->bRequestType & USB_DIR_IN`
abbrev pub reads : CtrlUrb → Bool
reads u = (u.b_request_type / 128) % 2 == 1

-- `ep_ring->cycle_state`, as the bit of a control word.
abbrev pub cycle_bit : ℕ → ℕ
cycle_bit cycle = if cycle == 0 then 0 else 1

-- The setup TRB, with the cycle bit that keeps it from the hardware.
abbrev pub setup_trb : CtrlUrb → ℕ → Trb
setup_trb u start_cycle =
    let transfer_type = if reads u then 3 * 2 ^ 16 else 2 * 2 ^ 16 in
    let typed = (u.hci_version == 0x100) && ltb 0 u.transfer_buffer_length in
    record {
      field0 = u.b_request_type + 2 ^ 8 * u.b_request + 2 ^ 16 * u.w_value;
      field1 = u.w_index + 2 ^ 16 * u.w_length;
      field2 = 8;
      field3 =
          64
          + 1024 * 2
          + (if start_cycle == 0 then 1 else 0)
          + (if typed then transfer_type else 0);
    }

-- The TRB of the data stage.
abbrev pub data_trb : CtrlUrb → ℕ → Trb
data_trb u cycle = record {
  field0 = u.transfer_buffer % 2 ^ 32;
  field1 = (u.transfer_buffer / 2 ^ 32) % 2 ^ 32;
  field2 = u.transfer_buffer_length % 2 ^ 17 + xhci_td_remainder u.transfer_buffer_length;
  field3 =
      (if u.dir_in then 4 else 0) + 1024 * 3 + (if reads u then 2 ^ 16 else 0) + cycle_bit cycle;
}

-- The TRB of the status stage.
abbrev pub status_trb : CtrlUrb → ℕ → Trb
status_trb u cycle = record {
  field0 = 0;
  field1 = 0;
  field2 = 0;
  field3 =
      (if ltb 0 u.transfer_buffer_length && reads u then 0 else 2 ^ 16)
      + 32
      + 1024 * 4
      + cycle_bit cycle;
}

-- The TRB of the data stage is queued if there are data.
unfoldable pub queue_data : Quirks → CtrlUrb → Ring → Option Ring
queue_data q u r =
    if ltb 0 u.transfer_buffer_length then queue_trb q true (data_trb u r.cycle_state) r else some r

-- The TRBs of the transfer, with the place of `td->last_trb`.
unfoldable pub queue_ctrl_trbs : Quirks → CtrlUrb → Ring → Option (Ring × ℕ × ℕ)
queue_ctrl_trbs q u r = elim (queue_trb q true (setup_trb u r.cycle_state) r) [
  | none ↦ none
  | some r₁ ↦ elim (queue_data q u r₁) [
    | none ↦ none
    | some r₂ ↦ elim (queue_trb q false (status_trb u r₂.cycle_state) r₂) [
      | none ↦ none
      | some r₃ ↦ some (r₃, r₂.enq_seg, r₂.enqueue)
    ]
  ]
]

-- The cycle bit of the first TRB becomes the one that the ring had.
abbrev pub give_first : ℕ → ℕ → ℕ → List Segment → List Segment
give_first start_cycle seg index segs =
    put_control segs seg index (λ c. c - c % 2 + cycle_bit start_cycle)

-- `giveback_first_trb`: the first TRB is given to the hardware, and the doorbell rung with the copy to
-- the cache or at once.
unfoldable pub giveback_first_trb :
    Kernel → ℕ × ℕ × ℕ → ℕ → ℕ → ℕ → Ring → Xhci → Option (Xhci × Ring)
giveback_first_trb k (slot, ep, stream) start_cycle seg index r x =
    let r₁ = record r { segs = give_first start_cycle seg index r.segs } in
    if ehub_cache_ring r.ring_type
    then cache_copy_from_ring k (slot, ep, stream) true r₁ x
    else some (on_device (record_call (ring_ep_doorbell slot ep stream)) x, r₁)

-- `ehub_xhci_queue_ctrl_tx`, after `prepare_transfer`.
unfoldable pub queue_ctrl_tx :
    Kernel → Quirks → ℕ → ℕ → CtrlUrb → Ring → Xhci → Option (Xhci × Ring)
queue_ctrl_tx k q slot ep u r x = elim (queue_ctrl_trbs q u r) [
  | none ↦ none
  | some (r₁, last_seg, last) ↦
      giveback_first_trb k (slot, ep, 0) r.cycle_state r.enq_seg r.enqueue r₁ x
]
