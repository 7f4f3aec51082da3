-- ===== src/WorkItem.antt =====
-- ehub_work_item.c and `URB_CompletionRoutine_GetMessage` of ehub_urb.c: a message that has come in
-- is copied into a work item, and the work queue handles it later, in order.
pub mod Queue
pub mod Parsing
use fl.Message.{message_parsing}
use mathlib.Core.Option
use fl.Urb.{put_urb, urb_submit}
use fl.Base.Bytes.{overwrite}
use fl.Base.Int.{ℤ, eqb_ℤ, pos, is_neg}
use fl.Kernel.{Kernel, kfree, kzalloc}
use fl.Device.{
  WorkItem, Device, record_call, add_fault, null_pointer, out_of_bounds, freed_pointer,
  status_complete, error_check,
}
use fl.Kernel.{queue_delayed_work}
use fl.Base.{
  ℕ, List, if◌then◌else◌, ◌∷◌, Option, ◌++◌, ◌==◌, [], not, take, drop, suc, some, ◌-◌, leb, length,
  none, replicate, ltb,
}

-- A frame of an isoch URB: its status, its offset in the buffer, and its length.
pub record IsoFrame : Type 0 where
  pub status : ℤ
  pub offset : ℕ
  pub actual_length : ℕ

-- `WORK_ITEM_Create`. An allocation that fails stops in the debugger, and is then used.
unfoldable pub work_item_create : Kernel → ℕ → Device → Device × Option WorkItem
work_item_create k len d =
    let d₁ = record_call kzalloc d in
    let d₂ = record_call kzalloc d₁ in
    if not (k.allocates d₁.history)
    then (add_fault null_pointer d₁, none)
    else if not (k.allocates d₂.history)
    then (add_fault null_pointer d₂, none)
    else (d₂, some (record { data_buffer = replicate len 0; data_buffer_length = len }))

-- `WORK_ITEM_Submit`: to the end of the queue, which is counted, and to the kernel's work queue.
unfoldable pub work_item_submit : WorkItem → Device → Device
work_item_submit w d = record_call queue_delayed_work (record d {
  work_item_processing_queue = d.work_item_processing_queue ++ w ∷ [];
  number_of_work_item_in_processing_queue = suc d.number_of_work_item_in_processing_queue;
})

-- `WORK_ITEM_Destroy` of the item that the queue begins with: the work queue is ordered.
unfoldable pub work_item_destroy : Device → Device
work_item_destroy d = record_call kfree (
    record_call kfree (record d {
      work_item_processing_queue = drop 1 d.work_item_processing_queue;
      number_of_work_item_in_processing_queue = d.number_of_work_item_in_processing_queue - 1;
    }))

-- `WORK_ITEM_Process_MessageHandle` of the first item, `none` where its parsing does not end.
unfoldable pub process_message_handle : Kernel → Device → Option Device
process_message_handle k d = elim d.work_item_processing_queue [
  | [] ↦ some d
  | w ∷ _ ↦ Option.map work_item_destroy (message_parsing k w.data_buffer w.data_buffer_length d)
]

-- The good frames of an isoch URB, one behind the other.
unfoldable pub combine : List ℕ → List IsoFrame → List ℕ
combine buffer [] = []
combine buffer (f ∷ fs) =
    if eqb_ℤ f.status (pos 0)
    then take f.actual_length (drop f.offset buffer) ++ combine buffer fs
    else combine buffer fs

-- The bytes that the work item gets: those of the URB, or its good frames. More than the item's
-- buffer holds would be written past its end.
unfoldable pub fill_item : List ℕ → ℕ → List IsoFrame → WorkItem → Device → Device × WorkItem
fill_item buffer packets frames w d =
    let bytes = if packets == 0 then take w.data_buffer_length buffer else combine buffer frames in
    if leb (length bytes) w.data_buffer_length
    then (d, record w { data_buffer = overwrite 0 bytes w.data_buffer })
    else (add_fault out_of_bounds d, w)

-- A message of `len` bytes goes to the work queue.
unfoldable pub queue_message : Kernel → List ℕ → ℕ → ℕ → List IsoFrame → Device → Device
queue_message k buffer len packets frames d =
    let (d₁, created) = work_item_create k len d in
    elim created [
      | none ↦ d₁
      | some w ↦
          let (d₂, filled) = fill_item buffer packets frames w d₁ in work_item_submit filled d₂
    ]

-- `URB_CompletionRoutine_GetMessage`, for a URB that ends with a status, with `actual` bytes in
-- `buffer`, and with frames where it is isoch: after a status of 0 it is submitted again.
unfoldable pub completion_get_message :
    Kernel → ℕ → ℤ → ℕ → List ℕ → List IsoFrame → Device → Device
completion_get_message k id urb_status actual buffer frames d = elim (d.urbs id) [
  | none ↦ add_fault freed_pointer d
  | some u ↦
      let d₁ = put_urb id (some (record u { data_buffer = buffer; status = status_complete })) d in
      let d₂ =
        if ltb 0 actual then queue_message k buffer actual u.number_of_packets frames d₁ else d₁ in
      if is_neg (error_check d)
      then d
      else if eqb_ℤ urb_status (pos 0)
      then (urb_submit k id d₂).0
      else d₂
]
