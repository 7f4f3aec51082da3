-- ===== src/Loop.antt =====
-- ehub_message.c: the loops that start and stop the URBs which wait for messages, and ehub_usb.c,
-- which calls them for the three interfaces. A loop walks over the contexts of one array.
pub mod Stop
pub mod Start
use fl.Notification.{notification_notify}
use fl.Urb.{urb_submit, urb_create_isoch, urb_create, urb_destroy, put_urb}
use fl.Base.Int.{ℤ, pos, is_neg, enomem, einval}
use fl.Kernel.{Kernel, usb_kill_urb, urb_event}
use fl.Device.{
  Device, Pipe, bulk_in, interrupt_in, UrbContext, record_call, add_fault, null_pointer, isoch_in,
  get_message, freed_pointer, status_complete,
}
use fl.Base.{ℕ, Bool, ◌*◌, List, if◌then◌else◌, Option, true, false, ◌∷◌, some, [], ◌++◌, none}

-- The array of an endpoint.
abbrev pub slots : Pipe → Device → List (Option ℕ)
slots interrupt_in d = d.urb_context_message_interrupt
slots isoch_in d = d.urb_context_message_isoch
slots _ d = d.urb_context_message_bulk

abbrev pub put_slots : Pipe → List (Option ℕ) → Device → Device
put_slots interrupt_in xs d = record d { urb_context_message_interrupt = xs }
put_slots isoch_in xs d = record d { urb_context_message_isoch = xs }
put_slots _ xs d = record d { urb_context_message_bulk = xs }

-- `MESSAGE_DATA_BUFFER_SIZE_*`
abbrev pub message_size_bulk : ℕ
message_size_bulk = 8 * 0x400

abbrev pub message_size_interrupt : ℕ
message_size_interrupt = 3 * 0x400

abbrev pub message_size_isoch : ℕ
message_size_isoch = 6 * 0x400

-- `URB_Submit`, and `URB_Destroy` where it fails.
unfoldable pub submit_or_destroy : Kernel → ℕ → Device → Device × ℤ
submit_or_destroy k id d =
    let (d₁, status) = urb_submit k id d in
    if is_neg status then (urb_destroy (some id) d₁, status) else (d₁, status)

-- The loop of `MESSAGE_StartLoopBulk` and `MESSAGE_StartLoopInterrupt`, over the rest of the array;
-- `before` is the part that is filled, `status` that of the last submission.
unfoldable pub start_slots :
    Kernel → Pipe → ℕ → List (Option ℕ) → List (Option ℕ) → ℤ → Device → Device × ℤ
start_slots k pipe len before [] status d = (d, status)
start_slots k pipe len before (_ ∷ rest) status d =
    let (d₁, made) = urb_create k pipe len get_message d in
    elim made [
      | none ↦ (d₁, enomem)
      | some id ↦
          let (d₂, status') =
            submit_or_destroy k id (put_slots pipe (before ++ some id ∷ rest) d₁) in
          let after = start_slots k pipe len (before ++ some id ∷ []) rest status' d₂ in
          if is_neg status' then (d₂, status') else after
    ]

-- `MESSAGE_StartLoopBulk`
unfoldable pub start_loop_bulk : Kernel → Device → Device × ℤ
start_loop_bulk k d =
    start_slots k bulk_in message_size_bulk [] d.urb_context_message_bulk (pos 0) d

-- `MESSAGE_StartLoopInterrupt`
unfoldable pub start_loop_interrupt : Kernel → Device → Device × ℤ
start_loop_interrupt k d =
    start_slots k interrupt_in message_size_interrupt [] d.urb_context_message_interrupt (pos 0) d

-- `MESSAGE_InitLoopIsoch`: contexts are made, and not submitted yet.
unfoldable pub init_slots : Kernel → List (Option ℕ) → List (Option ℕ) → Device → Device × ℤ
init_slots k before [] d = (d, pos 0)
init_slots k before (_ ∷ rest) d =
    let (d₁, made) = urb_create_isoch k isoch_in message_size_isoch get_message d in
    elim made [
      | none ↦ (d₁, enomem)
      | some id ↦
          init_slots k (before ++ some id ∷ []) rest
            (put_slots isoch_in (before ++ some id ∷ rest) d₁)
    ]

unfoldable pub init_loop_isoch : Kernel → Device → Device × ℤ
init_loop_isoch k d = init_slots k [] d.urb_context_message_isoch d

-- The submissions of `MESSAGE_StartLoopIsoch`. A NULL entry would be dereferenced.
unfoldable pub submit_slots : Kernel → List (Option ℕ) → ℤ → Device → Device × ℤ
submit_slots k [] status d = (d, status)
submit_slots k (none ∷ rest) status d = (add_fault null_pointer d, einval)
submit_slots k (some id ∷ rest) status d =
    let (d₁, status') = submit_or_destroy k id d in
    let after = submit_slots k rest status' d₁ in if is_neg status' then (d₁, status') else after

abbrev pub set_isoch_in_running : Bool → Device → Device
set_isoch_in_running running d = elim d.xhci_hcd [
  | none ↦ add_fault null_pointer d
  | some x ↦ record d { xhci_hcd = some (record x { isoch_in_running = running }) }
]

-- Whether `dev_ctx_to_xhci(DeviceContext)->isoch_in_running` is set.
abbrev pub isoch_running : Device → Bool
isoch_running d = elim d.xhci_hcd [ none ↦ false | some x ↦ x.isoch_in_running ]

-- `MESSAGE_StartLoopIsoch`: a pending stop is cancelled, and a loop that runs is left alone.
unfoldable pub start_loop_isoch : Kernel → Device → Device × ℤ
start_loop_isoch k d =
    let d₀ = record d { stop_isoch_pending = false } in
    let (d₁, status) = submit_slots k d.urb_context_message_isoch (pos 0) d₀ in
    if isoch_running d
    then (d₀, pos 0)
    else if is_neg status
    then (d₁, status)
    else (set_isoch_in_running true d₁, status)

-- One round of a stop loop: the waiter is told, the URB killed, and the context destroyed.
-- Before the kill the interrupt loop and the isoch loop set the status of the context.
unfoldable pub kill_slot : Pipe → ℕ → UrbContext → Device → Device
kill_slot bulk_in id u d = record_call (usb_kill_urb id) (notification_notify (urb_event id) d)
kill_slot _ id u d = record_call (usb_kill_urb id) (
    put_urb id (some (record u { status = status_complete }))
      (notification_notify (urb_event id) d))

unfoldable pub stop_slot : Pipe → Option ℕ → Device → Device
stop_slot pipe none d = d
stop_slot pipe (some id) d = elim (d.urbs id) [
  | none ↦ add_fault freed_pointer d
  | some u ↦ urb_destroy (some id) (kill_slot pipe id u d)
]

-- The loop of `MESSAGE_StopLoopBulk` and `MESSAGE_StopLoopInterrupt`, over the rest of the array.
unfoldable pub stop_slots : Pipe → List (Option ℕ) → List (Option ℕ) → Device → Device
stop_slots pipe before [] d = d
stop_slots pipe before (entry ∷ rest) d =
    stop_slots pipe (before ++ none ∷ []) rest
      (stop_slot pipe entry (put_slots pipe (before ++ none ∷ rest) d))

-- `MESSAGE_StopLoopBulk`
unfoldable pub stop_loop_bulk : Device → Device
stop_loop_bulk d = stop_slots bulk_in [] d.urb_context_message_bulk d

-- `MESSAGE_StopLoopInterrupt`
unfoldable pub stop_loop_interrupt : Device → Device
stop_loop_interrupt d = stop_slots interrupt_in [] d.urb_context_message_interrupt d

-- The loop of `MESSAGE_StopLoopIsoch`, which keeps the contexts.
unfoldable pub kill_slots : List (Option ℕ) → Device → Device
kill_slots [] d = d
kill_slots (none ∷ rest) d = kill_slots rest d
kill_slots (some id ∷ rest) d =
    kill_slots rest
      (elim (d.urbs id) [ none ↦ add_fault freed_pointer d | some u ↦ kill_slot isoch_in id u d ])

-- `MESSAGE_StopLoopIsoch`
unfoldable pub stop_loop_isoch : Device → Device
stop_loop_isoch d =
    if isoch_running d
    then set_isoch_in_running false (kill_slots d.urb_context_message_isoch d)
    else d

-- `MESSAGE_queue_StopLoopIsoch`, and the work that it schedules.
unfoldable pub queue_stop_loop_isoch : Device → Device
queue_stop_loop_isoch d = record d { stop_isoch_pending = true }

unfoldable pub delayed_stop_loop_isoch : Device → Device
delayed_stop_loop_isoch d = stop_loop_isoch (record d { stop_isoch_pending = false })

-- `MESSAGE_FreeLoopIsoch`: the array keeps the pointers.
unfoldable pub free_slots : List (Option ℕ) → Device → Device
free_slots [] d = d
free_slots (entry ∷ rest) d = free_slots rest (urb_destroy entry d)

unfoldable pub free_loop_isoch : Device → Device
free_loop_isoch d = free_slots d.urb_context_message_isoch d
