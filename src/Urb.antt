-- ===== src/Urb.antt =====
-- ehub_urb.c: the life of a URB context, and the completion routines. Memory that a failed
-- allocation leaves behind is `none` in the store, so a use of it shows as a fault.
pub mod Create
use fl.Base.{
  ℕ, suc, ◌+◌, ◌*◌, ◌<◌, Bool, true, false, not, Option, none, some, List, [], ◌∷◌, ◌++◌, ◌==◌, leb,
  ltb, if◌then◌else◌, replicate, length, take, drop,
}
use fl.Base.Int.{ℤ, pos, is_neg, eqb_ℤ, einval, eshutdown}
use fl.Base.Chain.{remove}
use fl.Kernel.{
  Kernel, Call, kzalloc, kfree, usb_alloc_urb, usb_alloc_coherent, usb_free_coherent, usb_free_urb,
  usb_submit_urb, init_completion, complete, Event, urb_event,
}
use fl.Device.{
  Device, UrbContext, Pipe, Routine, get_message, UrbStatus, status_free, status_submitted,
  status_complete, status_submit_error, null_pointer, freed_pointer, out_of_bounds, WorkItem,
  record_call, add_fault, is_bound, error_check, number_of_message_isoch_pkt,
}

-- A URB context is written to the store, or leaves it.
abbrev pub put_urb : ℕ → Option UrbContext → Device → Device
put_urb id u d = record d { urbs = λ n. if n == id then u else d.urbs n }

-- The context that `URB_Create` fills in when every allocation has succeeded.
abbrev pub new_urb : Pipe → Routine → ℕ → ℕ → UrbContext
new_urb pipe routine packets len = record {
  pipe = pipe;
  routine = routine;
  number_of_packets = packets;
  data_buffer = replicate len 0;
  data_buffer_length = len;
  transfer_buffer_length = len;
  urb_completion_status = pos 0;
  actual_length = 0;
  status = status_free;
}

-- The three allocations, `usb_alloc_coherent` and `usb_alloc_urb` behind the `kzalloc` of the
-- context. When one of the two later ones fails, the context is freed and its address returned.
pub create_context : Kernel → Pipe → Routine → ℕ → ℕ → Device → Device × Option ℕ
create_context k pipe routine packets len d =
    let d₁ = record_call kzalloc d in
    let id = d.next_urb in
    let d₂ = record_call (usb_alloc_coherent len) (record d₁ { next_urb = suc id }) in
    let d₃ = record_call usb_alloc_urb d₂ in
    if not (k.allocates d₁.history)
    then (
      record d₁ { error_flags = record (d₁.error_flags) { urb_context_allocation_error = true } },
      none,
    )
    else if not (k.allocates d₂.history)
    then (
      record_call kfree (record d₂ {
        error_flags = record (d₂.error_flags) { usb_allocate_coherent_error = true };
      }),
      some id,
    )
    else if not (k.allocates d₃.history)
    then (
      record_call kfree (
          record_call (usb_free_coherent len) (record d₃ {
            error_flags = record (d₃.error_flags) { usb_allocate_urb_error = true };
          })),
      some id,
    )
    else (put_urb id (some (new_urb pipe routine packets len)) d₃, some id)

-- The guard that `URB_Create` and `URB_CreateIsoch` begin with. Its message reads `condition`
-- also where the interface is NULL.
pub create_guarded : Kernel → Pipe → Routine → ℕ → ℕ → Device → Device × Option ℕ
unfolding create_context
create_guarded k pipe routine packets len d = elim d.interface_backup [
  | none ↦ (add_fault null_pointer d, none)
  | some condition ↦
      if is_bound condition then create_context k pipe routine packets len d else (d, none)
]

-- `URB_Create`
unfoldable pub urb_create : Kernel → Pipe → ℕ → Routine → Device → Device × Option ℕ
unfolding create_guarded
urb_create k pipe len routine d = create_guarded k pipe routine 0 len d

-- `URB_CreateIsoch`: a buffer for all packets, and one frame descriptor for each.
unfoldable pub urb_create_isoch : Kernel → Pipe → ℕ → Routine → Device → Device × Option ℕ
unfolding create_guarded
urb_create_isoch k pipe len routine d =
    create_guarded k pipe routine number_of_message_isoch_pkt (len * number_of_message_isoch_pkt) d

-- `URB_Destroy`. A context stands on a doorbell list or on none.
unfoldable pub urb_destroy : Option ℕ → Device → Device
urb_destroy none d = d
urb_destroy (some id) d = elim (d.urbs id) [
  | none ↦ add_fault freed_pointer d
  | some u ↦
      let d₁ =
        record_call kfree (
          record_call (usb_free_coherent u.data_buffer_length) (record_call (usb_free_urb id) d)) in
      put_urb id none (record d₁ {
        doorbell_list_free = remove id d.doorbell_list_free;
        doorbell_list_busy = remove id d.doorbell_list_busy;
      })
]

-- `URB_Submit`. Through a freed pointer anything may happen: it is a fault, and an error.
unfoldable pub urb_submit : Kernel → ℕ → Device → Device × ℤ
urb_submit k id d = elim (d.urbs id) [
  | none ↦ (add_fault freed_pointer d, einval)
  | some u ↦
      let d₁ = record_call (init_completion (urb_event id)) d in
      let d₂ = put_urb id (some (record u { status = status_submitted })) d₁ in
      let d₃ = record_call (usb_submit_urb id u.transfer_buffer_length u.data_buffer) d₂ in
      let status = k.submits d₃.history in
      if is_neg status
      then (put_urb id (some (record u { status = status_submit_error })) d₃, status)
      else (d₃, status)
]

-- What both simple completion routines do to the context: the results are kept, and the waiter
-- is told.
abbrev pub completed : ℤ → ℕ → UrbContext → UrbContext
completed urb_status actual u = record u {
  actual_length = actual;
  urb_completion_status = urb_status;
  status = status_complete;
}

-- `URB_CompletionRoutine_Simple`, for a URB that ends with a status and a length.
unfoldable pub completion_simple : ℕ → ℤ → ℕ → Device → Device
completion_simple id urb_status actual d =
    if eqb_ℤ urb_status eshutdown then d else elim (d.urbs id) [
      | none ↦ add_fault freed_pointer d
      | some u ↦
          if is_neg (error_check d)
          then d
          else record_call (complete (urb_event id))
              (put_urb id (some (completed urb_status actual u)) d)
    ]

-- `URB_CompletionRoutine_Doorbell`: the same, and the context is free for the next doorbell.
unfoldable pub completion_doorbell : ℕ → ℤ → ℕ → Device → Device
completion_doorbell id urb_status actual d =
    if eqb_ℤ urb_status eshutdown then d else elim (d.urbs id) [
      | none ↦ add_fault freed_pointer d
      | some u ↦
          if is_neg (error_check d)
          then d
          else let d₁ =
              record_call (complete (urb_event id))
                (put_urb id (some (completed urb_status actual u)) d) in
            record d₁ {
              doorbell_list_free = remove id d.doorbell_list_free ++ id ∷ [];
              doorbell_list_busy = remove id d.doorbell_list_busy;
            }
    ]
