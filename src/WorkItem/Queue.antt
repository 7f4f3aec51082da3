-- ===== src/WorkItem/Queue.antt =====
-- The queue of work items (ehub_work_item.c): messages come in at its end (ehub_urb.c) and are
-- handled from its start.
use fl.WorkItem.Parsing.{parse_loop-Keeps, urb_submit-SameQueue, Keeps}
use fl.Register.Doorbell.{urb_submit-history}
use fl.Cache.Create.{NeverFails}
use fl.Message.Parsing.{message_parsing_total}
use fl.WorkItem.{
  process_message_handle, work_item_destroy, queue_message, work_item_create, work_item_submit,
  fill_item, IsoFrame, completion_get_message,
}
use fl.Base.Int.{is_neg, pos}
use fl.Base.Bytes.{overwrite_whole}
use fl.Kernel.{queue_delayed_work, Kernel, kzalloc, usb_submit_urb, init_completion, urb_event}
use fl.Urb.{urb_submit, put_urb}
use fl.Device.{Device, record_call, error_check, WorkItem, UrbContext, status_complete}
use fl.Message.{message_parsing}
use fl.Base.{
  ℕ, ◌≡◌, List, arith, take, ◌∙◌, refl, some, suc, drop, leb, ltb, length, ◌∷◌, subst, ap, ◌++◌, [],
  ◌≤◌, length-take, true, replicate, length-replicate, false, ◌<◌, sym, ==_refl,
}

-- The number in the device is the length of its queue.
abbrev pub IsCounted : Device → Type 0
IsCounted d = d.number_of_work_item_in_processing_queue ≡ length d.work_item_processing_queue

process_message_handle_head :
    (k : Kernel) (w : WorkItem) (rest : List WorkItem) (d parsed : Device)
    → d.work_item_processing_queue ≡ w ∷ rest
    → message_parsing k w.data_buffer w.data_buffer_length d ≡ some parsed
    → process_message_handle k d ≡ some (work_item_destroy parsed)
unfolding process_message_handle
process_message_handle_head k w rest d parsed e ends = ground arith

-- `WORK_ITEM_Process_MessageHandle` of a queue that is not empty ends, whatever the message: it
-- takes the first item, leaves the others in their order, and keeps the count right.
pub process_message_handle_lem :
    (k : Kernel) (w : WorkItem) (rest : List WorkItem) (d : Device)
    → d.work_item_processing_queue ≡ w ∷ rest
    → IsCounted d
    → (d' : Device) × (process_message_handle k d ≡ some d')
      × (d'.work_item_processing_queue ≡ rest)
      × IsCounted d'
unfolding process_message_handle work_item_destroy message_parsing
process_message_handle_lem k w rest d e counted =
    let (parsed, ends) = message_parsing_total k w.data_buffer w.data_buffer_length d in
    let same =
      parse_loop-Keeps k (suc w.data_buffer_length) w.data_buffer 0 w.data_buffer_length d in
    let kept : Keeps d (some parsed) = subst (Keeps d) ends same in
    let queue = kept.0 ∙ e in
    let number = kept.1 ∙ counted ∙ ap length e in
    (
      work_item_destroy parsed,
      process_message_handle_head k w rest d parsed e ends,
      ap (drop 1) queue,
      omega (arith, ap (λ q. length (drop 1 q)) queue),
    )

-- What a message does to the queue: one item more, with these bytes, after two allocations, and
-- scheduled.
abbrev pub Queued : List ℕ → ℕ → Device → Device → Type 0
Queued bytes len d d' =
    (d'.work_item_processing_queue
      ≡ d.work_item_processing_queue
        ++ record { data_buffer = bytes; data_buffer_length = len } ∷ [])
    × (d'.number_of_work_item_in_processing_queue ≡ suc d.number_of_work_item_in_processing_queue)
    × (d'.urbs ≡ d.urbs)
    × (d'.history ≡ queue_delayed_work ∷ kzalloc ∷ kzalloc ∷ d.history)

work_item_create_eq :
    (k : Kernel) (len : ℕ) (d : Device)
    → NeverFails k
    → work_item_create k len d ≡ (
      record_call kzalloc (record_call kzalloc d),
      some (record { data_buffer = replicate len 0; data_buffer_length = len }),
    )
unfolding work_item_create
work_item_create_eq k len d h =
    rw (h (kzalloc ∷ d.history), h (kzalloc ∷ kzalloc ∷ d.history), work_item_create) refl

queue_message_eq :
    (k : Kernel) (buffer : List ℕ) (len : ℕ) (frames : List IsoFrame) (d : Device)
    → NeverFails k
    → let (d₂, filled) =
        fill_item buffer 0 frames
          (record { data_buffer = replicate len 0; data_buffer_length = len })
          (record_call kzalloc (record_call kzalloc d)) in
      queue_message k buffer len 0 frames d ≡ work_item_submit filled d₂
unfolding queue_message
queue_message_eq k buffer len frames d h =
    let created = work_item_create_eq k len d h in rw (queue_message, created, created) refl

queue_message-Queued :
    (k : Kernel) (buffer : List ℕ) (len : ℕ) (frames : List IsoFrame) (d : Device)
    → NeverFails k
    → len ≤ length buffer
    → Queued (take len buffer) len d (queue_message k buffer len 0 frames d)
unfolding queue_message work_item_create work_item_submit fill_item
queue_message-Queued k buffer len frames d h fits =
    let taken = length-take len buffer in
    let whole : leb (length (take len buffer)) len ≡ true = ground arith in
    let filled =
      overwrite_whole (take len buffer) (replicate len 0)
        (omega (arith, length-take len buffer, length-replicate {A = ℕ} len 0)) in
    rw (queue_message_eq k buffer len frames d h, fill_item, whole, filled) (refl, refl, refl, refl)

-- What a message that has come in leaves: one item more in the queue, and the URB submitted again.
abbrev pub Received : ℕ → UrbContext → List ℕ → ℕ → Device → Device → Type 0
Received id u buffer len d d' =
    (d'.work_item_processing_queue
      ≡ d.work_item_processing_queue
        ++ record { data_buffer = take len buffer; data_buffer_length = len } ∷ [])
    × (d'.number_of_work_item_in_processing_queue ≡ suc d.number_of_work_item_in_processing_queue)
    × (d'.history
        ≡ usb_submit_urb id u.transfer_buffer_length buffer
          ∷ init_completion (urb_event id)
          ∷ queue_delayed_work
          ∷ kzalloc
          ∷ kzalloc
          ∷ d.history)

completion_get_message_eq :
    (k : Kernel) (id actual : ℕ) (buffer : List ℕ) (u : UrbContext) (d : Device)
    → d.urbs id ≡ some u
    → is_neg (error_check d) ≡ false
    → 0 < actual
    → completion_get_message k id (pos 0) actual buffer [] d
      ≡ (urb_submit k id (
          queue_message k buffer actual u.number_of_packets []
            (put_urb id (some (record u { data_buffer = buffer; status = status_complete })) d))).0
unfolding completion_get_message
completion_get_message_eq k id actual buffer u d e ok some_bytes =
    let long : ltb 0 actual ≡ true = ground arith in rw (e, completion_get_message, ok, long) refl

-- `URB_CompletionRoutine_GetMessage` for a bulk or interrupt URB that ends well with `actual`
-- bytes, on a device without errors and with memory: one work item with exactly those bytes goes to
-- the end of the queue, the count goes up by one, and the URB is submitted again, last of all.
pub completion_get_message_lem :
    (k : Kernel) (id actual : ℕ) (buffer : List ℕ) (u : UrbContext) (d : Device)
    → NeverFails k
    → d.urbs id ≡ some u
    → u.number_of_packets ≡ 0
    → is_neg (error_check d) ≡ false
    → 0 < actual
    → actual ≤ length buffer
    → Received id u buffer actual d (completion_get_message k id (pos 0) actual buffer [] d)
completion_get_message_lem k id actual buffer u d h e bulk ok some_bytes fits =
    let v = record u { data_buffer = buffer; status = status_complete } in
    let d₁ = put_urb id (some v) d in
    let d₂ = queue_message k buffer actual u.number_of_packets [] d₁ in
    let queued : Queued (take actual buffer) actual d₁ d₂ =
      subst (λ n. Queued (take actual buffer) actual d₁ (queue_message k buffer actual n [] d₁))
        (sym bulk) (queue_message-Queued k buffer actual [] d₁ h fits) in
    let same = urb_submit-SameQueue k id d₂ in
    let here : d₂.urbs id ≡ some v = ap (λ store. store id) queued.2 ∙ rw (==_refl id) refl in
    let sent = urb_submit-history k id v d₂ here in
    subst (Received id u buffer actual d)
      (sym (completion_get_message_eq k id actual buffer u d e ok some_bytes))
      (
        same.0 ∙ queued.0,
        same.1 ∙ queued.1,
        sent
            ∙ ap
                (λ calls.
                  usb_submit_urb id u.transfer_buffer_length buffer
                  ∷ init_completion (urb_event id)
                  ∷ calls)
                queued.3,
      )
