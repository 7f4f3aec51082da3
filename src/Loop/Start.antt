-- ===== src/Loop/Start.antt =====
-- The start loops of ehub_message.c: what a submission that fails leaves for the next stop.
use fl.Urb.Create.{created_device, urb_create_ok}
use fl.Cache.Create.{NeverFails}
use fl.Loop.Stop.{ids, urb_destroy-Destroyed, Alive, stop_slots-Stopped}
use fl.Base.Int.{is_neg, pos, ℤ}
use fl.Device.{
  UrbContext, Device, status_submit_error, record_call, bulk_in, freed_pointer, status_submitted,
  add_fault, Condition, is_bound, get_message,
}
use fl.Kernel.{Kernel, Call, init_completion, urb_event, usb_submit_urb}
use fl.Loop.{
  submit_or_destroy, stop_loop_bulk, stop_slots, stop_slot, put_slots, start_slots,
  message_size_bulk, start_loop_bulk,
}
use fl.Urb.{urb_submit, put_urb, new_urb}
use fl.Base.{
  ℕ, List, Option, ◌≡◌, some, true, none, ◌∷◌, [], ◌∙◌, arith, ==_refl, refl, subst, sym, ap,
}

-- A submission that fails: its status, and a context that is still there.
urb_submit_fails :
    (k : Kernel) (id : ℕ) (u : UrbContext) (d : Device)
    → ((calls : List Call) → is_neg (k.submits calls) ≡ true)
    → d.urbs id ≡ some u
    → let r = urb_submit k id d in
      (is_neg r.1 ≡ true)
      × (r.0.urbs id ≡ some (record u { status = status_submit_error }))
      × (r.0.faults ≡ d.faults)
      × (r.0.urb_context_message_bulk ≡ d.urb_context_message_bulk)
unfolding urb_submit
urb_submit_fails k id u d h e =
    let asked = record_call (init_completion (urb_event id)) d in
    let sent =
      record_call (usb_submit_urb id u.transfer_buffer_length u.data_buffer)
        (put_urb id (some (record u { status = status_submitted })) asked) in
    rw (e, urb_submit, h sent.history, ==_refl id) (h sent.history, refl, refl, refl)

-- The context is destroyed then, and nobody is told.
submit_or_destroy_fails :
    (k : Kernel) (id : ℕ) (u : UrbContext) (d : Device)
    → ((calls : List Call) → is_neg (k.submits calls) ≡ true)
    → d.urbs id ≡ some u
    → let r = submit_or_destroy k id d in
      (is_neg r.1 ≡ true)
      × (r.0.urbs id ≡ none)
      × (r.0.faults ≡ d.faults)
      × (r.0.urb_context_message_bulk ≡ d.urb_context_message_bulk)
unfolding submit_or_destroy
submit_or_destroy_fails k id u d h e =
    let sent = urb_submit k id d in
    let (failed, there, faults, array) = urb_submit_fails k id u d h e in
    let (faults', gone, array') = urb_destroy-Destroyed bulk_in id _ sent.0 there in
    rw (failed, submit_or_destroy)
      (failed, gone id ∙ ground arith, faults' ∙ faults, array' ∙ array)

stop_slot_freed :
    (id : ℕ) (d : Device)
    → d.urbs id ≡ none
    → stop_slot bulk_in (some id) d ≡ add_fault freed_pointer d
unfolding stop_slot
stop_slot_freed id d e = ground arith

-- A stop that finds the context of its first place gone.
stop_freed :
    (id : ℕ) (rest : List (Option ℕ)) (d : Device)
    → d.urb_context_message_bulk ≡ some id ∷ rest
    → ids rest ≡ []
    → d.urbs id ≡ none
    → (stop_loop_bulk d).faults ≡ freed_pointer ∷ d.faults
unfolding stop_loop_bulk stop_slots
stop_freed id rest d array empty e =
    let d₁ = put_slots bulk_in (none ∷ rest) d in
    let alive : Alive d.urbs (ids rest) = subst (Alive d.urbs) (sym empty) tt in
    let others =
      stop_slots-Stopped bulk_in (none ∷ []) rest (add_fault freed_pointer d₁) refl alive in
    ap (λ entries. (stop_slots bulk_in [] entries d).faults) array
    ∙ ap (λ x. (stop_slots bulk_in (none ∷ []) rest x).faults) (stop_slot_freed id d₁ e)
    ∙ others.0

start_first :
    (k : Kernel) (rest : List (Option ℕ)) (condition : Condition) (d : Device)
    → NeverFails k
    → ((calls : List Call) → is_neg (k.submits calls) ≡ true)
    → d.interface_backup ≡ some condition
    → is_bound condition ≡ true
    → let made =
        put_slots bulk_in
          (some d.next_urb ∷ rest)
          (created_device bulk_in get_message message_size_bulk d) in
      start_slots k bulk_in message_size_bulk [] (none ∷ rest) (pos 0) d
      ≡ submit_or_destroy k d.next_urb made
unfolding start_slots
start_first k rest condition d h fails e b =
    let made =
      put_slots bulk_in (some d.next_urb ∷ rest)
        (created_device bulk_in get_message message_size_bulk d) in
    let failed =
      (submit_or_destroy_fails k d.next_urb (new_urb bulk_in get_message 0 message_size_bulk) made
        fails (rw (==_refl d.next_urb) refl)).0 in
    let c = urb_create_ok k bulk_in message_size_bulk get_message condition d h e b in
    rw (start_slots, c, c, failed) refl

-- Where memory suffices and the first submission of `MESSAGE_StartLoopBulk` fails, on an array of
-- NULL pointers, the function returns the failure and leaves in the array the address of the
-- context that it has destroyed; the next `MESSAGE_StopLoopBulk` uses that freed memory.
pub start_loop_bulk_dangling :
    (k : Kernel) (rest : List (Option ℕ)) (condition : Condition) (d : Device)
    → NeverFails k
    → ((calls : List Call) → is_neg (k.submits calls) ≡ true)
    → d.interface_backup ≡ some condition
    → is_bound condition ≡ true
    → d.urb_context_message_bulk ≡ none ∷ rest
    → ids rest ≡ []
    → let r = start_loop_bulk k d in
      (is_neg r.1 ≡ true)
      × (r.0.urb_context_message_bulk ≡ some d.next_urb ∷ rest)
      × ((stop_loop_bulk r.0).faults ≡ freed_pointer ∷ d.faults)
unfolding start_loop_bulk
start_loop_bulk_dangling k rest condition d h fails e b array empty =
    let made =
      put_slots bulk_in (some d.next_urb ∷ rest)
        (created_device bulk_in get_message message_size_bulk d) in
    let (failed, gone, faults, kept) =
      submit_or_destroy_fails k d.next_urb (new_urb bulk_in get_message 0 message_size_bulk) made
        fails (rw (==_refl d.next_urb) refl) in
    let started =
      ap (λ entries. start_slots k bulk_in message_size_bulk [] entries (pos 0) d) array
      ∙ start_first k rest condition d h fails e b in
    subst
      (λ (r : Device × ℤ).
        (is_neg r.1 ≡ true)
        × (r.0.urb_context_message_bulk ≡ some d.next_urb ∷ rest)
        × ((stop_loop_bulk r.0).faults ≡ freed_pointer ∷ d.faults))
      (sym started)
      (
        failed,
        kept,
        stop_freed d.next_urb rest (submit_or_destroy k d.next_urb made).0 kept empty gone
            ∙ ap (λ f. freed_pointer ∷ f) faults,
      )
