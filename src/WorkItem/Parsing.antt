-- ===== src/WorkItem/Parsing.antt =====
-- The handling of messages (ehub_message.c) and the queue of work items.
use fl.Base.Int.{is_neg}
use fl.Base.Bytes.{u32_at}
use fl.Kernel.{Kernel, probe_kernel_read}
use fl.Register.{write_buffer}
use fl.Urb.{urb_submit, put_urb}
use fl.Device.{Device, record_call, number_of_message_bulk, error_check}
use fl.Message.{
  event_trb, register_read_completion, memory_write_completion, memory_read_completion, unknown,
  parse_loop, fill_read, handle, handle_memory_read, send_read, handle_event_trb,
  handle_register_read, handle_memory_write, MessageType, header_length, target_address, check_read,
  roundup4, get_type, goes_on,
}
use fl.Base.{
  ℕ, ◌≡◌, List, Option-cases, arith, inl, inr, take, ◌∙◌, refl, some, ◌+◌, suc, ◌%◌, drop,
  Bool-cases, ltb, length, zero, Option, none, get_elem?,
}

-- Two devices with the same queue.
abbrev pub SameQueue : Device → Device → Type 0
SameQueue d d' =
    (d'.work_item_processing_queue ≡ d.work_item_processing_queue)
    × (d'.number_of_work_item_in_processing_queue ≡ d.number_of_work_item_in_processing_queue)

write_buffer-SameQueue :
    (id off : ℕ) (bs : List ℕ) (d : Device) → SameQueue d (write_buffer id off bs d)
unfolding write_buffer
write_buffer-SameQueue id off bs d = ground arith

pub urb_submit-SameQueue : (k : Kernel) (id : ℕ) (d : Device) → SameQueue d (urb_submit k id d).0
unfolding urb_submit
urb_submit-SameQueue k id d = ground arith

send_read-SameQueue : (k : Kernel) (id len : ℕ) (d : Device) → SameQueue d (send_read k id len d)
unfolding send_read
send_read-SameQueue k id len d = elim (Option-cases (k.reads d.history)) [
  | inl e ↦ rw (e, send_read) (refl, refl)
  | inr (bytes, e) ↦
      let w = write_buffer-SameQueue id 4 (take len bytes) d in
      let s = urb_submit-SameQueue k id (write_buffer id 4 (take len bytes) d) in
      rw (e, send_read) (s.0 ∙ w.0, s.1 ∙ w.1)
]

fill_read-SameQueue :
    (k : Kernel) (id : ℕ) (buffer : List ℕ) (d : Device) → SameQueue d (fill_read k id buffer d)
unfolding fill_read
fill_read-SameQueue k id buffer d = elim (Option-cases (d.urbs id)) [
  | inl e ↦ rw (e, fill_read) (refl, refl)
  | inr (u, e) ↦
      let len = header_length (u32_at buffer) in
      let d₁ = put_urb id (some (record u { transfer_buffer_length = 4 + len })) d in
      let d₂ = write_buffer id 0 (take 4 buffer) d₁ in
      let w = write_buffer-SameQueue id 0 (take 4 buffer) d₁ in
      let s =
        send_read-SameQueue k id len
          (record_call (probe_kernel_read (target_address buffer) len) d₂) in
      rw (e, fill_read) (s.0 ∙ w.0, s.1 ∙ w.1)
]

check_read-SameQueue : (n : ℕ) (buffer : List ℕ) (d : Device) → SameQueue d (check_read n buffer d)
check_read-SameQueue n buffer d = ground arith

handle_memory_read-SameQueue :
    (k : Kernel) (buffer : List ℕ) (d : Device) → SameQueue d (handle_memory_read k buffer d)
unfolding handle_memory_read
handle_memory_read-SameQueue k buffer d =
    let index = d.current_embedded_memory_read_completion_index in
    let d₁ = record (check_read 12 buffer d) {
      current_embedded_memory_read_completion_index = (index + 1) % number_of_message_bulk;
    } in
    let checked = check_read-SameQueue 12 buffer d in
    elim (Bool-cases (is_neg (error_check d))) [
      | inl bad ↦ rw (bad, handle_memory_read) checked
      | inr ok ↦
          elim (Option-cases (get_elem? d.urb_context_embedded_memory_read_completion index)) [
            | inl e ↦ rw (ok, e, handle_memory_read) checked
            | inr (none, e) ↦ rw (ok, e, handle_memory_read) checked
            | inr (some id, e) ↦
                let filled = fill_read-SameQueue k id buffer d₁ in
                rw (ok, e, handle_memory_read) (filled.0 ∙ checked.0, filled.1 ∙ checked.1)
          ]
    ]

handle-SameQueue :
    (k : Kernel) (t : MessageType) (buffer : List ℕ) (d : Device)
    → SameQueue d (handle k t buffer d)
unfolding handle handle_event_trb handle_register_read handle_memory_write
handle-SameQueue k register_read_completion buffer d = ground arith
handle-SameQueue k memory_read_completion buffer d = handle_memory_read-SameQueue k buffer d
handle-SameQueue k event_trb buffer d = ground arith
handle-SameQueue k memory_write_completion buffer d = ground arith
handle-SameQueue k unknown buffer d = (refl, refl)

-- A result of the parser, if there is one, has the queue of the device.
abbrev pub Keeps : Device → Option Device → Type 0
Keeps d none = Unit {0}
Keeps d (some d') = SameQueue d d'

Keeps-trans : (d d' : Device) (r : Option Device) → SameQueue d d' → Keeps d' r → Keeps d r
Keeps-trans d d' none s kept = kept
Keeps-trans d d' (some r) s kept = (kept.0 ∙ s.0, kept.1 ∙ s.1)

pub parse_loop-Keeps :
    (k : Kernel) (fuel : ℕ) (buffer : List ℕ) (parsed total : ℕ) (d : Device)
    → Keeps d (parse_loop k fuel buffer parsed total d)
unfolding parse_loop
parse_loop-Keeps k zero buffer parsed total d = tt
parse_loop-Keeps k (suc fuel) buffer parsed total d =
    let w = u32_at buffer in
    let size = roundup4 (get_type w).1 in
    let handled = handle k (get_type w).0 buffer d in
    let h = handle-SameQueue k (get_type w).0 buffer d in
    elim (Bool-cases (ltb (length buffer) 4)) [
      | inl short ↦ rw short (refl, refl)
      | inr long ↦ elim (Bool-cases (goes_on w d)) [
        | inr stops ↦ rw (long, stops) (refl, refl)
        | inl on ↦ elim (Bool-cases (ltb (parsed + size) total)) [
          | inr over ↦ rw (long, on, over) h
          | inl more ↦
              rw (long, on, more)
                (Keeps-trans d handled _ h
                  (parse_loop-Keeps k fuel (drop size buffer) (parsed + size) total handled))
        ]
      ]
    ]
