-- ===== src/Tests/Registers.antt =====
-- The theorems on register accesses, applied to a small device.
use fl.Register.Outcome.{read_completed, read_answered, write_completed}
use fl.Base.Int.{ℤ}
use fl.Register.Outcome.{read_sent, write_sent}
use fl.Device.{bulk_out, simple, Device}
use fl.Tests.{context}
use fl.Tests.{device, context, working}
use fl.RegisterBit.Change.{
  change_calls, set_bit_after_failed_read, register_clear_bit_lem, register_set_bit_lem,
}
use fl.RegisterBit.Change.{OneBit}
use fl.Base.Int.{pos}
use fl.Base.{ℕ, arith}
use fl.RegisterBit.{register_clear_bit, register_set_bit}
use fl.Base.Bytes.{overwrite}
use fl.Register.{
  write_doorbell, doorbell_first, doorbell_send, doorbell_claim, write_request, write_buffer,
}
use fl.Register.Doorbell.{doorbell_round_trip}
use fl.Base.Chain.{remove}
use fl.Base.Int.{pos, is_neg, negsuc}
use fl.Urb.{completion_doorbell, urb_submit}
use fl.Device.{UrbContext, error_check, interrupt_out, doorbell, xhci_is_dying_safe}
use fl.Kernel.{Kernel}
use fl.Base.{◌∷◌, [], refl, false, ◌≡◌, ◌^◌}

abbrev register_context : UrbContext
register_context = context bulk_out simple 8

-- What runs during the waits of a read: the device answers with the word 42.
abbrev answer : Device → Device
answer d = record d { data_embedded_register_read = 42 }

abbrev sent : Device × ℤ
sent = read_sent working (λ d. d) answer 3 0x20 register_context device

abbrev completed : Device × ℤ
completed = read_completed working (λ d. d) answer 3 0x20 register_context device

abbrev answered : Device × ℤ
answered = read_answered working (λ d. d) answer 3 0x20 register_context device

abbrev put : Device × ℤ
put = write_sent working (λ d. d) 4 0x20 77 register_context device

abbrev finished : Device × ℤ
finished = write_completed working (λ d. d) 4 0x20 77 register_context device

abbrev doorbell_context : UrbContext
doorbell_context = context interrupt_out doorbell 8

rung-usable : is_neg (error_check (write_doorbell working 0x40 1 device).0) ≡ false
unfolding write_doorbell doorbell_first doorbell_send doorbell_claim write_request write_buffer
    urb_submit error_check xhci_is_dying_safe remove overwrite
rung-usable = refl

round_trip_example :
    let after = completion_doorbell 5 (pos 0) 8 (write_doorbell working 0x40 1 device).0 in
    (after.doorbell_list_free ≡ 6 ∷ 5 ∷ []) × (after.doorbell_list_busy ≡ [])
round_trip_example =
    doorbell_round_trip working 0x40 1 5 8 (pos 0) (6 ∷ []) doorbell_context device refl refl refl
      refl refl refl rung-usable

-- A kernel on which reads find the word 0xf0.
abbrev readable : Kernel
readable = record working { controls = λ calls. (pos 4, 0xf0) }

set_bit_example :
    (word : ℕ) × ((register_set_bit readable 0x20 3 device).history ≡ change_calls 0x20 word device)
    × OneBit 3 1 0xf0 word
set_bit_example = register_set_bit_lem readable 0x20 3 device (λ calls. refl) refl (omega arith)

clear_bit_example :
    (word : ℕ) × ((register_clear_bit readable 0x20 5 device).history
      ≡ change_calls 0x20 word device)
    × OneBit 5 0 0xf0 word
clear_bit_example = register_clear_bit_lem readable 0x20 5 device (λ calls. refl) refl (omega arith)

-- A kernel on which control messages fail.
abbrev unreadable : Kernel
unreadable = record working { controls = λ calls. (negsuc 31, 0) }

failed_read_example :
    (register_set_bit unreadable 0x20 3 device).history ≡ change_calls 0x20 (2 ^ 3) device
failed_read_example = set_bit_after_failed_read unreadable 0x20 3 device (λ calls. refl) refl
