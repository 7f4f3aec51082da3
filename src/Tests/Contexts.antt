-- ===== src/Tests/Contexts.antt =====
-- The theorems on URB contexts and message loops, applied to a small device.
use fl.Tests.{device, working, no_buffers, context}
use fl.Loop.Start.{start_loop_bulk_dangling}
use fl.Loop.{stop_loop_bulk, stop_loop_interrupt, start_loop_bulk}
use fl.Urb.Create.{Outcome, urb_create_lem, urb_create_use_after_free}
use fl.Loop.Stop.{Stopped, stop_loop_bulk_lem, stop_loop_interrupt_lem}
use fl.Base.Int.{is_neg, negsuc}
use fl.Urb.{urb_create, urb_submit}
use fl.Device.{Device, UrbContext, bound, bulk_in, get_message, interrupt_in, freed_pointer}
use fl.Kernel.{Kernel}
use fl.Base.{◌∷◌, [], some, true, none, refl, replicate, ◌≡◌, if◌then◌else◌, ◌==◌, ◌||◌}

urb_create_example :
    Outcome working bulk_in get_message 0 100 device
      (urb_create working bulk_in 100 get_message device)
urb_create_example = urb_create_lem working bulk_in 100 get_message bound device refl refl refl

use_after_free_example :
    let r = urb_create no_buffers bulk_in 100 get_message device in
    (r.1 ≡ some 10) × ((urb_submit no_buffers 10 r.0).0.faults ≡ freed_pointer ∷ r.0.faults)
use_after_free_example =
    urb_create_use_after_free no_buffers bulk_in 100 get_message bound device refl refl refl refl
      refl

stop_bulk_example :
    Stopped bulk_in [] device.urb_context_message_bulk device (stop_loop_bulk device)
stop_bulk_example =
    let alive : (u : UrbContext) × (some (context bulk_in get_message 8192) ≡ some u) =
      (context bulk_in get_message 8192, refl) in
    stop_loop_bulk_lem device (alive, refl, (alive, refl, tt))

-- Two contexts that poll an interrupt endpoint.
abbrev polling : Device
polling = record device {
  urb_context_message_interrupt = some 8 ∷ some 9 ∷ replicate 6 none;
  urbs = λ n.
      if (n == 8) || (n == 9) then some (context interrupt_in get_message 64) else device.urbs n;
}

stop_interrupt_example :
    Stopped interrupt_in [] polling.urb_context_message_interrupt polling
      (stop_loop_interrupt polling)
stop_interrupt_example =
    let alive : (u : UrbContext) × (some (context interrupt_in get_message 64) ≡ some u) =
      (context interrupt_in get_message 64, refl) in
    stop_loop_interrupt_lem polling (alive, refl, (alive, refl, tt))

-- A kernel that takes no URB.
abbrev rejecting : Kernel
rejecting = record working { submits = λ calls. negsuc 31 }

abbrev fresh : Device
fresh = record device { urb_context_message_bulk = replicate 8 none }

dangling_example :
    let r = start_loop_bulk rejecting fresh in
    (is_neg r.1 ≡ true)
    × (r.0.urb_context_message_bulk ≡ some 10 ∷ replicate 7 none)
    × ((stop_loop_bulk r.0).faults ≡ freed_pointer ∷ [])
dangling_example =
    start_loop_bulk_dangling rejecting (replicate 7 none) bound fresh (λ calls. refl)
      (λ calls. refl) refl refl refl refl
