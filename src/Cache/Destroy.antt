-- ===== src/Cache/Destroy.antt =====
-- `ehub_xhci_cache_destroy` (xhci-ehub.c).
use fl.Base.{ℕ, List, [], ◌∷◌, none, some}
use fl.Kernel.{kfree}
use fl.Device.{Device, record_call, add_fault, freed_pointer}
use fl.Urb.{urb_destroy}
use fl.Xhci.{Xhci, put_work, on_device}

-- Blocks are freed, one after the other.
unfoldable pub free_blocks : List ℕ → Device → Device
free_blocks [] d = d
free_blocks (_ ∷ blocks) d = free_blocks blocks (record_call kfree d)

-- A work context, with its URB context.
unfoldable pub destroy_work : ℕ → Xhci → Xhci
destroy_work id x = elim (x.works id) [
  | none ↦ on_device (add_fault freed_pointer) x
  | some w ↦
      put_work id none (on_device (λ d. record_call kfree (urb_destroy (some w.urb_context) d)) x)
]

unfoldable pub destroy_works : List ℕ → Xhci → Xhci
destroy_works [] x = x
destroy_works (id ∷ works) x = destroy_works works (destroy_work id x)

-- The blocks of both lists, and the work contexts of both queues, are freed.
unfoldable pub cache_destroy : Xhci → Xhci
cache_destroy x =
    let x₁ = on_device (λ d. free_blocks x.cache_list_used (free_blocks x.cache_list_free d)) x in
    let x₂ = record x₁ { cache_list_free = []; cache_list_used = [] } in
    let x₃ = destroy_works x.cache_queue_used (destroy_works x.cache_queue_free x₂) in
    record x₃ { cache_queue_free = []; cache_queue_used = [] }
