-- ===== src/Tests/Modules.antt =====
-- The theorems on the connection of a device and on the end of the cache, applied to a small device.
use fl.Tests.{working, board, context}
use fl.Base.{ℕ, true, false, some, ◌∷◌, [], refl, ◌≡◌, ◌+◌, arith}
use fl.Base.Int.{pos, negsuc, is_neg}
use fl.Device.{bulk_out, simple, interrupt_out, cache_write}
use fl.Kernel.{Kernel}
use fl.Urb.{new_urb}
use fl.Xhci.{new_work}
use fl.Module.{Module, Usb, connect}
use fl.Module.Leak.{connect_leaks}
use fl.Cache.Destroy.{cache_destroy}
use fl.Cache.Teardown.{IsGone, Each, cache_destroy_lem}

abbrev refusing : Kernel
refusing = record working { interfaces = λ calls. negsuc 31 }

abbrev usb : Usb
usb = record {
  kernel = refusing;
  meanwhile = λ d. d;
  disabled = false;
  creates_hcd = λ calls. true;
  add_hcd = λ calls. pos 0;
  while_adding = λ x. x;
  while_removing = λ x. x;
  get_configuration = λ calls. (pos 1, 1);
  set_configuration = λ calls. pos 0;
}

abbrev module_of : Module
module_of = record {
  xhci = board;
  context_allocated = false;
  work_item_queue = false;
  xhci_allocated = false;
  hcd_allocated = false;
  usb_device_refs = 1;
}

connect_leaks_example :
    let r = connect usb 0 module_of in
    (is_neg r.1 ≡ true)
    × (r.0.context_allocated ≡ false)
    × (r.0.usb_device_refs ≡ 1)
    × (r.0.xhci.device.urbs 10 ≡ some (new_urb bulk_out simple 0 8))
connect_leaks_example = connect_leaks usb module_of (λ calls. refl) (λ calls. refl) (λ calls. refl)

abbrev urb_of : ℕ → ℕ
urb_of id = 7 + id

cache_destroy_example :
    ((cache_destroy board).device.faults ≡ [])
    × ((cache_destroy board).cache_queue_free ≡ [])
    × ((cache_destroy board).cache_queue_used ≡ [])
    × ((cache_destroy board).cache_list_free ≡ [])
    × ((cache_destroy board).cache_list_used ≡ [])
    × Each (IsGone urb_of (cache_destroy board)) (0 ∷ [])
cache_destroy_example =
    cache_destroy_lem urb_of board (λ i j ne. omega arith) (tt, tt)
      (
        record {
          work = new_work 7;
          urb = context interrupt_out (cache_write 0) 3080;
          work_there = refl;
          its_urb = refl;
          urb_there = refl;
        },
        tt,
      )
