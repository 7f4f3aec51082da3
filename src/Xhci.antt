-- ===== src/Xhci.antt =====
-- The part of `struct xhci_hcd` (xhci.h) that xhci-ehub.c keeps: the cache blocks, the queue of
-- cache writes, and the lock over both.
pub mod Frame
use fl.Base.{
  ◌*◌, ℕ, suc, zero, ◌+◌, Bool, true, false, not, Option, none, some, List, [], ◌∷◌, ◌++◌, ◌==◌,
  ltb, if◌then◌else◌,
}
use fl.Base.Int.{ℤ, pos, is_neg, enobufs}
use fl.Base.Chain.{remove}
use fl.Base.Bytes.{u32_max}
use fl.Kernel.{Kernel, kzalloc, kfree, ring_ep_doorbell, ring_cmd_doorbell}
use fl.Device.{
  Device, cache_write, interrupt_out, freed_pointer, out_of_bounds, deadlock, add_fault,
  record_call, error_check, status_complete,
}
use fl.Urb.{put_urb, urb_create}
use fl.CacheWrite.{embedded_cache_write}

-- `struct cache_write_context`. The data are the bytes behind `DataBuffer`, `none` for NULL.
pub record CacheWork : Type 0 where
  pub urb_context : ℕ
  pub cache_address : ℕ
  pub data_buffer : Option (List ℕ)
  pub data_buffer_length : ℕ
  pub trb_cycle_state : ℤ
  pub ring_doorbell : Bool
  pub slot_id : ℕ
  pub ep_index : ℕ
  pub stream_id : ℕ

-- The four lists hold numbers: of blocks, and of work contexts. `block_urb` is the block's `urb`.
pub record Xhci : Type 0 where
  pub device : Device
  pub cache_list_free : List ℕ
  pub cache_list_used : List ℕ
  pub number_of_caches_free : ℕ
  pub number_of_caches_used : ℕ
  pub block_urb : ℕ → Option ℕ
  pub cache_list_lock : Bool
  pub cache_queue_free : List ℕ
  pub cache_queue_used : List ℕ
  pub works : ℕ → Option CacheWork
  pub next_work : ℕ

abbrev pub on_device : (Device → Device) → Xhci → Xhci
on_device f x = record x { device = f x.device }

abbrev pub put_work : ℕ → Option CacheWork → Xhci → Xhci
put_work id w x = record x { works = λ n. if n == id then w else x.works n }

-- `spin_lock_irqsave( &xhci->cache_list_lock )`: waiting for oneself never ends.
unfoldable pub spin_lock : Xhci → Xhci
spin_lock x =
    if x.cache_list_lock
    then on_device (add_fault deadlock) x
    else record x { cache_list_lock = true }

-- `spin_unlock_irqrestore`
abbrev pub spin_unlock : Xhci → Xhci
spin_unlock x = record x { cache_list_lock = false }

-- The buffer of a cache write: `sizeof(EMBEDDED_CACHE_TRANSFER) + MESSAGE_DATA_BUFFER_SIZE_CACHE`.
abbrev pub cache_buffer_size : ℕ
cache_buffer_size = 8 + 0x400 * 3

abbrev pub new_work : ℕ → CacheWork
new_work urb = record {
  urb_context = urb;
  cache_address = 0;
  data_buffer = none;
  data_buffer_length = 0;
  trb_cycle_state = pos 0;
  ring_doorbell = false;
  slot_id = 0;
  ep_index = 0;
  stream_id = 0;
}

-- One round of `ehub_xhci_cache_work_expand`: a work context with its URB context, at the end of
-- the free queue, or nothing.
unfoldable pub cache_work_add : Kernel → Xhci → Xhci × Bool
cache_work_add k x =
    let d₁ = record_call kzalloc x.device in
    let id = x.next_work in
    let (d₂, urb) = urb_create k interrupt_out cache_buffer_size (cache_write id) d₁ in
    if not (k.allocates d₁.history) then (record x { device = d₁ }, false) else elim urb [
      | none ↦ (record x { device = record_call kfree d₂; next_work = suc id }, false)
      | some u ↦ (
        put_work id (some (new_work u)) (record x {
          device = d₂;
          next_work = suc id;
          cache_queue_free = x.cache_queue_free ++ id ∷ [];
        }),
        true,
      )
    ]

-- `ehub_xhci_cache_work_expand`, with the number of contexts that it made.
unfoldable pub cache_work_expand : Kernel → ℕ → Xhci → Xhci × ℕ
cache_work_expand k zero x = (x, 0)
cache_work_expand k (suc entries) x =
    let (x₁, made) = cache_work_add k x in
    let (x₂, more) = cache_work_expand k entries x₁ in if made then (x₂, suc more) else (x₁, 0)

-- The first free work context goes to the end of the used queue.
unfoldable pub take_work : Xhci → Xhci × Option ℕ
take_work x = elim x.cache_queue_free [
  | [] ↦ (spin_unlock (on_device (add_fault out_of_bounds) x), none)
  | id ∷ rest ↦ (
    spin_unlock (record x {
      cache_queue_free = rest;
      cache_queue_used = remove id x.cache_queue_used ++ id ∷ [];
    }),
    some id,
  )
]

-- What `ehub_get_cache_work_context` does under the lock.
unfoldable pub get_work_locked : Kernel → Xhci → Xhci × Option ℕ
get_work_locked k x = elim x.cache_queue_free [
  | [] ↦
      let (x₁, new_entries) = cache_work_expand k 4 x in
      if ltb new_entries 1 then (spin_unlock x₁, none) else take_work x₁
  | _ ∷ _ ↦ take_work x
]

-- `ehub_get_cache_work_context`
unfoldable pub get_cache_work_context : Kernel → Xhci → Xhci × Option ℕ
get_cache_work_context k x =
    if is_neg (error_check x.device) then (x, none) else get_work_locked k (spin_lock x)

-- The request that `ehub_queue_cache_write` fills in, and its write.
unfoldable pub write_work : Kernel → ℕ → (ℕ → CacheWork) → Xhci → Xhci × ℤ
write_work k id request x = elim (x.works id) [
  | none ↦ (on_device (add_fault freed_pointer) x, enobufs)
  | some old ↦
      let w = request old.urb_context in
      let (d, status) =
        embedded_cache_write k w.urb_context w.cache_address w.data_buffer w.data_buffer_length
          w.trb_cycle_state x.device in
      (record (put_work id (some w) x) { device = d }, status)
]

-- `ehub_queue_cache_write`, without `USE_DELAYED_CACHE_MODE`: the write is made at once.
unfoldable pub queue_cache_write : Kernel → (ℕ → CacheWork) → Xhci → Xhci × ℤ
queue_cache_write k request x =
    let checked = error_check x.device in
    let (x₁, work) = get_cache_work_context k x in
    if is_neg checked
    then (x, checked)
    else elim work [ none ↦ (x₁, enobufs) | some id ↦ write_work k id request x₁ ]

-- The doorbell that a cache write may ask for, once its data are in the cache.
abbrev pub ring_for : CacheWork → Device → Device
ring_for w d =
    if w.ring_doorbell
    then if w.stream_id == u32_max
      then record_call ring_cmd_doorbell d
      else record_call (ring_ep_doorbell w.slot_id w.ep_index w.stream_id) d
    else d

-- `UrbContext->Status = URB_STATUS_COMPLETE`
unfoldable pub finish_urb : ℕ → Device → Device
finish_urb urb d = elim (d.urbs urb) [
  | none ↦ add_fault freed_pointer d
  | some u ↦ put_urb urb (some (record u { status = status_complete })) d
]

-- `URB_CompletionRoutine_Cache`
unfoldable pub completion_cache : ℕ → Xhci → Xhci
completion_cache id x = elim (x.works id) [
  | none ↦ on_device (add_fault freed_pointer) x
  | some w ↦
      if is_neg (error_check x.device)
      then x
      else let x₁ = spin_lock x in
        let x₂ = spin_unlock (record x₁ {
          cache_queue_free = remove id x₁.cache_queue_free;
          cache_queue_used = remove id x₁.cache_queue_used;
        }) in
        let d = ring_for w x₂.device in
        let x₃ = spin_lock (record x₂ { device = finish_urb w.urb_context d }) in
        spin_unlock (record x₃ { cache_queue_free = x₃.cache_queue_free ++ id ∷ [] })
]
