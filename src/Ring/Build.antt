-- ===== src/Ring/Build.antt =====
-- How xhci-mem.c makes the segments of a ring, with their cache blocks, and links them.
use fl.CacheWrite.{trbs_per_segment}
use fl.Cache.{block_allocate_segment, block_address, block_free}
use fl.Base.Int.{ℤ, pos, negsuc}
use fl.Device.{record_call, add_fault, null_pointer, out_of_bounds}
use fl.Kernel.{Kernel, kfree, kzalloc, dma_pool_free, dma_pool_alloc}
use fl.Xhci.{Xhci, on_device, CacheWork, queue_cache_write}
use fl.Ring.{
  Quirks, RingType, Trb, Segment, ehub_cache_ring, with_chain, is_event, put_trb, Ring, put_control,
}
use fl.Ring.Move.{keeps_chain, initialize_ring_info}
use fl.Base.{
  ℕ, List, ◌++◌, Option, Bool, ◌∷◌, ◌-◌, some, get_elem?, ◌*◌, [], if◌then◌else◌, suc, ◌/◌, ◌+◌,
  ◌%◌, not, length, ◌^◌, none, replicate, zero, ◌==◌, false,
}
use fl.Base.Bytes.{le32}

-- The bytes of TRBs in memory.
abbrev pub trb_bytes : Trb → List ℕ
trb_bytes t = le32 t.field0 ++ le32 t.field1 ++ le32 t.field2 ++ le32 t.field3

unfoldable pub all_bytes : List Trb → List ℕ
all_bytes [] = []
all_bytes (t ∷ ts) = trb_bytes t ++ all_bytes ts

-- `xhci_segment_alloc`. The DMA address is that of the memory.
unfoldable pub segment_alloc : Kernel → ℕ → Xhci → Xhci × Option Segment
segment_alloc k cycle x =
    let d₁ = record_call kzalloc x.device in
    let d₂ = record_call dma_pool_alloc d₁ in
    if not (k.allocates d₁.history)
    then (record x { device = d₁ }, none)
    else elim (k.pools d₂.history) [
      | none ↦ (record x { device = record_call kfree d₂ }, none)
      | some address ↦ (
        record x { device = d₂ },
        some (record {
          trbs =
              replicate trbs_per_segment (record {
                field0 = 0;
                field1 = 0;
                field2 = 0;
                field3 = if cycle == 0 then 1 else 0;
              });
          dma = address;
          ehub_cache_block = none;
        }),
      )
    ]

-- `xhci_segment_free`
abbrev pub segment_free : Xhci → Xhci
segment_free x = on_device (λ d. record_call kfree (record_call dma_pool_free d)) x

-- A segment of a mirrored ring gets its cache block, and the address of it. Without a block the
-- caller returns, and keeps nothing of the segment.
unfoldable pub segment_block : Kernel → RingType → ℕ → Segment → Xhci → Xhci × Option Segment
segment_block k kind cycle s x =
    let (x₁, block) = block_allocate_segment k (pos cycle) (some (all_bytes s.trbs)) x in
    if ehub_cache_ring kind
    then elim block [
      | none ↦ (x₁, none)
      | some b ↦ (x₁, some (record s { ehub_cache_block = some b; dma = block_address b }))
    ]
    else (x, some s)

-- The link TRB that leads to this address.
abbrev pub link_to : Quirks → RingType → ℕ → Trb → Trb
link_to q kind address t =
    let control = t.field3 - 1024 * ((t.field3 / 1024) % 64) + 1024 * 6 in
    record t {
      field0 = address % 2 ^ 32;
      field1 = (address / 2 ^ 32) % 2 ^ 32;
      field3 = if keeps_chain q kind then with_chain 1 control else control;
    }

-- The write of the TRBs that are `index` TRBs after the start of block `b`.
abbrev pub trb_write : ℕ → ℕ → List Trb → Bool → ℕ × ℕ × ℕ → ℕ → CacheWork
trb_write b index trbs doorbell (slot, ep, stream) urb = record {
  urb_context = urb;
  cache_address = block_address b + 16 * index;
  data_buffer = some (all_bytes trbs);
  data_buffer_length = 16 * length trbs;
  trb_cycle_state = negsuc 0;
  ring_doorbell = doorbell;
  slot_id = slot;
  ep_index = ep;
  stream_id = stream;
}

-- The link TRB of a segment goes to the cache.
unfoldable pub mirror_link : Kernel → Segment → Trb → Xhci → Xhci × ℤ
mirror_link k s t x = elim s.ehub_cache_block [
  | none ↦ (on_device (add_fault null_pointer) x, pos 0)
  | some b ↦ queue_cache_write k (trb_write b 63 (t ∷ []) false (0, 0, 0)) x
]

-- `xhci_link_segments`, from segment `prev` to the one at this address. A write that fails is only
-- printed. The link of an event ring is its `next`, which the place in the list stands for.
unfoldable pub link_segments :
    Kernel → Quirks → RingType → ℕ → ℕ → List Segment → Xhci → Xhci × List Segment
link_segments k q kind prev address segs x = elim (get_elem? segs prev) [
  | none ↦ (x, segs)
  | some s ↦ elim (get_elem? s.trbs 63) [
    | none ↦ (on_device (add_fault out_of_bounds) x, segs)
    | some t ↦
        let link = link_to q kind address t in
        if is_event kind
        then (x, segs)
        else if ehub_cache_ring kind
        then ((mirror_link k s link x).0, put_trb segs prev 63 link)
        else (x, put_trb segs prev 63 link)
  ]
]

-- The segments that were made are given back, with their cache blocks.
unfoldable pub free_segments : RingType → List Segment → Xhci → Xhci
free_segments kind [] x = x
free_segments kind (s ∷ rest) x =
    let x₁ =
      if ehub_cache_ring kind
      then elim s.ehub_cache_block [
        | none ↦ on_device (add_fault null_pointer) x
        | some b ↦ block_free b x
      ]
      else x in
    free_segments kind rest (segment_free x₁)

-- The loop of `xhci_alloc_segments_for_ring`: `more` segments after those of the list, which is
-- not empty. `none` is -ENOMEM; only where `xhci_segment_alloc` fails is anything given back.
unfoldable pub alloc_more :
    Kernel → Quirks → RingType → ℕ → ℕ → List Segment → Xhci → Xhci × Option (List Segment)
alloc_more k q kind cycle zero segs x = (x, some segs)
alloc_more k q kind cycle (suc more) segs x =
    let (x₁, allocated) = segment_alloc k cycle x in
    elim allocated [
      | none ↦ (free_segments kind segs x₁, none)
      | some s ↦
          let (x₂, mirrored) = segment_block k kind cycle s x₁ in
          elim mirrored [
            | none ↦ (x₂, none)
            | some s' ↦
                let (x₃, linked) = link_segments k q kind (length segs - 1) s'.dma segs x₂ in
                let rest = alloc_more k q kind cycle more (linked ++ s' ∷ []) x₃ in
                if x₃.device.error_flags.embedded_cache_write_error then (x₃, none) else rest
          ]
    ]

-- `xhci_alloc_segments_for_ring`. The last link leads to the first segment.
unfoldable pub alloc_segments :
    Kernel → Quirks → RingType → ℕ → ℕ → Xhci → Xhci × Option (List Segment)
alloc_segments k q kind cycle num_segs x =
    let (x₁, allocated) = segment_alloc k cycle x in
    elim allocated [
      | none ↦ (x₁, none)
      | some s ↦
          let (x₂, mirrored) = segment_block k kind cycle s x₁ in
          elim mirrored [
            | none ↦ (x₂, none)
            | some first ↦
                let (x₃, made) = alloc_more k q kind cycle (num_segs - 1) (first ∷ []) x₂ in
                elim made [
                  | none ↦ (x₃, none)
                  | some segs ↦
                      let (x₄, ring) = link_segments k q kind (length segs - 1) first.dma segs x₃ in
                      (x₄, some ring)
                ]
          ]
    ]

-- `kzalloc` of a ring, with its type.
abbrev pub new_ring : RingType → Ring
new_ring kind = record {
  ring_type = kind;
  segs = [];
  enq_seg = 0;
  enqueue = 0;
  deq_seg = 0;
  dequeue = 0;
  cache_enq_seg = 0;
  cache_enqueue = 0;
  cycle_state = 0;
  num_trbs_free = 0;
  enq_updates = 0;
  deq_updates = 0;
}

-- The toggle is set in the link of the last segment.
abbrev pub set_toggle : ℕ → ℕ
set_toggle c = c + 2 - 2 * ((c / 2) % 2)

-- `xhci_ring_alloc`. A ring that cannot get its segments is given back.
unfoldable pub ring_alloc : Kernel → Quirks → RingType → ℕ → ℕ → Xhci → Xhci × Option Ring
ring_alloc k q kind cycle num_segs x =
    let x₁ = on_device (record_call kzalloc) x in
    let (x₂, made) = alloc_segments k q kind cycle num_segs x₁ in
    if not (k.allocates x₁.device.history)
    then (x₁, none)
    else if num_segs == 0
    then (x₁, some (new_ring kind))
    else elim made [
      | none ↦ (on_device (record_call kfree) x₂, none)
      | some segs ↦
          let ends =
            if is_event kind then segs else put_control segs (length segs - 1) 63 set_toggle in
          (x₂, some (initialize_ring_info cycle (record (new_ring kind) { segs = ends })))
    ]
