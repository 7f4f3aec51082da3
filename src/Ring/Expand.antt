-- ===== src/Ring/Expand.antt =====
-- `ehub_xhci_ring_expansion` (xhci-mem.c) and `prepare_ring` (xhci-ring.c), for the rings that are no
-- stream rings: those have a map of their addresses besides.
use fl.Device.{add_fault, null_pointer, out_of_bounds}
use fl.Ring.Build.{alloc_segments, link_segments, set_toggle, mirror_link}
use fl.Xhci.{Xhci, on_device}
use fl.Kernel.{Kernel}
use fl.Ring.{
  last_trb, Quirks, Ring, Segment, RingType, put_control, with_chain, next_seg, is_link, is_event,
  control_at, ehub_cache_ring, is_command,
}
use fl.Ring.Move.{keeps_chain, num_trbs_needed, give_link, to_next_seg}
use fl.Base.{
  ℕ, List, Bool, ◌+◌, if◌then◌else◌, Option, ltb, length, get_elem?, ◌-◌, ◌==◌, none, take, some,
  ◌/◌, ◌*◌, ◌||◌, suc, true, ◌%◌, not, ◌++◌, drop, ◌&&◌, false, ◌^◌, zero,
}
use fl.Base.Int.{ℤ, pos, negsuc, is_neg, einval, enomem}

-- `new` segments are put behind the one with the enqueue pointer; the other pointers stay with their
-- segments.
abbrev pub insert_segments : List Segment → Ring → Ring
insert_segments new r =
    let moved = λ (seg : ℕ). if ltb r.enq_seg seg then seg + length new else seg in
    record r {
      segs = take (suc r.enq_seg) r.segs ++ new ++ drop (suc r.enq_seg) r.segs;
      deq_seg = moved r.deq_seg;
      cache_enq_seg = moved r.cache_enq_seg;
    }

-- The DMA address of a segment.
abbrev pub dma_of : List Segment → ℕ → ℕ
dma_of segs seg = elim (get_elem? segs seg) [ none ↦ 0 | some s ↦ s.dma ]

-- Where the segments are put behind the last one, the toggle goes to the last of them.
abbrev pub move_toggle : ℕ → ℕ → List Segment → List Segment
move_toggle old new segs =
    put_control (put_control segs old 63 (λ c. c - 2 * ((c / 2) % 2))) new 63 set_toggle

-- `xhci_link_rings`. After a cache write that fails the segments are linked in part, and nothing is
-- counted: then the ring is as before, and the last component `false`.
unfoldable pub link_rings : Kernel → Quirks → Ring → List Segment → Xhci → Xhci × Ring × Bool
link_rings k q r new x =
    let at = r.enq_seg in
    let end = at + length new in
    let next = dma_of r.segs (next_seg r.segs at) in
    let whole = insert_segments new r in
    let (x₁, segs₁) = link_segments k q r.ring_type at (dma_of new 0) whole.segs x in
    let (x₂, segs₂) = link_segments k q r.ring_type end next segs₁ x₁ in
    let behind_last = not (is_event r.ring_type) && (suc at == length r.segs) in
    if x₁.device.error_flags.embedded_cache_write_error
    then (x₁, r, false)
    else if x₂.device.error_flags.embedded_cache_write_error
    then (x₂, r, false)
    else (
      x₂,
      record whole {
        segs = if behind_last then move_toggle at end segs₂ else segs₂;
        num_trbs_free = (r.num_trbs_free + 63 * length new) % 2 ^ 32;
      },
      true,
    )

-- The segments that an expansion adds: as many as are needed, or as there are.
abbrev pub new_segs : Ring → ℕ → ℕ
new_segs r num_trbs =
    let needed = (num_trbs + 63 - 1) / 63 in
    if ltb needed (length r.segs) then length r.segs else needed

-- `ehub_xhci_ring_expansion`
unfoldable pub ring_expansion : Kernel → Quirks → ℕ → Ring → Xhci → Xhci × ℤ × Ring × Bool
ring_expansion k q num_trbs r x =
    let (x₁, made) = alloc_segments k q r.ring_type r.cycle_state (new_segs r num_trbs) x in
    elim made [
      | none ↦ (x₁, enomem, r, true)
      | some new ↦ let (x₂, r₂, linked) = link_rings k q r new x₁ in (x₂, pos 0, r₂, linked)
    ]

-- The loop of `prepare_ring` that makes room, on fuel: `none` where it does not end. The Boolean is
-- whether all segments are linked. The command ring is not expanded.
unfoldable pub make_room :
    ℕ → Kernel → Quirks → ℕ → Bool → Ring → Xhci → Option (Xhci × ℤ × Ring × Bool)
make_room zero k q num_trbs linked r x = none
make_room (suc fuel) k q num_trbs linked r x =
    let needed = num_trbs_needed r num_trbs in
    let (x₁, status, r₁, all_linked) = ring_expansion k q needed r x in
    let rest = make_room fuel k q num_trbs (linked && all_linked) r₁ x₁ in
    if ltb needed 1
    then some (x, pos 0, r, linked)
    else if is_command r.ring_type
    then some (x, enomem, r, linked)
    else if is_neg status
    then some (x₁, enomem, r₁, linked)
    else rest

-- The control word of a link before the first TRB of a TD: not chained, or always chained.
abbrev pub first_link_change : Quirks → RingType → ℕ → ℕ
first_link_change q kind c = with_chain (if keeps_chain q kind then 1 else 0) c

-- The link at the enqueue pointer goes to the cache.
unfoldable pub mirror_enq : Kernel → Ring → Xhci → Xhci × ℤ
mirror_enq k r x = elim (get_elem? r.segs r.enq_seg) [
  | none ↦ (on_device (add_fault null_pointer) x, pos 0)
  | some s ↦ elim (get_elem? s.trbs r.enqueue) [
    | none ↦ (on_device (add_fault out_of_bounds) x, pos 0)
    | some t ↦ mirror_link k s t x
  ]
]

-- The loop of `prepare_ring` over links, on fuel. A write that fails leaves the pointer where it is.
unfoldable pub leave_links : ℕ → Kernel → Quirks → Ring → Xhci → Option (Xhci × ℤ × Ring)
leave_links zero k q r x = none
leave_links (suc fuel) k q r x =
    let r₁ = give_link (first_link_change q r.ring_type) r in
    let (x₁, status) = if ehub_cache_ring r.ring_type then mirror_enq k r₁ x else (x, pos 0) in
    let rest = leave_links fuel k q (to_next_seg r₁) x₁ in
    if last_trb r r.enq_seg r.enqueue
    then (if is_neg status then some (x₁, status, r₁) else rest)
    else some (x, pos 0, r)

-- What `prepare_ring` says of the state of the endpoint: disabled is 0, running 1, halted 2,
-- stopped 3, error 4.
abbrev pub endpoint_status : ℕ → ℤ
endpoint_status ep_state =
    if ep_state == 0
    then negsuc 1
    else if (ep_state == 1) || ((ep_state == 2) || (ep_state == 3))
    then pos 0
    else einval

-- `prepare_ring`, with three rounds for room, and for the links one for each segment and one.
unfoldable pub prepare_ring :
    Kernel → Quirks → ℕ → ℕ → Ring → Xhci → Option (Xhci × ℤ × Ring × Bool)
prepare_ring k q ep_state num_trbs r x =
    if is_neg (endpoint_status ep_state)
    then some (x, endpoint_status ep_state, r, true)
    else elim (make_room 3 k q num_trbs true r x) [
      | none ↦ none
      | some (x₁, status, r₁, linked) ↦
          if is_neg status
          then some (x₁, status, r₁, linked)
          else if is_link (control_at r₁.segs r₁.enq_seg r₁.enqueue)
          then elim (leave_links (suc (length r₁.segs)) k q r₁ x₁) [
            | none ↦ none
            | some (x₂, status₂, r₂) ↦ some (x₂, status₂, r₂, linked)
          ]
          else some (x₁, pos 0, r₁, linked)
    ]
