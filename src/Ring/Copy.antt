-- ===== src/Ring/Copy.antt =====
-- `ehub_xhci_cache_copy_from_ring` (xhci-ehub.c): the TRBs that were queued since the last copy go to
-- the cache of the device.
use fl.Ring.Build.{trb_write}
use fl.Device.{add_fault}
use fl.Xhci.{Xhci, on_device, queue_cache_write}
use fl.Ring.{Segment, Ring, next_seg}
use fl.Kernel.{Kernel}
use fl.Device.{breakpoint}
use fl.Cache.{block_address}
use fl.Base.{
  true, ◌+◌, ◌*◌, ℕ, Option, List, Bool, some, false, if◌then◌else◌, not, suc, get_elem?, none,
  ◌==◌, length, ◌-◌, ◌&&◌, leb, ◌||◌, zero, take, drop,
}
use fl.Base.Int.{ℤ, pos, is_neg}

-- `ehub_find_prev_trb`: before the first TRB of a segment stands the link of the segment before, and
-- nothing where that is the same segment. `LINK_TRB_INDEX` is 63.
abbrev pub find_prev_trb : List Segment → ℕ → ℕ → Option (ℕ × ℕ)
find_prev_trb segs seg index =
    if not (index == 0)
    then some (seg, index - 1)
    else if length segs == 1
    then none
    else some (if seg == 0 then length segs - 1 else seg - 1, 63)

-- Whether the last TRB is reached with the TRBs of segment `seg` from `start` on.
abbrev pub is_last_copy : Option (ℕ × ℕ) → ℕ → ℕ → Bool
is_last_copy none seg start = false
is_last_copy (some (last_seg, last)) seg start = (seg == last_seg) && leb start last

-- The last TRB of the next piece.
abbrev pub end_trb : Option (ℕ × ℕ) → ℕ → ℕ → ℕ
end_trb none seg start = 63
end_trb (some (last_seg, last)) seg start = if (seg == last_seg) && leb start last then last else 63

-- The write of `count` TRBs of a segment, from `start` on: `none` where the segment has no cache
-- block, whose address the driver would take through a null pointer.
unfoldable pub copy_piece :
    Kernel → List Segment → ℕ × ℕ × ℕ → Bool → ℕ → ℕ → ℕ → Xhci → Option (Xhci × ℤ)
copy_piece k segs ids doorbell seg start count x = elim (get_elem? segs seg) [
  | none ↦ none
  | some s ↦ elim s.ehub_cache_block [
    | none ↦ none
    | some b ↦ some (
        if (block_address b + 16 * start == 0) || (count == 0)
        then (x, pos 0)
        else queue_cache_write k (trb_write b start (take count (drop start s.trbs)) doorbell ids)
            x)
  ]
]

-- The loop, on fuel: `none` where it goes round the ring and never comes to its last TRB, or where a
-- segment has no cache block.
unfoldable pub copy_loop :
    ℕ → Kernel → List Segment → ℕ × ℕ × ℕ → Bool → Option (ℕ × ℕ) → ℕ → ℕ → Xhci → Option Xhci
copy_loop zero k segs ids doorbell last seg start x = none
copy_loop (suc fuel) k segs ids doorbell last seg start x =
    let last_copy = is_last_copy last seg start in
    let count = suc (end_trb last seg start) - start in
    elim (copy_piece k segs ids (last_copy && doorbell) seg start count x) [
      | none ↦ none
      | some (x₁, status) ↦
          let rest = copy_loop fuel k segs ids doorbell last (next_seg segs seg) 0 x₁ in
          if is_neg status || last_copy then some x₁ else rest
    ]

-- An assertion that fails is a breakpoint; the code then goes on.
abbrev pub check : Bool → Xhci → Xhci
check holds x = if holds then x else on_device (add_fault breakpoint) x

-- Whether the enqueue and the dequeue pointer are at the same TRB.
abbrev pub ring_empty : Ring → Bool
ring_empty r = (r.enqueue == r.dequeue) && (r.enq_seg == r.deq_seg)

abbrev pub is_found : Option (ℕ × ℕ) → Bool
is_found none = false
is_found (some _) = true

-- `ehub_xhci_cache_copy_from_ring`, for the ring of these slot, endpoint and stream numbers. The
-- assertions at its end hold here, where no one else moves the pointers. As many rounds as there are
-- segments, and one more, are enough.
unfoldable pub cache_copy_from_ring : Kernel → ℕ × ℕ × ℕ → Bool → Ring → Xhci → Option (Xhci × Ring)
cache_copy_from_ring k ids doorbell r x =
    let last = find_prev_trb r.segs r.enq_seg r.enqueue in
    let x₁ = check (is_found last) (check (not (ring_empty r)) x) in
    elim (copy_loop (suc (length r.segs)) k r.segs ids doorbell last r.cache_enq_seg r.cache_enqueue
      x₁) [
        | none ↦ none
        | some x₂ ↦ some (x₂, record r { cache_enqueue = r.enqueue; cache_enq_seg = r.enq_seg })
      ]
