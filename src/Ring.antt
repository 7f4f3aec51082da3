-- ===== src/Ring.antt =====
-- The transfer rings of xhci-ring.c and xhci-mem.c. A segment is named by its place in the ring,
-- from `first_seg` on, and a TRB by its index in the segment.
pub mod Trbs
pub mod Enqueue
pub mod Accounts
pub mod Build
pub mod Fresh
pub mod Alloc
pub mod NewRing
pub mod Granted
pub mod Copy
pub mod Tour
pub mod Mirror
pub mod Bulk
pub mod Split
pub mod Transfer
pub mod Expand
pub mod Growth
pub mod Prepare
pub mod Control
pub mod Command
pub mod Links
pub mod Reserve
pub mod HandOver
pub mod InUse
pub mod Move
use fl.CacheWrite.{trbs_per_segment}
use fl.Base.{
  ℕ, if◌then◌else◌, ◌-◌, List, ◌/◌, length, Option, Bool, ◌||◌, ◌*◌, get_elem?, ◌&&◌, ltb, false,
  suc, true, none, ◌%◌, ◌==◌, ◌+◌, some, not, set, ◌^◌, zero,
}

-- `enum xhci_ring_type`
pub data RingType : Type 0 where
  type_ctrl type_isoc type_bulk type_intr type_stream type_command type_event : RingType

-- `struct xhci_generic_trb`. Of a link TRB, `field3` is the control word.
pub record Trb : Type 0 where
  pub field0 : ℕ
  pub field1 : ℕ
  pub field2 : ℕ
  pub field3 : ℕ

-- `struct xhci_segment`
pub record Segment : Type 0 where
  pub trbs : List Trb
  pub dma : ℕ
  pub ehub_cache_block : Option ℕ

-- `struct xhci_ring`: `next` of the last segment is the first.
pub record Ring : Type 0 where
  pub ring_type : RingType
  pub segs : List Segment
  pub enq_seg : ℕ
  pub enqueue : ℕ
  pub deq_seg : ℕ
  pub dequeue : ℕ
  pub cache_enq_seg : ℕ
  pub cache_enqueue : ℕ
  pub cycle_state : ℕ
  pub num_trbs_free : ℕ
  pub enq_updates : ℕ
  pub deq_updates : ℕ

-- The quirks of the controller that the rings know.
pub record Quirks : Type 0 where
  pub link_trb_quirk : Bool
  pub amd_0x96_host : Bool

-- `TRB_TYPE_LINK_LE32( control )`
abbrev pub is_link : ℕ → Bool
is_link control = (control / 1024) % 64 == 6

-- `control & LINK_TOGGLE`
abbrev pub has_toggle : ℕ → Bool
has_toggle control = (control / 2) % 2 == 1

-- `control & TRB_CHAIN`, as 0 or 1
abbrev pub chain_bit : ℕ → ℕ
chain_bit control = (control / 16) % 2

-- The chain bit of a control word is replaced.
abbrev pub with_chain : ℕ → ℕ → ℕ
with_chain chain control = control - 16 * chain_bit control + 16 * chain

-- `control ^= TRB_CYCLE`
abbrev pub flip_cycle : ℕ → ℕ
flip_cycle control = if control % 2 == 0 then control + 1 else control - 1

abbrev pub is_event : RingType → Bool
is_event type_event = true
is_event _ = false

abbrev pub is_command : RingType → Bool
is_command type_command = true
is_command _ = false

abbrev pub is_isoc : RingType → Bool
is_isoc type_isoc = true
is_isoc _ = false

-- `ehub_cache_ring`: the rings that are mirrored in the cache of the device.
abbrev pub ehub_cache_ring : RingType → Bool
ehub_cache_ring type_stream = false
ehub_cache_ring type_command = false
ehub_cache_ring type_event = false
ehub_cache_ring _ = true

unfoldable pub trb_at : List Segment → ℕ → ℕ → Option Trb
trb_at segs seg index = elim (get_elem? segs seg) [ none ↦ none | some s ↦ get_elem? s.trbs index ]

-- The control word of a TRB. Past the end of a segment nothing of this file reads it.
unfoldable pub control_at : List Segment → ℕ → ℕ → ℕ
control_at segs seg index = elim (trb_at segs seg index) [ none ↦ 0 | some t ↦ t.field3 ]

unfoldable pub put_trb : List Segment → ℕ → ℕ → Trb → List Segment
put_trb segs seg index t = elim (get_elem? segs seg) [
  | none ↦ segs
  | some s ↦ set segs seg (record s { trbs = set s.trbs index t })
]

-- A change of the control word of a TRB.
unfoldable pub put_control : List Segment → ℕ → ℕ → (ℕ → ℕ) → List Segment
put_control segs seg index change = elim (trb_at segs seg index) [
  | none ↦ segs
  | some t ↦ put_trb segs seg index (record t { field3 = change t.field3 })
]

-- `seg->next`
abbrev pub next_seg : List Segment → ℕ → ℕ
next_seg segs seg = if suc seg == length segs then 0 else suc seg

-- `last_trb`
abbrev pub last_trb : Ring → ℕ → ℕ → Bool
last_trb r seg index =
    if is_event r.ring_type
    then index == trbs_per_segment
    else is_link (control_at r.segs seg index)

-- `last_trb_on_last_seg`
abbrev pub last_trb_on_last_seg : Ring → ℕ → ℕ → Bool
last_trb_on_last_seg r seg index =
    if is_event r.ring_type
    then (index == trbs_per_segment) && (next_seg r.segs seg == 0)
    else has_toggle (control_at r.segs seg index)

-- `next_trb`
abbrev pub next_trb : Ring → ℕ × ℕ → ℕ × ℕ
next_trb r (seg, index) =
    if last_trb r seg index then (next_seg r.segs seg, 0) else (seg, suc index)
