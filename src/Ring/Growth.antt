-- ===== src/Ring/Growth.antt =====
-- `ehub_xhci_ring_expansion` (xhci-mem.c) of a mirrored ring: what it adds, and how it fails.
use fl.Ring.Alloc.{circle_cases, alloc_segments-IsCircle}
use fl.Ring.Expand.{ring_expansion, link_rings, new_segs, insert_segments, dma_of, move_toggle}
use fl.Cache.Partition.{List-cases}
use fl.Ring.Trbs.{length-put_trb}
use fl.Base.Int.{ℤ, is_neg, pos, enomem}
use fl.Ring.Granted.{write_failed}
use fl.Kernel.{Kernel}
use fl.Xhci.{queue_cache_write, Xhci, spin_lock, CacheWork, spin_unlock}
use fl.Base.{
  List, ℕ, length, ◌≡◌, Option-cases, true, arith, none, Option, inl, inr, some, ◌∙◌, refl,
  get_elem?, Bool-cases, false, take, ◌<◌, Bool, suc, ◌++◌, ◌+◌, drop, ◌*◌, length-append, ◌%◌,
  length-take, ◌^◌, length-drop, not, ◌&&◌, ◌==◌, ap, if◌then◌else◌,
}
use fl.Device.{error_check}
use fl.Ring.{
  type_ctrl, type_isoc, type_bulk, type_intr, type_stream, type_command, type_event, put_control,
  RingType, Segment, Quirks, ehub_cache_ring, trb_at, is_event, Ring, is_command, next_seg,
}
use fl.Cache.{block_allocate_segment, move_to_used, block_write, cache_block_size}
use fl.Ring.Build.{
  alloc_segments, segment_block, link_segments, segment_alloc, all_bytes, link_to, set_toggle,
}

write_failed-error_check : (x : Xhci) → write_failed x ≡ true → is_neg (error_check x.device) ≡ true
unfolding error_check
write_failed-error_check x h = ground arith

queue_cache_write-failed :
    (k : Kernel) (request : ℕ → CacheWork) (x : Xhci)
    → write_failed x ≡ true
    → is_neg (queue_cache_write k request x).1 ≡ true
unfolding queue_cache_write
queue_cache_write-failed k request x h =
    let failed = write_failed-error_check x h in rw (queue_cache_write, failed) failed

block_allocate_segment-failed :
    (k : Kernel) (cycle : ℤ) (start : Option (List ℕ)) (x : Xhci)
    → write_failed x ≡ true
    → (block_allocate_segment k cycle start x).1 ≡ none
unfolding block_allocate_segment spin_lock move_to_used
block_allocate_segment-failed k cycle start x h = elim (List-cases (spin_lock x).cache_list_free) [
  | inl e ↦ rw (block_allocate_segment, e) refl
  | inr (b, rest, e) ↦
      let claimed = spin_unlock (move_to_used b (spin_lock x)) in
      let same : write_failed claimed ≡ write_failed x = ground arith in
      let failed =
        queue_cache_write-failed k (block_write b cache_block_size start cycle) claimed
          (same ∙ h) in
      rw (block_allocate_segment, e, failed) refl
]

segment_alloc-write_failed :
    (k : Kernel) (cycle : ℕ) (x : Xhci) → write_failed (segment_alloc k cycle x).0 ≡ write_failed x
unfolding segment_alloc
segment_alloc-write_failed k cycle x = ground arith

segment_block-failed :
    (k : Kernel) (kind : RingType) (cycle : ℕ) (s : Segment) (x : Xhci)
    → ehub_cache_ring kind ≡ true
    → write_failed x ≡ true
    → (segment_block k kind cycle s x).1 ≡ none
unfolding segment_block
segment_block-failed k kind cycle s x c h =
    rw (segment_block, c, block_allocate_segment-failed k (pos cycle) (some (all_bytes s.trbs)) x h)
      refl

pub alloc_segments-failed :
    (k : Kernel) (q : Quirks) (kind : RingType) (cycle n : ℕ) (x : Xhci)
    → ehub_cache_ring kind ≡ true
    → write_failed x ≡ true
    → (alloc_segments k q kind cycle n x).1 ≡ none
unfolding alloc_segments
alloc_segments-failed k q kind cycle n x c h = elim (Option-cases (segment_alloc k cycle x).1) [
  | inl e ↦ rw (alloc_segments, e) refl
  | inr (s, e) ↦
      let x₁ = (segment_alloc k cycle x).0 in
      rw
        (
          alloc_segments,
          e,
          segment_block-failed k kind cycle s x₁ c (segment_alloc-write_failed k cycle x ∙ h),
        )
        refl
]

length-put_control :
    (segs : List Segment) (seg index : ℕ) (change : ℕ → ℕ)
    → length (put_control segs seg index change) ≡ length segs
unfolding put_control
length-put_control segs seg index change = elim (Option-cases (trb_at segs seg index)) [
  | inl e ↦ rw (put_control, e) refl
  | inr (t, e) ↦ rw (put_control, e) (length-put_trb segs seg index _)
]

length-link_segments :
    (k : Kernel) (q : Quirks) (kind : RingType) (prev address : ℕ) (segs : List Segment) (x : Xhci)
    → length (link_segments k q kind prev address segs x).1 ≡ length segs
unfolding link_segments
length-link_segments k q kind prev address segs x = elim (Option-cases (get_elem? segs prev)) [
  | inl e ↦ rw (link_segments, e) refl
  | inr (s, e) ↦ elim (Option-cases (get_elem? s.trbs 63)) [
    | inl f ↦ rw (link_segments, e, f) refl
    | inr (t, f) ↦
        let same = length-put_trb segs prev 63 (link_to q kind address t) in
        elim (Bool-cases (is_event kind)) [
          | inl g ↦ rw (link_segments, e, f, g) refl
          | inr g ↦ elim (Bool-cases (ehub_cache_ring kind)) [
            | inl c ↦ rw (link_segments, e, f, g, c) same
            | inr c ↦ rw (link_segments, e, f, g, c) same
          ]
        ]
  ]
]

-- A mirrored ring is a transfer ring.
pub mirrored_kind :
    (kind : RingType)
    → ehub_cache_ring kind ≡ true
    → (is_event kind ≡ false) × (is_command kind ≡ false)
mirrored_kind type_ctrl c = (refl, refl)
mirrored_kind type_isoc c = (refl, refl)
mirrored_kind type_bulk c = (refl, refl)
mirrored_kind type_intr c = (refl, refl)
mirrored_kind type_stream c = (refl, refl)
mirrored_kind type_command c = absurd (ground (arith, c))
mirrored_kind type_event c = absurd (ground (arith, c))

-- What an expansion has done: nothing, for want of memory; or it has linked the new segments in part
-- only; or the ring has grown.
pub data Expanded (r : Ring) (num_trbs : ℕ) : Xhci × ℤ × Ring × Bool → Type 0 where
  not_expanded : (x : Xhci) → Expanded r num_trbs (x, enomem, r, true)
  broken : (x : Xhci) → write_failed x ≡ true → Expanded r num_trbs (x, pos 0, r, false)
  grown :
      (x : Xhci) (r' : Ring)
      → r'.num_trbs_free ≡ (r.num_trbs_free + 63 * new_segs r num_trbs) % 2 ^ 32
      → length r'.segs ≡ length r.segs + new_segs r num_trbs
      → r'.ring_type ≡ r.ring_type
      → r'.dequeue ≡ r.dequeue
      → Expanded r num_trbs (x, pos 0, r', true)

length-insert :
    (new segs : List Segment) (e : ℕ)
    → length (take (suc e) segs ++ new ++ drop (suc e) segs) ≡ length segs + length new
length-insert new segs e = omega (
  arith,
  length-append (take (suc e) segs ++ new) (drop (suc e) segs),
  length-append (take (suc e) segs) new,
  length-take (suc e) segs,
  length-drop (suc e) segs,
)

length-toggled :
    (b : Bool) (old new : ℕ) (segs : List Segment)
    → length (if b then move_toggle old new segs else segs) ≡ length segs
length-toggled true old new segs =
    length-put_control _ new 63 set_toggle ∙ length-put_control segs old 63 _
length-toggled false old new segs = refl

-- The result of an expansion, from that of `xhci_link_rings`.
abbrev expansion : Xhci × Ring × Bool → Xhci × ℤ × Ring × Bool
expansion (x, r, linked) = (x, pos 0, r, linked)

link_rings-Expanded :
    (k : Kernel) (q : Quirks) (r : Ring) (new : List Segment) (num_trbs : ℕ) (x : Xhci)
    → length new ≡ new_segs r num_trbs
    → Expanded r num_trbs (expansion (link_rings k q r new x))
unfolding link_rings
link_rings-Expanded k q r new num_trbs x long =
    let at = r.enq_seg in
    let end = at + length new in
    let whole = insert_segments new r in
    let first = link_segments k q r.ring_type at (dma_of new 0) whole.segs x in
    let second =
      link_segments k q r.ring_type end (dma_of r.segs (next_seg r.segs at)) first.1 first.0 in
    let behind_last = not (is_event r.ring_type) && (suc at == length r.segs) in
    let one = length-link_segments k q r.ring_type at (dma_of new 0) whole.segs x in
    let two =
      length-link_segments k q r.ring_type end (dma_of r.segs (next_seg r.segs at)) first.1
        first.0 in
    let same : length second.1 ≡ length r.segs + new_segs r num_trbs =
      two ∙ one ∙ length-insert new r.segs at ∙ ap (λ n. length r.segs + n) long in
    elim (Bool-cases (write_failed first.0)) [
      | inl f ↦ rw (link_rings, f) (broken first.0 f)
      | inr f ↦ elim (Bool-cases (write_failed second.0)) [
        | inl g ↦ rw (link_rings, f, g) (broken second.0 g)
        | inr g ↦
            rw (link_rings, f, g)
              (grown second.0 _ (ap (λ n. (r.num_trbs_free + 63 * n) % 2 ^ 32) long)
                (length-toggled behind_last at end second.1 ∙ same) refl refl)
      ]
    ]

pub ring_expansion-Expanded :
    (k : Kernel) (q : Quirks) (num_trbs : ℕ) (r : Ring) (x : Xhci)
    → ehub_cache_ring r.ring_type ≡ true
    → 0 < length r.segs
    → Expanded r num_trbs (ring_expansion k q num_trbs r x)
unfolding ring_expansion
ring_expansion-Expanded k q num_trbs r x c l =
    let n = new_segs r num_trbs in
    let some_new : 0 < n = ground arith in
    let event = (mirrored_kind r.ring_type c).0 in
    elim (circle_cases (alloc_segments-IsCircle k q r.ring_type r.cycle_state n x event some_new)) [
      | inl e ↦ rw (ring_expansion, e) (not_expanded _)
      | inr (new, e, long, part) ↦
          rw (ring_expansion, e)
            (link_rings-Expanded k q r new num_trbs
              (alloc_segments k q r.ring_type r.cycle_state n x).0 long)
    ]
