-- ===== src/Ring/Mirror.antt =====
-- What `ehub_xhci_cache_copy_from_ring` (xhci-ehub.c) copies.
use fl.Ring.Build.{all_bytes}
use fl.Cache.{block_address}
use fl.Ring.Tour.{arrives}
use fl.Base.{none, ◌∷◌, [], ◌&&◌, if◌then◌else◌, is_empty, get_elem?, take, drop}
use fl.Base.Int.{is_neg, negsuc}
use fl.Xhci.{Xhci, queue_cache_write, CacheWork}
use fl.Ring.Tour.{Piece, Tour, arrives}
use fl.Ring.{Segment, Ring, Trb}
use fl.Kernel.{Kernel}
use fl.Base.{ℕ, List, Bool, ◌≡◌, length, ◌<◌, some, ◌*◌, ◌+◌}

-- The TRBs of a piece, and the cache block of its segment.
abbrev pub piece_trbs : List Segment → Piece → List Trb
piece_trbs segs (seg, start, count) = elim (get_elem? segs seg) [
  | none ↦ []
  | some s ↦ take count (drop start s.trbs)
]

abbrev pub block_of : List Segment → ℕ → ℕ
block_of segs seg = elim (get_elem? segs seg) [
  | none ↦ 0
  | some s ↦ elim s.ehub_cache_block [ none ↦ 0 | some b ↦ b ]
]

-- The cache write of a piece: its TRBs, as bytes, to their place in the block of its segment.
abbrev pub piece_write : List Segment → ℕ × ℕ × ℕ → Bool → Piece → ℕ → CacheWork
piece_write segs (slot, ep, stream) doorbell (seg, start, count) urb = record {
  urb_context = urb;
  cache_address = block_address (block_of segs seg) + 16 * start;
  data_buffer = some (all_bytes (piece_trbs segs (seg, start, count)));
  data_buffer_length = 16 * length (piece_trbs segs (seg, start, count));
  trb_cycle_state = negsuc 0;
  ring_doorbell = doorbell;
  slot_id = slot;
  ep_index = ep;
  stream_id = stream;
}

-- The pieces are written one after the other, the doorbell asked for with the last one only, until
-- a write fails.
abbrev pub copy_pieces : Kernel → List Segment → ℕ × ℕ × ℕ → Bool → List Piece → Xhci → Xhci
copy_pieces k segs ids doorbell [] x = x
copy_pieces k segs ids doorbell (p ∷ ps) x =
    let (x₁, status) = queue_cache_write k (piece_write segs ids (is_empty ps && doorbell) p) x in
    if is_neg status then x₁ else copy_pieces k segs ids doorbell ps x₁

-- Each segment has a cache block.
abbrev pub IsMirrored : List Segment → Type 0
IsMirrored segs =
    (seg : ℕ)
    → seg < length segs
    → (s : Segment) × (b : ℕ) × (get_elem? segs seg ≡ some s) × (s.ehub_cache_block ≡ some b)
