-- ===== src/Cache/Segment.antt =====
-- `ehub_xhci_cache_block_allocate_segment`: a block for a ring segment, written at once. A block
-- whose write fails goes back.
use fl.Cache.Partition.{
  IsPartition, SameBlocks-IsPartition, unlock-SameBlocks, claimed-IsPartition, List-cases, not_used,
  block_free_lem,
}
use fl.Base.Chain.{count, remove_head, count-append_one, remove-absent, remove, remove-append_one}
use fl.Xhci.Frame.{
  IsUnlocked, SameBlocks, queue_cache_write-IsUnlocked, queue_cache_write-SameBlocks,
}
use fl.Xhci.{Xhci, queue_cache_write, spin_lock, spin_unlock}
use fl.Cache.{
  block_allocate_segment, block_write, cache_block_size, move_to_used, move_to_free, block_free,
}
use fl.Base.Int.{ℤ, is_neg}
use fl.Kernel.{Kernel}
use fl.Base.{
  ℕ, ◌≡◌, Option, List, [], ◌∷◌, true, false, none, some, arith, ◌++◌, refl, ◌<◌, inl, inr,
  Bool-cases, ◌∙◌, ap,
}

module _ (k : Kernel) (cycle : ℤ) (start : Option (List ℕ)) where
  -- The queued write of block `b`, and what it returns.
  abbrev pub written : ℕ → Xhci → Xhci × ℤ
  written b x =
      queue_cache_write k (block_write b cache_block_size start cycle)
        (spin_unlock (move_to_used b (record x { cache_list_lock = true })))

  pub segment_full :
      (x : Xhci)
      → IsUnlocked x
      → x.cache_list_free ≡ []
      → block_allocate_segment k cycle start x ≡ (spin_unlock x, none)
  unfolding block_allocate_segment spin_lock
  segment_full x h e = ground arith

  segment_fails :
      (x : Xhci) (b : ℕ) (r : List ℕ)
      → IsUnlocked x
      → x.cache_list_free ≡ b ∷ r
      → is_neg (written b x).1 ≡ true
      → block_allocate_segment k cycle start x
        ≡ (spin_unlock (move_to_free b (spin_lock (written b x).0)), none)
  unfolding block_allocate_segment spin_lock
  segment_fails x b r h e f = ground arith

  segment_takes :
      (x : Xhci) (b : ℕ) (r : List ℕ)
      → IsUnlocked x
      → x.cache_list_free ≡ b ∷ r
      → is_neg (written b x).1 ≡ false
      → block_allocate_segment k cycle start x ≡ ((written b x).0, some b)
  unfolding block_allocate_segment spin_lock
  segment_takes x b r h e f = ground arith

-- The used blocks are those of before, in their order, and the free ones the same up to order.
abbrev SameLists : Xhci → Xhci → Type 0
SameLists x y =
    (y.cache_list_used ≡ x.cache_list_used)
    × ((a : ℕ) → count a y.cache_list_free ≡ count a x.cache_list_free)

-- What the allocation of a segment has done: no block was free; or the first free block was
-- written, the write failed, and it is free again; or the write was made, and the block is used.
pub data SegmentOutcome (k : Kernel) (cycle : ℤ) (start : Option (List ℕ)) (x y : Xhci)
    : Option ℕ → Type 0 where
  full : x.cache_list_free ≡ [] → SameLists x y → SegmentOutcome k cycle start x y none
  not_written :
      (b : ℕ) (rest : List ℕ)
      → x.cache_list_free ≡ b ∷ rest
      → is_neg (written k cycle start b x).1 ≡ true
      → SameLists x y
      → SegmentOutcome k cycle start x y none
  given :
      (b : ℕ)
      → x.cache_list_free ≡ b ∷ y.cache_list_free
      → is_neg (written k cycle start b x).1 ≡ false
      → y.cache_list_used ≡ x.cache_list_used ++ b ∷ []
      → SegmentOutcome k cycle start x y (some b)

-- What holds of the blocks after a segment allocation.
abbrev pub SegmentPost : ℕ → Kernel → ℤ → Option (List ℕ) → Xhci → Xhci × Option ℕ → Type 0
SegmentPost n k cycle start x r =
    IsPartition n r.0 × IsUnlocked r.0 × SegmentOutcome k cycle start x r.0 r.1

module _ (n : ℕ) (k : Kernel) (cycle : ℤ) (start : Option (List ℕ)) (x : Xhci) (h : IsUnlocked x)
    (v : IsPartition n x) where
  segment_full-Post : x.cache_list_free ≡ [] → SegmentPost n k cycle start x (spin_unlock x, none)
  segment_full-Post e =
      (SameBlocks-IsPartition n (unlock-SameBlocks x) v, refl, full e (refl, λ a. refl))

  module _ (b : ℕ) (r : List ℕ) (e : x.cache_list_free ≡ b ∷ r) where
    abbrev claimed : Xhci
    claimed = spin_unlock (move_to_used b (record x { cache_list_lock = true }))

    written-SameBlocks : SameBlocks claimed (written k cycle start b x).0
    written-SameBlocks = queue_cache_write-SameBlocks k _ claimed

    written-IsPartition : IsPartition n (written k cycle start b x).0
    written-IsPartition =
        SameBlocks-IsPartition n written-SameBlocks
          (claimed-IsPartition n b r x _ v e (ground arith))

    written_lists :
        ((written k cycle start b x).0.cache_list_free ≡ r)
        × ((written k cycle start b x).0.cache_list_used ≡ x.cache_list_used ++ b ∷ [])
    unfolding move_to_used
    written_lists = ground (
      arith,
      written-SameBlocks,
      remove_head b r,
      not_used n b r x v e,
      remove-absent b x.cache_list_used,
    )

    segment_takes-Post :
        is_neg (written k cycle start b x).1 ≡ false
        → SegmentPost n k cycle start x ((written k cycle start b x).0, some b)
    segment_takes-Post good = (
      written-IsPartition,
      queue_cache_write-IsUnlocked k _ claimed refl,
      given b (rw written_lists.0 e) good written_lists.1,
    )

    written_used : 0 < count b (written k cycle start b x).0.cache_list_used
    written_used = rw written_lists.1 (ground (arith, count-append_one b b x.cache_list_used))

    segment_fails-Post :
        is_neg (written k cycle start b x).1 ≡ true
        → SegmentPost n k cycle start x (block_free b (written k cycle start b x).0, none)
    segment_fails-Post bad =
        let f =
          block_free_lem n b (written k cycle start b x).0
            (queue_cache_write-IsUnlocked k _ claimed refl) written-IsPartition written_used in
        (
          f.0,
          f.1,
          not_written b r e bad (
            (f.3
                ∙ ap (remove b) written_lists.1
                ∙ remove-append_one b x.cache_list_used (not_used n b r x v e)),
            (λ a. omega (
              arith,
              ap (count a) f.2,
              count-append_one a b (written k cycle start b x).0.cache_list_free,
              ap (count a) written_lists.0,
              ap (count a) e,
            )),
          ),
        )

-- `ehub_xhci_cache_block_allocate_segment` keeps the blocks shared out and gives the lock back,
-- whatever the kernel answers. Where no block is free, or where the write of the first free one fails,
-- it returns none, and leaves the used blocks as they were and the free ones the same up to order;
-- where the write succeeds it returns that block, which is now the last used one.
pub block_allocate_segment_lem :
    (n : ℕ) (k : Kernel) (cycle : ℤ) (start : Option (List ℕ)) (x : Xhci)
    → IsUnlocked x
    → IsPartition n x
    → SegmentPost n k cycle start x (block_allocate_segment k cycle start x)
unfolding block_free
block_allocate_segment_lem n k cycle start x h v = elim (List-cases x.cache_list_free) [
  | inl e ↦ rw (segment_full k cycle start x h e) (segment_full-Post n k cycle start x h v e)
  | inr (b, r, e) ↦ elim (Bool-cases (is_neg (written k cycle start b x).1)) [
    | inl f ↦
        rw (segment_fails k cycle start x b r h e f)
          (segment_fails-Post n k cycle start x h v b r e f)
    | inr f ↦
        rw (segment_takes k cycle start x b r h e f)
          (segment_takes-Post n k cycle start x h v b r e f)
  ]
]
