-- ===== src/Tests/Blocks.antt =====
-- The theorems on the device's health and on cache blocks, applied to small ones.
use fl.Tests.{device, board, working}
use fl.Cache.Address.{data_buffer_addr_aligned, data_buffer_addr_unaligned}
use fl.Device.Health.{error_check_lem}
use fl.Cache.Create.{cache_create_lem}
use fl.Cache.UrbFree.{free_by_urb_lem}
use fl.Xhci.Frame.{IsUnlocked, SameBlocks}
use fl.Cache.UrbData.{AllOrNothing, block_allocate_urb_lem, block_allocate_urb_keeps_lock}
use fl.Cache.Segment.{SegmentPost, block_allocate_segment_lem}
use fl.Base.Int.{pos, enomem, enodev}
use fl.Cache.Partition.{IsPartition}
use fl.Device.{error_check, deadlock}
use fl.Xhci.{Xhci, spin_lock}
use fl.Cache.UrbBlocks.{Holds}
use fl.Cache.{
  UrbPriv, block_allocate_urb, free_by_urb, data_buffer_addr, cache_create, number_of_blocks,
  block_allocate_segment, blocks_needed, new_urb_priv, block_address, cache_block_size,
}
use fl.Base.{◌∷◌, [], some, true, arith, none, refl, replicate, ◌+◌, ◌≡◌, ◌≢◌, ◌⊎◌, ◌%◌}

board-IsPartition : IsPartition 3 board
board-IsPartition = record { once = λ b. ground arith; free_count = refl; used_count = refl }

-- The controller once a URB has taken blocks 0 and 1.
abbrev held : Xhci
held = record board {
  cache_list_free = [];
  cache_list_used = 2 ∷ 0 ∷ 1 ∷ [];
  number_of_caches_free = 0;
  number_of_caches_used = 3;
}

held-IsPartition : IsPartition 3 held
held-IsPartition = record { once = λ b. ground arith; free_count = refl; used_count = refl }

abbrev holder : UrbPriv
holder = record {
  cache_block_cnt = 2;
  ehub_data_cache_block = some 0 ∷ some 1 ∷ none ∷ none ∷ none ∷ none ∷ [];
}

held-Holds : Holds board held (0 ∷ 1 ∷ []) holder
held-Holds = record { from_free = refl; to_used = refl; held = refl; held_count = refl }

error_check_example : (error_check device ≡ pos 0) ⊎ (error_check device ≡ enodev)
error_check_example = (error_check_lem device).1

cache_create_example :
    let (y, status) = cache_create working (λ d. d) board in
    IsPartition number_of_blocks y × IsUnlocked y × (y.cache_list_used ≡ []) × (status ≡ pos 0)
cache_create_example = cache_create_lem working (λ d. d) board (λ calls. refl)

segment_example :
    SegmentPost 3 working (pos 1) none board (block_allocate_segment working (pos 1) none board)
segment_example = block_allocate_segment_lem 3 working (pos 1) none board refl board-IsPartition

free_by_urb_example :
    IsPartition 3 (free_by_urb holder held).0
    × IsUnlocked (free_by_urb holder held).0
    × ((free_by_urb holder held).0.cache_list_used ≡ 2 ∷ [])
    × ((free_by_urb holder held).1.cache_block_cnt ≡ 0)
    × ((free_by_urb holder held).1.ehub_data_cache_block ≡ replicate 6 none)
free_by_urb_example =
    free_by_urb_lem 3 board held (0 ∷ 1 ∷ []) holder held-IsPartition refl (ground arith) held-Holds

block_allocate_urb_example :
    AllOrNothing 3
      (blocks_needed 1500)
      board
      (block_allocate_urb working 9 (replicate 1500 7) 1500 new_urb_priv board)
block_allocate_urb_example =
    block_allocate_urb_lem 3 working 9 (replicate 1500 7) 1500 board refl board-IsPartition
      (ground arith) (ground arith)

keeps_lock_example :
    let (y, q, status) = block_allocate_urb working 9 (replicate 5000 7) 5000 new_urb_priv board in
    (status ≡ enomem)
    × (y.cache_list_lock ≡ true)
    × SameBlocks board y
    × ((spin_lock y).device.faults ≡ deadlock ∷ [])
keeps_lock_example =
    block_allocate_urb_keeps_lock working 9 (replicate 5000 7) 5000 new_urb_priv board refl
      (ground arith)

aligned_example :
    data_buffer_addr holder 0x100000 (0x100000 + 1030)
    ≡ some (block_address 1 + 1030 % cache_block_size)
aligned_example =
    data_buffer_addr_aligned board held (0 ∷ 1 ∷ []) holder 0x100000 1030 1 held-Holds
      (ground arith) (ground arith) refl refl

unaligned_example :
    data_buffer_addr holder 0x100010 (0x100010 + 1030)
    ≢ some (block_address 1 + 1030 % cache_block_size)
unaligned_example =
    data_buffer_addr_unaligned board held (0 ∷ 1 ∷ []) holder 0x100010 1030 1 held-Holds
      (ground arith) (ground arith) refl (λ q. ground arith)
