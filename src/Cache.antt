-- ===== src/Cache.antt =====
-- xhci-ehub.c: the blocks of the device's cache memory. A block is a number, its `IndexOfBlock`,
-- from which its address follows.
pub mod Create
pub mod Partition
pub mod UrbBlocks
pub mod Address
pub mod UrbData
pub mod UrbFree
pub mod Destroy
pub mod Teardown
pub mod Segment
use fl.Base.{
  ℕ, suc, zero, ◌+◌, ◌-◌, ◌*◌, ◌/◌, ◌%◌, ◌^◌, min, Bool, true, false, Option, none, some, List, [],
  ◌∷◌, ◌++◌, ◌==◌, ltb, if◌then◌else◌, get_elem?, set, drop, replicate,
}
use fl.Base.Int.{ℤ, pos, is_neg, enomem}
use fl.Base.Chain.{remove}
use fl.Kernel.{Kernel, kzalloc}
use fl.Register.{ehub_xhci_writel}
use fl.Device.{Device, out_of_bounds, null_pointer, add_fault, record_call}
use fl.Xhci.{
  Xhci, CacheWork, on_device, spin_lock, spin_unlock, queue_cache_write, cache_work_expand,
}

abbrev pub cache_block_size : ℕ
cache_block_size = 0x400

-- `EHUB_CACHE_NUMBER_OF_BLOCKS`
abbrev pub number_of_blocks : ℕ
number_of_blocks = 0x20000 / 0x400

-- `EHUB_CACHE_MAX_DATA_BLOCKS`, the size of `EhubDataCacheBlock`
abbrev pub max_data_blocks : ℕ
max_data_blocks = 6

-- `cacheBlock->Address`
abbrev pub block_address : ℕ → ℕ
block_address index = 0x1000 + cache_block_size * index

-- `struct urb_priv`: the cache blocks of a URB.
pub record UrbPriv : Type 0 where
  pub cache_block_cnt : ℕ
  pub ehub_data_cache_block : List (Option ℕ)

abbrev pub new_urb_priv : UrbPriv
new_urb_priv = record {
  cache_block_cnt = 0;
  ehub_data_cache_block = replicate max_data_blocks none;
}

-- One round of the loop of `ehub_xhci_cache_create`. The result of `kmalloc` is used unchecked;
-- without memory there is a fault and no block.
unfoldable pub create_block : Kernel → ℕ → Xhci → Xhci
create_block k index x =
    let d = record_call kzalloc x.device in
    if k.allocates d.history
    then record x {
      device = d;
      block_urb = λ n. if n == index then none else x.block_urb n;
      cache_list_free = x.cache_list_free ++ index ∷ [];
      number_of_caches_free = suc x.number_of_caches_free;
    }
    else record x { device = add_fault null_pointer d }

-- The loop, from `index` on.
unfoldable pub create_blocks : Kernel → ℕ → ℕ → Xhci → Xhci
create_blocks k zero index x = x
create_blocks k (suc rounds) index x = create_blocks k rounds (suc index) (create_block k index x)

abbrev pub devhost_cache_bar_reg_address : ℕ
devhost_cache_bar_reg_address = 0x81ec

-- `EHUB_CACHE_INITIALIZATION_REGISTER`, with `EHUB_EVENTS_ON_ISOCH`
abbrev pub cache_initialization_register : ℕ
cache_initialization_register = 0x22020fff + 2 ^ 27

-- The start of `ehub_xhci_cache_create`: empty lists, and a lock that is free.
abbrev pub create_lists : Xhci → Xhci
create_lists x = record x {
  cache_list_free = [];
  cache_list_used = [];
  cache_list_lock = false;
  cache_queue_free = [];
  cache_queue_used = [];
  number_of_caches_free = 0;
  number_of_caches_used = 0;
}

-- `ehub_xhci_cache_create`: the work queue, the register of the cache, 32 work contexts, and all
-- blocks. `meanwhile` runs while the register write is waited for.
unfoldable pub cache_create : Kernel → (Device → Device) → Xhci → Xhci × ℤ
cache_create k meanwhile x =
    let x₁ = create_lists x in
    let d = record_call kzalloc x₁.device in
    if k.allocates d.history
    then (
      create_blocks k number_of_blocks 0
          (cache_work_expand k 32 (record x₁ {
            device =
                ehub_xhci_writel k meanwhile cache_initialization_register
                  devhost_cache_bar_reg_address d;
          })).0,
      pos 0,
    )
    else (record x₁ { device = d }, enomem)

-- `list_move_tail( &cacheBlock->list, &xhci->cache_list_used )` with the two counters.
unfoldable pub move_to_used : ℕ → Xhci → Xhci
move_to_used b x = record x {
  cache_list_free = remove b x.cache_list_free;
  cache_list_used = remove b x.cache_list_used ++ b ∷ [];
  number_of_caches_free = x.number_of_caches_free - 1;
  number_of_caches_used = suc x.number_of_caches_used;
}

-- The same, back to the free list. A counter is an `int`; it is above 0 whenever the block is used.
unfoldable pub move_to_free : ℕ → Xhci → Xhci
move_to_free b x = record x {
  cache_list_free = remove b x.cache_list_free ++ b ∷ [];
  cache_list_used = remove b x.cache_list_used;
  number_of_caches_free = suc x.number_of_caches_free;
  number_of_caches_used = x.number_of_caches_used - 1;
}

abbrev pub set_block_urb : ℕ → Option ℕ → Xhci → Xhci
set_block_urb b urb x = record x { block_urb = λ n. if n == b then urb else x.block_urb n }

-- `ehub_xhci_cache_block_allocate`
unfoldable pub block_allocate : Xhci → Xhci × Option ℕ
block_allocate x =
    let x₁ = spin_lock x in
    elim x₁.cache_list_free [
      | [] ↦ (spin_unlock x₁, none)
      | b ∷ _ ↦ (spin_unlock (move_to_used b (set_block_urb b none x₁)), some b)
    ]

-- `ehub_xhci_cache_block_free`
unfoldable pub block_free : ℕ → Xhci → Xhci
block_free b x = spin_unlock (move_to_free b (spin_lock x))

-- The write of a whole block of ring memory, as `ehub_xhci_cache_block_allocate_segment` asks for.
abbrev pub block_write : ℕ → ℕ → Option (List ℕ) → ℤ → ℕ → CacheWork
block_write b len bytes cycle urb = record {
  urb_context = urb;
  cache_address = block_address b;
  data_buffer = bytes;
  data_buffer_length = len;
  trb_cycle_state = cycle;
  ring_doorbell = false;
  slot_id = 0;
  ep_index = 0;
  stream_id = 0;
}

-- `ehub_xhci_cache_block_allocate_segment`: a block that cannot be written goes back.
unfoldable pub block_allocate_segment : Kernel → ℤ → Option (List ℕ) → Xhci → Xhci × Option ℕ
block_allocate_segment k cycle start x =
    let x₁ = spin_lock x in
    elim x₁.cache_list_free [
      | [] ↦ (spin_unlock x₁, none)
      | b ∷ _ ↦
          let (x₂, status) =
            queue_cache_write k (block_write b cache_block_size start cycle)
              (spin_unlock (move_to_used b x₁)) in
          if is_neg status
          then (spin_unlock (move_to_free b (spin_lock x₂)), none)
          else (x₂, some b)
    ]

-- One round of the loop of `ehub_xhci_cache_block_free_by_urb`.
unfoldable pub free_one : ℕ → UrbPriv → Xhci → Xhci
free_one index p x = elim (get_elem? p.ehub_data_cache_block index) [
  | none ↦ on_device (add_fault out_of_bounds) x
  | some entry ↦ elim entry [
    | none ↦ on_device (add_fault null_pointer) x
    | some b ↦ move_to_free b x
  ]
]

unfoldable pub free_loop : ℕ → ℕ → UrbPriv → Xhci → Xhci × UrbPriv
free_loop zero index p x = (x, p)
free_loop (suc rounds) index p x =
    free_loop rounds (suc index)
      (record p { ehub_data_cache_block = set p.ehub_data_cache_block index none })
      (free_one index p x)

-- `ehub_xhci_cache_block_free_by_urb`
unfoldable pub free_by_urb : UrbPriv → Xhci → Xhci × UrbPriv
free_by_urb p x =
    let (x₁, p₁) = free_loop p.cache_block_cnt 0 p (spin_lock x) in
    (spin_unlock x₁, record p₁ { cache_block_cnt = 0 })

-- The first free block becomes block `i` of the URB. The array has six entries.
unfoldable pub claim_block : ℕ → ℕ → ℕ → UrbPriv → Xhci → Xhci × UrbPriv
claim_block urb i b p x = (
  set_block_urb b (some urb)
      (move_to_used b (if ltb i max_data_blocks then x else on_device (add_fault out_of_bounds) x)),
  record p {
    cache_block_cnt = suc p.cache_block_cnt;
    ehub_data_cache_block = set p.ehub_data_cache_block i (some b);
  },
)

-- The first loop of `ehub_xhci_cache_block_allocate_urb`, under the lock: `true` when it has all.
unfoldable pub claim_loop : ℕ → ℕ → ℕ → UrbPriv → Xhci → Xhci × UrbPriv × Bool
claim_loop zero i urb p x = (spin_unlock x, p, true)
claim_loop (suc rounds) i urb p x = elim x.cache_list_free [
  | [] ↦ let (x₁, p₁) = free_by_urb p (spin_unlock x) in (x₁, p₁, false)
  | b ∷ _ ↦ let (x₁, p₁) = claim_block urb i b p x in claim_loop rounds (suc i) urb p₁ x₁
]

-- The write of block `i` of the URB's data.
unfoldable pub write_block : Kernel → ℕ → List ℕ → ℕ → UrbPriv → Xhci → Xhci × ℤ
write_block k i start len p x = elim (get_elem? p.ehub_data_cache_block i) [
  | none ↦ (on_device (add_fault out_of_bounds) x, enomem)
  | some entry ↦ elim entry [
    | none ↦ (on_device (add_fault null_pointer) x, enomem)
    | some b ↦ queue_cache_write k (block_write b len (some start) (pos 0)) x
  ]
]

-- The second loop: a block's worth of data into each block, until a write fails.
unfoldable pub write_loop : Kernel → ℕ → ℕ → List ℕ → ℕ → UrbPriv → Xhci → Xhci × UrbPriv × ℤ
write_loop k zero i start len p x = (x, p, pos 0)
write_loop k (suc rounds) i start len p x =
    let cache_length = min len cache_block_size in
    let (x₁, status) = write_block k i start cache_length p x in
    let rest = write_loop k rounds (suc i) (drop cache_length start) (len - cache_length) p x₁ in
    let (x₂, p₂) = free_by_urb p x₁ in if is_neg status then (x₂, p₂, status) else rest

-- `DIV_ROUND_UP(urb->transfer_buffer_length, EHUB_CACHE_BLOCK_SIZE)` on a `u32`
abbrev pub blocks_needed : ℕ → ℕ
blocks_needed len = ((len + 1023) % 2 ^ 32) / cache_block_size

-- `ehub_xhci_cache_block_allocate_urb`, for a URB with this number, data and data length. The
-- first `goto Exit` leaves with the lock held.
unfoldable pub block_allocate_urb : Kernel → ℕ → List ℕ → ℕ → UrbPriv → Xhci → Xhci × UrbPriv × ℤ
block_allocate_urb k urb start len p x =
    let x₁ = spin_lock x in
    let (x₂, p₂, claimed) = claim_loop (blocks_needed len) 0 urb p x₁ in
    if ltb x₁.number_of_caches_free (blocks_needed len)
    then (x₁, p, enomem)
    else if claimed
    then write_loop k (blocks_needed len) 0 start len p₂ x₂
    else (x₂, p₂, enomem)

-- `ehub_xhci_get_data_buffer_addr` for a URB whose buffer is at `buffer`: `none` is the panic, and
-- an index past the array. `addr - buffer` is a `u64`, `block_num` an `unsigned int`.
unfoldable pub data_buffer_addr : UrbPriv → ℕ → ℕ → Option ℕ
data_buffer_addr p buffer addr =
    if p.cache_block_cnt == 0
    then some addr
    else let block_num = (((addr + 2 ^ 64 - buffer) % 2 ^ 64) / cache_block_size) % 2 ^ 32 in
      elim (get_elem? p.ehub_data_cache_block block_num) [
        | none ↦ none
        | some entry ↦ elim entry [
          | none ↦ none
          | some b ↦ some (block_address b + addr % cache_block_size)
        ]
      ]
