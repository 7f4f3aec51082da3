-- ===== src/Cache/Address.antt =====
-- `ehub_xhci_get_data_buffer_addr`: where the device finds the data of a URB.
use fl.Cache.UrbBlocks.{Holds, entries}
use fl.Cache.{UrbPriv, max_data_blocks, cache_block_size, data_buffer_addr, block_address}
use fl.Xhci.{Xhci}
use fl.Base.{
  ℕ, List, get_elem?, ◌≡◌, some, length, ◌≤◌, ◌<◌, ◌∷◌, ap, arith, ◌+◌, suc, ◌^◌, ◌/◌, [], zero,
  ◌%◌, ◌≢◌, ◌∙◌, ◌-◌, ◌==◌, false,
}

get_elem?-entries-some :
    (bs : List ℕ) (i b r : ℕ)
    → get_elem? bs i ≡ some b
    → get_elem? (entries 0 bs r) i ≡ some (some b)
get_elem?-entries-some [] i b r e = cc
get_elem?-entries-some (a ∷ bs) zero b r e = ap some e
get_elem?-entries-some (a ∷ bs) (suc i) b r e = get_elem?-entries-some bs i b r e

get_elem?-length : (bs : List ℕ) (i b : ℕ) → get_elem? bs i ≡ some b → i < length bs
get_elem?-length [] i b e = absurd (cc)
get_elem?-length (a ∷ bs) zero b e = omega arith
get_elem?-length (a ∷ bs) (suc i) b e = omega (arith, get_elem?-length bs i b e)

-- The address that is handed out for the byte `off` of the buffer, whatever the alignment.
module _ (x₀ x : Xhci) (bs : List ℕ) (p : UrbPriv) (buffer off b : ℕ) (h : Holds x₀ x bs p)
    (few : length bs ≤ max_data_blocks) (fits : buffer + off < 2 ^ 64)
    (e : get_elem? bs (off / cache_block_size) ≡ some b) where
  data_buffer_addr_eq :
      data_buffer_addr p buffer (buffer + off)
      ≡ some (block_address b + (buffer + off) % cache_block_size)
  unfolding data_buffer_addr
  data_buffer_addr_eq =
      let i = off / cache_block_size in
      let inside = get_elem?-length bs i b e in
      let number : (((buffer + off + 2 ^ 64 - buffer) % 2 ^ 64) / cache_block_size) % 2 ^ 32 ≡ i =
        omega arith in
      let some_blocks : (p.cache_block_cnt == 0) ≡ false = ground (arith, h.held_count) in
      let found : get_elem? p.ehub_data_cache_block i ≡ some (some b) =
        ap (λ t. get_elem? t i) h.held ∙ get_elem?-entries-some bs i b _ e in
      rw (some_blocks, number, found)

-- A URB whose buffer starts at a multiple of the block size: the address of each byte is that of
-- the place in the cache to which the byte was copied.
pub data_buffer_addr_aligned :
    (x₀ x : Xhci) (bs : List ℕ) (p : UrbPriv) (buffer off b : ℕ)
    → Holds x₀ x bs p
    → length bs ≤ max_data_blocks
    → buffer + off < 2 ^ 64
    → get_elem? bs (off / cache_block_size) ≡ some b
    → buffer % cache_block_size ≡ 0
    → data_buffer_addr p buffer (buffer + off) ≡ some (block_address b + off % cache_block_size)
data_buffer_addr_aligned x₀ x bs p buffer off b h few fits e aligned =
    data_buffer_addr_eq x₀ x bs p buffer off b h few fits e ∙ ap some (omega arith)

-- A URB whose buffer starts anywhere else: no byte gets the address of its place in the cache.
pub data_buffer_addr_unaligned :
    (x₀ x : Xhci) (bs : List ℕ) (p : UrbPriv) (buffer off b : ℕ)
    → Holds x₀ x bs p
    → length bs ≤ max_data_blocks
    → buffer + off < 2 ^ 64
    → get_elem? bs (off / cache_block_size) ≡ some b
    → buffer % cache_block_size ≢ 0
    → data_buffer_addr p buffer (buffer + off) ≢ some (block_address b + off % cache_block_size)
data_buffer_addr_unaligned x₀ x bs p buffer off b h few fits e unaligned same =
    ground (arith, data_buffer_addr_eq x₀ x bs p buffer off b h few fits e)
