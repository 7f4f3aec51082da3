-- ===== src/Ring/Transfer.antt =====
-- `ehub_xhci_queue_bulk_tx` (xhci-ring.c): the TRBs of a bulk transfer.
use fl.Ring.Accounts.{queue_trb_lem}
use fl.Ring.Split.{
  IsRound, parts_of, next-IsRound, length-parts_of, IsSplit, bulk_num_trbs-IsRound,
  parts_of-IsSplit, IsRound-few,
}
use fl.Ring.InUse.{IsRing}
use fl.Cache.{data_buffer_addr}
use fl.Base.Int.{ℤ, pos}
use fl.Base.{
  not, ◌%◌, none, some, ℕ, ◌≡◌, Bool, List, some, Option, arith, false, ◌∷◌, ◌<◌, suc, not, ◌≤◌,
  ◌+◌, length, ◌^◌, ltb, ap, true, min, ◌-◌, [], ◌%◌, zero, refl, is_empty, ◌⊎◌, ◌∙◌, subst, sym,
}
use fl.Ring.{Quirks, Ring, is_link}
use fl.Ring.Move.{queue_trb}
use fl.Ring.Bulk.{in_range}
use fl.Ring.Bulk.{
  BulkUrb, bulk_loop, bulk_trb, BulkState, above_one, minus_one, queue_bulk_tx, bulk_num_trbs,
  before_boundary,
}

-- One TRB for each part, one after the other, each with the address of its first byte. More TRBs
-- are to come with each but the last.
abbrev pub queue_parts : Quirks → BulkUrb → ℕ → Bool → ℕ → ℕ → List ℕ → Ring → Option Ring
queue_parts q u start_cycle first running_total addr [] r = some r
queue_parts q u start_cycle first running_total addr (len ∷ parts) r =
    elim (queue_trb q (not (is_empty parts))
      (bulk_trb u start_cycle first (pos (suc (length parts))) running_total len addr r.cycle_state)
      r) [
        | none ↦ none
        | some r₁ ↦ queue_parts q u start_cycle false (running_total + len) (addr + len) parts r₁
      ]

-- The outcome of the loop on `count` parts: it comes to an end with all counted TRBs queued and all
-- bytes accounted for.
pub record Transfers (q : Quirks) (u : BulkUrb) (start_cycle : ℕ) (first : Bool)
    (running_total addr count : ℕ) (parts : List ℕ) (r : Ring) (result : Option BulkState)
    : Type 0 where
  pub ring : Ring
  pub last : ℕ × ℕ
  pub queued : queue_parts q u start_cycle first running_total addr parts r ≡ some ring
  pub ends :
      result
      ≡ some (record {
        num_trbs = pos 0;
        running_total = u.transfer_buffer_length;
        td_last_trb = some last;
        ring = ring;
      })
  pub valid : IsRing ring
  pub fewer : ring.num_trbs_free + count ≡ r.num_trbs_free

no_link :
    (u : BulkUrb) (start_cycle : ℕ) (first : Bool) (num_trbs : ℤ) (running_total len addr cycle : ℕ)
    → is_link (bulk_trb u start_cycle first num_trbs running_total len addr cycle).field3 ≡ false
no_link u start_cycle first num_trbs running_total len addr cycle = ground arith

parts_of_some : (more len rest : ℕ) → is_empty (parts_of more len rest) ≡ false
parts_of_some zero len rest = refl
parts_of_some (suc more) len rest = refl

ltb_less : (a b : ℕ) → a < b → ltb a b ≡ true
ltb_less a b h = ground arith

goes_on_free : (r : Ring) → (r.enqueue < 63) ⊎ (true ≡ false) → r.enqueue < 63
goes_on_free r h = ground arith

above_one_big : (more : ℕ) → above_one (pos (suc (suc more))) ≡ true
above_one_big more = ground arith

module _ (q : Quirks) (u : BulkUrb) (start_cycle : ℕ)
    (uncached : u.hcpriv.cache_block_cnt ≡ 0) where
  address_eq : (addr : ℕ) → data_buffer_addr u.hcpriv u.transfer_buffer addr ≡ some addr
  unfolding data_buffer_addr
  address_eq addr = ground (arith, uncached)

  bulk_loop_goes :
      (fuel : ℕ) (first : Bool) (num_trbs : ℤ) (running_total addr len : ℕ) (r r₁ : Ring)
      → queue_trb q
          (above_one num_trbs)
          (bulk_trb u start_cycle first num_trbs running_total len addr r.cycle_state)
          r
        ≡ some r₁
      → ltb (running_total + len) u.transfer_buffer_length ≡ true
      → bulk_loop (suc fuel) q u start_cycle first num_trbs running_total addr len r
        ≡ bulk_loop fuel q u start_cycle false
            (minus_one num_trbs)
            (running_total + len)
            ((addr + len) % 2 ^ 64)
            (min (u.transfer_buffer_length - (running_total + len)) 65536)
            r₁
  unfolding bulk_loop
  bulk_loop_goes fuel first num_trbs running_total addr len r r₁ e h =
      rw (bulk_loop, address_eq addr, e, h) refl

  bulk_loop-Transfers :
      (fuel more : ℕ) (first : Bool) (running_total addr len rest : ℕ) (r : Ring)
      → IsRing r
      → r.enqueue < 63
      → suc more ≤ r.num_trbs_free
      → IsRound addr len rest more
      → running_total + (len + rest) ≡ u.transfer_buffer_length
      → addr + (len + rest) < 2 ^ 64
      → suc more ≤ fuel
      → Transfers q u start_cycle first running_total addr
          (suc more)
          (parts_of more len rest)
          r
          (bulk_loop fuel q u start_cycle first (pos (suc more)) running_total addr len r)
  unfolding bulk_loop
  bulk_loop-Transfers zero more first running_total addr len rest r v at room s all fits f =
      absurd (omega arith)
  bulk_loop-Transfers (suc fuel) zero first running_total addr len rest r v at room s all fits f =
      let t = bulk_trb u start_cycle first (pos 1) running_total len addr r.cycle_state in
      let (r₁, e, d) =
        queue_trb_lem q false t r v at (omega arith)
          (no_link u start_cycle first (pos 1) running_total len addr r.cycle_state) in
      let total : running_total + len ≡ u.transfer_buffer_length = omega (arith, s.last refl) in
      let done : ltb (running_total + len) u.transfer_buffer_length ≡ false =
        ground (arith, total) in
      record {
        ring = r₁;
        last = (r.enq_seg, r.enqueue);
        queued = rw (queue_parts, e) refl;
        ends =
            rw (bulk_loop, address_eq addr, e, done)
              (ap
                (λ n. some (record {
                  num_trbs = pos 0;
                  running_total = n;
                  td_last_trb = some (r.enq_seg, r.enqueue);
                  ring = r₁;
                }))
                total);
        valid = d.valid;
        fewer = d.one_less;
      }
  bulk_loop-Transfers (suc fuel) (suc more) first running_total addr len rest r v at room s all fits
        f =
      let n = pos (suc (suc more)) in
      let big = above_one_big more in
      let t = bulk_trb u start_cycle first n running_total len addr r.cycle_state in
      let (r₁, e, d) =
        queue_trb_lem q true t r v at (omega arith)
          (no_link u start_cycle first n running_total len addr r.cycle_state) in
      let next = min rest 65536 in
      let others = rest - next in
      let total = running_total + len in
      let on : r₁.enqueue < 63 = goes_on_free r₁ d.rests in
      let rec =
        bulk_loop-Transfers fuel more false total (addr + len) next others r₁ d.valid on
          (omega (arith, d.one_less)) (next-IsRound addr len rest more s) (omega arith)
          (omega arith) (omega arith) in
      let count = length-parts_of more next others in
      let some_parts = parts_of_some more next others in
      let goes : ltb total u.transfer_buffer_length ≡ true =
        ltb_less total _ (omega (arith, s.above (omega arith), all)) in
      let step =
        bulk_loop_goes fuel first n running_total addr len r r₁
          (ap (λ b. queue_trb q b t r) big ∙ e) goes in
      let same : (addr + len) % 2 ^ 64 ≡ addr + len = omega arith in
      let left : u.transfer_buffer_length - total ≡ rest = omega (arith, all) in
      record {
        ring = rec.ring;
        last = rec.last;
        queued = rw (queue_parts, some_parts, count, e) rec.queued;
        ends = step ∙ rw (same, left) rec.ends;
        valid = rec.valid;
        fewer = omega (arith, rec.fewer, d.one_less);
      }

-- `ehub_xhci_queue_bulk_tx` of a URB without cache blocks, whose buffer does not reach the end of the
-- address space and is at least 64 KB shorter than 2 GB, where the size of a packet is not 0, on a ring
-- in use with the pointer not on a link and as many TRBs free as are
-- counted: the transfer is split into parts, none of which crosses a 64 KB boundary, and as many as
-- were counted; one TRB for each is queued, in order; the count is then 0 and the total the length
-- of the transfer, so that `check_trb_math` has nothing to report; and the ring is in use, with that
-- many TRBs less free.
pub queue_bulk_tx_lem :
    (q : Quirks) (u : BulkUrb) (r : Ring)
    → u.hcpriv.cache_block_cnt ≡ 0
    → u.transfer_buffer + u.transfer_buffer_length < 2 ^ 64
    → u.transfer_buffer_length + 65536 < 2 ^ 31
    → 0 < u.max_packet % 2048
    → IsRing r
    → r.enqueue < 63
    → bulk_num_trbs u.transfer_buffer u.transfer_buffer_length ≤ r.num_trbs_free
    → (parts : List ℕ) × IsSplit u.transfer_buffer u.transfer_buffer_length parts
      × (length parts ≡ bulk_num_trbs u.transfer_buffer u.transfer_buffer_length)
      × Transfers q u r.cycle_state true 0 u.transfer_buffer
          (length parts)
          parts
          r
          (queue_bulk_tx q u r)
unfolding queue_bulk_tx
queue_bulk_tx_lem q u r uncached fits short packets v at room =
    let len = u.transfer_buffer_length in
    let addr = u.transfer_buffer in
    let defined : not (in_range u) ≡ false = ground arith in
    let (more, count, s) = bulk_num_trbs-IsRound addr len in
    let first = min (before_boundary addr) len in
    let rest = len - first in
    let sum : first + rest ≡ len = omega arith in
    let parts = parts_of more first rest in
    let long = length-parts_of more first rest in
    let t =
      bulk_loop-Transfers q u r.cycle_state uncached (suc len) more true 0 addr first rest r v at
        (omega (arith, count)) s (omega (arith, sum)) (omega (arith, sum))
        (omega (arith, IsRound-few addr first rest more s, sum)) in
    (
      parts,
      subst (λ n. IsSplit addr n parts) sum (parts_of-IsSplit addr first rest more s),
      long ∙ sym count,
      rw (long, defined, count) t,
    )
