-- ===== src/Ring/Move.antt =====
-- How the pointers of a ring move (xhci-ring.c): `inc_deq`, `inc_enq` and `queue_trb`, and the room
-- on a ring.
use fl.Ring.{
  last_trb, Ring, Quirks, next_seg, chain_bit, RingType, is_event, Trb, is_command, put_control,
  put_trb, with_chain, is_isoc, control_at, last_trb_on_last_seg, flip_cycle,
}
use fl.CacheWrite.{trbs_per_segment}
use fl.Base.{
  ℕ, if◌then◌else◌, ◌-◌, length, Option, Bool, ◌||◌, ◌*◌, ◌&&◌, ltb, false, suc, none, ◌%◌, ◌==◌,
  ◌+◌, some, not, ◌^◌, zero,
}

abbrev pub toggle : ℕ → ℕ
toggle cycle = if cycle == 0 then 1 else 0

-- One round of the loop of `inc_deq`.
abbrev pub deq_step : Ring → Ring
deq_step r =
    if last_trb r r.deq_seg r.dequeue
    then record r {
      cycle_state =
          if is_event r.ring_type && last_trb_on_last_seg r r.deq_seg r.dequeue
          then toggle r.cycle_state
          else r.cycle_state;
      deq_seg = next_seg r.segs r.deq_seg;
      dequeue = 0;
    }
    else record r { dequeue = suc r.dequeue }

-- The loop, on fuel: `none` where every TRB that it comes to is a link.
unfoldable pub deq_loop : ℕ → Ring → Option Ring
deq_loop zero r = none
deq_loop (suc fuel) r =
    let r₁ = deq_step r in
    let rest = deq_loop fuel r₁ in if last_trb r₁ r₁.deq_seg r₁.dequeue then rest else some r₁

-- `inc_deq`. The counters are `unsigned int`.
unfoldable pub inc_deq : Ring → Option Ring
inc_deq r = deq_loop (suc (length r.segs)) (record r {
  deq_updates = (r.deq_updates + 1) % 2 ^ 32;
  num_trbs_free =
      if is_event r.ring_type || last_trb r r.deq_seg r.dequeue
      then r.num_trbs_free
      else (r.num_trbs_free + 1) % 2 ^ 32;
})

-- Whether the chain bit of a link TRB is left alone.
abbrev pub keeps_chain : Quirks → RingType → Bool
keeps_chain q t = (is_isoc t && q.amd_0x96_host) || q.link_trb_quirk

-- A link TRB is given to the hardware, and the cycle state toggled after the last segment.
abbrev pub give_link : (ℕ → ℕ) → Ring → Ring
give_link chain r = record r {
  segs = put_control r.segs r.enq_seg r.enqueue (λ control. flip_cycle (chain control));
  cycle_state =
      if last_trb_on_last_seg r r.enq_seg r.enqueue then toggle r.cycle_state else r.cycle_state;
}

abbrev pub to_next_seg : Ring → Ring
to_next_seg r = record r { enq_seg = next_seg r.segs r.enq_seg; enqueue = 0 }

-- The control word of a link that is given to the hardware: its chain bit is that of the TRB before.
abbrev pub link_change : Quirks → RingType → ℕ → ℕ → ℕ
link_change q kind chain c = if keeps_chain q kind then c else with_chain chain c

-- The pointer goes on from the end of a segment; a link there is given to the hardware.
unfoldable pub enq_hop : Quirks → ℕ → Ring → Ring
enq_hop q chain r =
    to_next_seg (if is_event r.ring_type then r else give_link (link_change q r.ring_type chain) r)

-- The loop of `inc_enq`, with the chain bit of the TRB before, on fuel.
unfoldable pub enq_loop : ℕ → Quirks → Bool → ℕ → Ring → Option Ring
enq_loop zero q more chain r = none
enq_loop (suc fuel) q more chain r =
    let rest = enq_loop fuel q more chain (enq_hop q chain r) in
    if last_trb r r.enq_seg r.enqueue
    then if not (is_event r.ring_type) && ((chain == 0) && not more) then some r else rest
    else some r

-- `inc_enq`
unfoldable pub inc_enq : Quirks → Bool → Ring → Option Ring
inc_enq q more r =
    enq_loop (suc (length r.segs)) q more (chain_bit (control_at r.segs r.enq_seg r.enqueue))
      (record r {
        num_trbs_free =
            if is_event r.ring_type || last_trb r r.enq_seg r.enqueue
            then r.num_trbs_free
            else (r.num_trbs_free + (2 ^ 32 - 1)) % 2 ^ 32;
        enqueue = suc r.enqueue;
        enq_updates = (r.enq_updates + 1) % 2 ^ 32;
      })

-- `queue_trb`
unfoldable pub queue_trb : Quirks → Bool → Trb → Ring → Option Ring
queue_trb q more t r = inc_enq q more (record r { segs = put_trb r.segs r.enq_seg r.enqueue t })

-- `num_trbs_in_deq_seg`, which is 0 for the rings that the rule leaves out.
abbrev pub trbs_in_deq_seg : Ring → ℕ
trbs_in_deq_seg r = if is_command r.ring_type || is_event r.ring_type then 0 else r.dequeue

-- `room_on_ring`
unfoldable pub room_on_ring : Ring → ℕ → Bool
room_on_ring r num_trbs =
    if ltb r.num_trbs_free num_trbs
    then false
    else not (ltb r.num_trbs_free (num_trbs + trbs_in_deq_seg r))

-- `num_trbs_needed`
unfoldable pub num_trbs_needed : Ring → ℕ → ℕ
num_trbs_needed r num_trbs =
    if ltb r.num_trbs_free num_trbs
    then num_trbs - r.num_trbs_free
    else num_trbs + trbs_in_deq_seg r - r.num_trbs_free

-- `xhci_initialize_ring_info`
unfoldable pub initialize_ring_info : ℕ → Ring → Ring
initialize_ring_info cycle r = record r {
  enqueue = 0;
  enq_seg = 0;
  cache_enqueue = 0;
  cache_enq_seg = 0;
  dequeue = 0;
  deq_seg = 0;
  cycle_state = cycle;
  enq_updates = 0;
  deq_updates = 0;
  num_trbs_free = (length r.segs * (trbs_per_segment - 1) + (2 ^ 32 - 1)) % 2 ^ 32;
}
