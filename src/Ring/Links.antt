-- ===== src/Ring/Links.antt =====
-- A command on the command ring (xhci-ring.c): the links that `prepare_ring` leaves, and the TRB.
use fl.Ring.Prepare.{make_room_done}
use fl.Base.Int.{pos, enomem}
use fl.Xhci.{Xhci}
use fl.Kernel.{Kernel}
use fl.Ring.Trbs.{control_at_eq, put_control_eq, put_trb-IsLinked, length-put_trb}
use fl.Ring.Move.{to_next_seg, give_link, num_trbs_needed}
use fl.Ring.Expand.{first_link_change, leave_links, prepare_ring, make_room}
use fl.Ring.InUse.{IsRing, last_trb-link}
use fl.Ring.{
  Quirks, Ring, RingType, is_link, flip_cycle, has_toggle, type_command, last_trb, ehub_cache_ring,
  is_command, next_seg,
}
use fl.Base.{
  ℕ, ◌≡◌, arith, ◌∙◌, sym, ap, inr, ◌<◌, refl, suc, some, true, false, ◌≤◌, ltb, Bool-cases, ◌==◌,
  ◌⊎◌, inl, length, ◌-◌,
}

-- A link's control word may change, but for its type and its toggle bit.
abbrev KeepsLink : (ℕ → ℕ) → Type 0
KeepsLink change =
    (c : ℕ) → (is_link (change c) ≡ is_link c) × (has_toggle (change c) ≡ has_toggle c)

first_link_change-KeepsLink :
    (q : Quirks) (kind : RingType) → KeepsLink (λ c. flip_cycle (first_link_change q kind c))
first_link_change-KeepsLink q kind c = ground arith

-- From a link on, the ring is in use at the start of the next segment.
leave-IsRing :
    (change : ℕ → ℕ) (r : Ring)
    → KeepsLink (λ c. flip_cycle (change c))
    → r.enqueue ≡ 63
    → IsRing r
    → IsRing (to_next_seg (give_link change r))
leave-IsRing change r keeps at v =
    let (t, there) = v.linked.present r.enq_seg r.enqueue v.enq_in (omega arith) in
    let new = λ (c : ℕ). flip_cycle (change c) in
    let t' = record t { field3 = new t.field3 } in
    let kept = keeps t.field3 in
    let was = control_at_eq r.segs r.enq_seg r.enqueue t there in
    let put = put_control_eq r.segs r.enq_seg r.enqueue new t there in
    let linked =
      put_trb-IsLinked r.segs r.enq_seg r.enqueue t t' v.linked v.enq_in there
        (kept.0 ∙ sym (ap is_link was) ∙ v.linked.links r.enq_seg r.enqueue v.enq_in)
        (inr kept.1) in
    let same = length-put_trb r.segs r.enq_seg r.enqueue t' in
    rw put (record {
      kind = v.kind;
      linked = linked;
      enq_in = ground (arith, same, v.enq_in);
      enq_at = omega arith;
      deq_in = omega (arith, same, v.deq_in);
      deq_at = v.deq_at;
      counted = ground (arith, same, v.counted, v.enq_in, at);
      below = omega (arith, same, v.below);
      fits = omega (arith, same, v.fits);
    })

leave_links_stays :
    (fuel : ℕ) (k : Kernel) (q : Quirks) (r : Ring) (x : Xhci)
    → last_trb r r.enq_seg r.enqueue ≡ false
    → leave_links (suc fuel) k q r x ≡ some (x, pos 0, r)
unfolding leave_links
leave_links_stays fuel k q r x h = rw h refl

leave_links_hops :
    (fuel : ℕ) (k : Kernel) (q : Quirks) (r : Ring) (x : Xhci)
    → ehub_cache_ring r.ring_type ≡ false
    → last_trb r r.enq_seg r.enqueue ≡ true
    → leave_links (suc fuel) k q r x
      ≡ leave_links fuel k q (to_next_seg (give_link (first_link_change q r.ring_type) r)) x
unfolding leave_links
leave_links_hops fuel k q r x c h = rw (h, c) refl

command_room :
    (r : Ring) (num_trbs : ℕ)
    → r.ring_type ≡ type_command
    → num_trbs ≤ r.num_trbs_free
    → ltb (num_trbs_needed r num_trbs) 1 ≡ true
unfolding num_trbs_needed
command_room r num_trbs c h =
    let command : is_command r.ring_type ≡ true = ap is_command c in ground (arith, command)

command_full :
    (r : Ring) (num_trbs : ℕ)
    → r.num_trbs_free < num_trbs
    → ltb (num_trbs_needed r num_trbs) 1 ≡ false
unfolding num_trbs_needed
command_full r num_trbs h = ground arith

-- The ring at the first TRB that is no link: as it is, or, from a link, at the start of the next
-- segment.
pub record AtTrb (r r' : Ring) : Type 0 where
  pub valid : IsRing r'
  pub at : r'.enqueue < 63
  pub same_free : r'.num_trbs_free ≡ r.num_trbs_free
  pub moved :
      (r' ≡ r) ⊎ ((r.enqueue ≡ 63) × (r'.enq_seg ≡ next_seg r'.segs r.enq_seg) × (r'.enqueue ≡ 0))

module _ (k : Kernel) (q : Quirks) (r : Ring) (c : r.ring_type ≡ type_command) (v : IsRing r) where
  abbrev hopped : Ring
  hopped = to_next_seg (give_link (first_link_change q r.ring_type) r)

  hopped-AtTrb : r.enqueue ≡ 63 → AtTrb r hopped
  hopped-AtTrb at = record {
    valid =
        leave-IsRing (first_link_change q r.ring_type) r (first_link_change-KeepsLink q r.ring_type)
          at v;
    at = omega arith;
    same_free = refl;
    moved = inr (at, refl, refl);
  }

  -- The loop leaves the link at which it starts, and stops.
  leave_links_eq :
      (fuel : ℕ) (x : Xhci)
      → r.enqueue ≡ 63
      → leave_links (suc (suc fuel)) k q r x ≡ some (x, pos 0, hopped)
  unfolding leave_links
  leave_links_eq fuel x at =
      let w = (hopped-AtTrb at).valid in
      let link : last_trb r r.enq_seg r.enqueue ≡ true =
        last_trb-link r r.enq_seg r.enqueue v.kind v.linked v.enq_in ∙ ground arith in
      let stop : last_trb hopped hopped.enq_seg hopped.enqueue ≡ false =
        last_trb-link hopped hopped.enq_seg hopped.enqueue w.kind w.linked w.enq_in in
      let plain : ehub_cache_ring r.ring_type ≡ false = ap ehub_cache_ring c in
      leave_links_hops (suc fuel) k q r x plain link ∙ leave_links_stays fuel k q hopped x stop

  -- `prepare_ring` of the command ring: with the TRBs free it leaves a link, else it fails.
  pub prepare_ring_room :
      (num_trbs : ℕ) (x : Xhci)
      → num_trbs ≤ r.num_trbs_free
      → (r' : Ring) × (prepare_ring k q 1 num_trbs r x ≡ some (x, pos 0, r', true)) × AtTrb r r'
  unfolding prepare_ring
  prepare_ring_room num_trbs x room =
      let none_needed : ltb (num_trbs_needed r num_trbs) 1 ≡ true =
        command_room r num_trbs c room in
      let done = make_room_done k q num_trbs 2 true r x none_needed in
      let end = v.linked.links r.enq_seg r.enqueue v.enq_in in
      elim (Bool-cases (r.enqueue == 63)) [
        | inr inner ↦ (
          r,
          rw (prepare_ring, done, end ∙ inner) refl,
          record { valid = v; at = ground (arith, v.enq_at); same_free = refl; moved = inl refl },
        )
        | inl link ↦
            let fuel : suc (length r.segs) ≡ suc (suc (length r.segs - 1)) =
              omega (arith, v.linked.some_segs) in
            (
              hopped,
              rw
                  (
                    prepare_ring,
                    done,
                    end ∙ link,
                    fuel,
                    leave_links_eq (length r.segs - 1) x (ground arith),
                  )
                  refl,
              hopped-AtTrb (ground arith),
            )
      ]

  pub prepare_ring_full :
      (num_trbs : ℕ) (x : Xhci)
      → r.num_trbs_free < num_trbs
      → prepare_ring k q 1 num_trbs r x ≡ some (x, enomem, r, true)
  unfolding prepare_ring make_room
  prepare_ring_full num_trbs x full =
      let needed : ltb (num_trbs_needed r num_trbs) 1 ≡ false = command_full r num_trbs full in
      let command : is_command r.ring_type ≡ true = ap is_command c in
      rw (prepare_ring, make_room, needed, command) refl
