-- ===== src/Ring/InUse.antt =====
-- What holds of a transfer or command ring (xhci-ring.c) that is in use.
use fl.Ring.Trbs.{IsLinked}
use fl.Ring.{Ring, is_event, last_trb}
use fl.Base.{ℕ, ◌*◌, ◌+◌, ◌≡◌, ◌⊎◌, false, ◌<◌, ◌==◌, length, ◌≤◌, ◌^◌}

-- A place of the ring, counted in TRBs that are no links: a link stands where the first TRB of the
-- next segment stands.
abbrev pub place : ℕ → ℕ → ℕ
place seg index = 63 * seg + index

-- The TRBs from the first place to the second, going round a ring of `total`, are `free` and one.
abbrev pub IsGap : ℕ → ℕ → ℕ → ℕ → Type 0
IsGap total enq free deq =
    (enq + free + 1 ≡ deq) ⊎ (enq + free + 1 ≡ deq + total) ⊎ (enq + free + 1 ≡ deq + total + total)

-- A transfer or command ring in use: it is linked, both pointers are in it, and from the enqueue
-- pointer on there are `num_trbs_free` TRBs and one more up to the dequeue pointer.
pub record IsRing (r : Ring) : Type 0 where
  pub kind : is_event r.ring_type ≡ false
  pub linked : IsLinked r.segs
  pub enq_in : r.enq_seg < length r.segs
  pub enq_at : r.enqueue ≤ 63
  pub deq_in : r.deq_seg < length r.segs
  pub deq_at : r.dequeue ≤ 63
  pub counted :
      IsGap
        (63 * length r.segs)
        (place r.enq_seg r.enqueue)
        r.num_trbs_free
        (place r.deq_seg r.dequeue)
  pub below : r.num_trbs_free < 63 * length r.segs
  pub fits : 63 * length r.segs < 2 ^ 32

pub last_trb-link :
    (r : Ring) (seg index : ℕ)
    → is_event r.ring_type ≡ false
    → IsLinked r.segs
    → seg < length r.segs
    → last_trb r seg index ≡ (index == 63)
last_trb-link r seg index k v h = rw k (v.links seg index h)
