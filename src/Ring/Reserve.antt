-- ===== src/Ring/Reserve.antt =====
-- `queue_command` (xhci-ring.c) and the reserved TRBs of the command ring.
use fl.Ring.Links.{AtTrb}
use fl.Ring.InUse.{IsRing}
use fl.Base.Int.{ℤ, enomem, pos}
use fl.Xhci.{Xhci}
use fl.Kernel.{Kernel}
use fl.Ring.{trb_at, Trb, Ring}
use fl.Ring.Command.{Commands, trbs_to_keep}
use fl.Base.{
  ◌==◌, ◌++◌, ◌∷◌, [], ◌≢◌, ℕ, Bool, if◌then◌else◌, Option, ◌≡◌, ◌≤◌, false, ◌+◌, ◌<◌, true, ◌⊎◌,
  some,
}

-- How `queue_command` ends: without room nothing changes; else the command is the last of the list, and
-- starts the timer where it is the only one and the timer is not pending; its TRB stands where the
-- enqueue pointer was, off a link, with the cycle bit of the ring; and the reserve is kept unless the
-- command must succeed.
pub data CommandOutcome (cmd : ℕ) (t : Trb) (must_succeed : Bool) (s : Commands) (x : Xhci)
    : Option (Xhci × ℤ × Commands) → Type 0 where
  no_room :
      s.cmd_ring.num_trbs_free < trbs_to_keep s must_succeed
      → CommandOutcome cmd t must_succeed s x (some (x, enomem, s))
  listed :
      (at : Ring) (s' : Commands)
      → AtTrb s.cmd_ring at
      → trb_at s'.cmd_ring.segs at.enq_seg at.enqueue
        ≡ some (record t { field3 = t.field3 + (if at.cycle_state == 0 then 0 else 1) })
      → IsRing s'.cmd_ring
      → s'.cmd_ring.num_trbs_free + 1 ≡ s.cmd_ring.num_trbs_free
      → (must_succeed ≡ true) ⊎ (s.cmd_ring_reserved_trbs ≤ s'.cmd_ring.num_trbs_free)
      → s'.cmd_list ≡ s.cmd_list ++ cmd ∷ []
      → ((s'.current_cmd ≡ some cmd)
          × (s'.timer_pending ≡ true)
          × (s.cmd_list ≡ [])
          × (s.timer_pending ≡ false))
        ⊎ ((s'.current_cmd ≡ s.current_cmd)
            × (s'.timer_pending ≡ s.timer_pending)
            × ((s.cmd_list ≢ []) ⊎ (s.timer_pending ≡ true)))
      → CommandOutcome cmd t must_succeed s x (some (x, pos 0, s'))
