-- ===== src/Ring/HandOver.antt =====
-- The TRBs of a control transfer (xhci-ring.c), and their hand-over to the hardware.
use fl.Ring.Control.{CtrlUrb, setup_trb, cycle_bit, give_first}
use fl.Ring.{Trb, Ring, trb_at, control_at}
use fl.Ring.InUse.{IsRing}
use fl.Base.{ℕ, ◌+◌, ◌<◌, ◌==◌, ◌&&◌, ◌≡◌, false, length, some, ◌%◌, ◌≢◌, if◌then◌else◌, ltb}

-- What holds after some TRBs were queued on a ring `r₀`, the first of them being `t`.
record After (t : Trb) (r₀ r : Ring) : Type 0 where
  pub valid : IsRing r
  pub less : r.num_trbs_free < r₀.num_trbs_free
  pub same_deq : (r.deq_seg ≡ r₀.deq_seg) × (r.dequeue ≡ r₀.dequeue)
  pub same_length : length r.segs ≡ length r₀.segs
  pub kept : trb_at r.segs r₀.enq_seg r₀.enqueue ≡ some t

-- A TRB whose cycle bit is not that of the ring is not for the hardware to read yet.
abbrev pub IsHeld : ℕ → ℕ → Type 0
IsHeld cycle control = control % 2 ≢ cycle_bit cycle

-- The TRBs of a control transfer are queued, and the first is held back.
pub record Queued (u : CtrlUrb) (r r' : Ring) : Type 0 where
  pub valid : IsRing r'
  pub fewer : r'.num_trbs_free + (if ltb 0 u.transfer_buffer_length then 3 else 2) ≡ r.num_trbs_free
  pub first : trb_at r'.segs r.enq_seg r.enqueue ≡ some (setup_trb u r.cycle_state)
  pub held : IsHeld r.cycle_state (control_at r'.segs r.enq_seg r.enqueue)
  pub given :
      control_at (give_first r.cycle_state r.enq_seg r.enqueue r'.segs) r.enq_seg r.enqueue % 2
      ≡ cycle_bit r.cycle_state
  pub others :
      (s i : ℕ)
      → (s == r.enq_seg) && (i == r.enqueue) ≡ false
      → trb_at (give_first r.cycle_state r.enq_seg r.enqueue r'.segs) s i ≡ trb_at r'.segs s i
