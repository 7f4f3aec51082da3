-- ===== src/Ring/Command.antt =====
-- `queue_command` (xhci-ring.c): one TRB on the command ring. A command is named by its number.
use fl.Ring.Move.{queue_trb}
use fl.Ring.Expand.{prepare_ring}
use fl.Ring.Control.{cycle_bit}
use fl.Xhci.{Xhci}
use fl.Ring.{Ring, Trb, Quirks}
use fl.Kernel.{Kernel}
use fl.Base.{
  none, some, ℕ, Bool, is_empty, if◌then◌else◌, suc, List, ◌+◌, ◌&&◌, Option, not, ◌++◌, some, ◌∷◌,
  [], ◌||◌, false,
}
use fl.Base.Int.{ℤ, pos, is_neg, eshutdown}

-- The fields of `struct xhci_hcd` that it uses. The timer is pending or not.
pub record Commands : Type 0 where
  pub dying : Bool
  pub cmd_ring_reserved_trbs : ℕ
  pub cmd_ring : Ring
  pub cmd_list : List ℕ
  pub current_cmd : Option ℕ
  pub timer_pending : Bool

-- The TRBs that must be free: those that are reserved, and one more for a command that may fail.
abbrev pub trbs_to_keep : Commands → Bool → ℕ
trbs_to_keep s must_succeed =
    if must_succeed then s.cmd_ring_reserved_trbs else suc s.cmd_ring_reserved_trbs

-- The command goes to the end of the list; the first one there starts the timer.
abbrev pub list_command : ℕ → Commands → Commands
list_command cmd s =
    let starts = is_empty s.cmd_list && not s.timer_pending in
    record s {
      cmd_list = s.cmd_list ++ cmd ∷ [];
      current_cmd = if starts then some cmd else s.current_cmd;
      timer_pending = s.timer_pending || starts;
    }

-- `field4 | cycle_state`, where bit 0 of the field is clear.
abbrev pub with_cycle : ℕ → Trb → Trb
with_cycle cycle t = record t { field3 = t.field3 + cycle_bit cycle }

-- `queue_command`, of the TRB with these four fields. `EP_STATE_RUNNING` is 1.
unfoldable pub queue_command :
    Kernel → Quirks → ℕ → Trb → Bool → Commands → Xhci → Option (Xhci × ℤ × Commands)
queue_command k q cmd t must_succeed s x =
    if s.dying
    then some (x, eshutdown, s)
    else elim (prepare_ring k q 1 (trbs_to_keep s must_succeed) s.cmd_ring x) [
      | none ↦ none
      | some (x₁, status, r, linked) ↦
          if is_neg status
          then some (x₁, status, record s { cmd_ring = r })
          else elim (queue_trb q false (with_cycle r.cycle_state t) r) [
            | none ↦ none
            | some r₁ ↦ some (x₁, pos 0, record (list_command cmd s) { cmd_ring = r₁ })
          ]
    ]
