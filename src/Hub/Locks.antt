-- ===== src/Hub/Locks.antt =====
-- The order in which the requests to a root hub take their locks (xhci-hub.c, and xhci_reg_lock and
-- xhci_reg_unlock of xhci.h).
use fl.Base.{
  ℕ, zero, suc, Bool, true, false, List, ◌∷◌, [], ◌≡◌, refl, arith, Option-cases, inl, inr,
}
use fl.Hub.{
  Hub, Host, Access, reg_lock, reg_unlock, spin_lock, spin_unlock, read_port, write_port, msleep,
  wait_for_rexit, wait_for_command, alloc_command, free_command, ring_cmd_db, queue_stop_endpoint,
  ring_ep_doorbell, usb_acpi_power_manageable, usb_acpi_set_power_state, del_timer_sync, log, readl,
  writel, sleep_unlocked, set_link_state, set_remote_wake_mask, disable_port, clear_port_change_bit,
  test_and_clear_bit, Hcd, change_bit_of,
}

-- Which lock is held: none, the register lock, or the spin lock. `broken` is for good: a lock that
-- is taken twice or given back by one who does not hold it (a panic of the driver), a register
-- that is read or written without its lock, a sleep or a wait with a lock held, or a command that is
-- queued without the spin lock.
pub data Lock : Type 0 where
  free reg spin broken : Lock

unfoldable pub step : Access → Lock → Lock
step reg_lock free = reg
step reg_unlock reg = free
step spin_lock free = spin
step spin_unlock spin = free
step (read_port _ _) reg = reg
step (write_port _ _) reg = reg
step (msleep _) free = free
step wait_for_rexit free = free
step wait_for_command free = free
step alloc_command l = l
step free_command l = l
step ring_cmd_db spin = spin
step (queue_stop_endpoint _ _ _) spin = spin
step (ring_ep_doorbell _ _ _) l = l
step (usb_acpi_power_manageable _) free = free
step (usb_acpi_set_power_state _ _) free = free
step del_timer_sync reg = reg
step _ _ = broken

-- The lock that is held after a log, of which the first access is the latest.
unfoldable pub held : List Access → Lock
held [] = free
held (a ∷ log) = step a (held log)

abbrev pub Holds : Lock → Hub → Type 0
Holds l h = held h.log ≡ l

pub readl-Holds : (o : Host) (address : ℕ) (h : Hub) → Holds reg h → Holds reg (readl o address h).0
unfolding readl held step
readl-Holds o address h e = ground arith

pub writel-Holds :
    (o : Host) (value address : ℕ) (h : Hub) → Holds reg h → Holds reg (writel o value address h)
unfolding writel held step
writel-Holds o value address h e = ground arith

pub sleep_unlocked-Holds :
    (o : Host) (n : ℕ) (h : Hub) → Holds reg h → Holds reg (sleep_unlocked o n h)
unfolding sleep_unlocked held step
sleep_unlocked-Holds o n h e = ground arith

pub ruleset locking = (arith, readl-Holds, writel-Holds, sleep_unlocked-Holds)

pub set_link_state-Holds :
    (o : Host) (address link_state : ℕ) (h : Hub)
    → Holds reg h
    → Holds reg (set_link_state o address link_state h)
unfolding set_link_state
set_link_state-Holds o address link_state h e = grind locking

pub set_remote_wake_mask-Holds :
    (o : Host) (address wake_mask : ℕ) (h : Hub)
    → Holds reg h
    → Holds reg (set_remote_wake_mask o address wake_mask h)
unfolding set_remote_wake_mask
set_remote_wake_mask-Holds o address wake_mask h e =
    writel-Holds o _ address _ (readl-Holds o address h e)

pub test_and_clear_bit-Holds :
    (o : Host) (address port_bit : ℕ) (h : Hub)
    → Holds reg h
    → Holds reg (test_and_clear_bit o address port_bit h)
unfolding test_and_clear_bit
test_and_clear_bit-Holds o address port_bit h e = grind locking

pub disable_port-Holds :
    (o : Host) (c : Hcd) (address port_status : ℕ) (h : Hub)
    → Holds reg h
    → Holds reg (disable_port o c address port_status h)
unfolding disable_port
disable_port-Holds o c address port_status h e = grind locking

pub clear_port_change_bit-Holds :
    (o : Host) (feature address port_status : ℕ) (h : Hub)
    → Holds reg h
    → Holds reg (clear_port_change_bit o feature address port_status h)
unfolding clear_port_change_bit
clear_port_change_bit-Holds o feature address port_status h e =
    elim (Option-cases (change_bit_of feature)) [
      | inl f ↦ rw (f, clear_port_change_bit) e
      | inr (status, f) ↦
          rw (f, clear_port_change_bit) (readl-Holds o address _ (writel-Holds o _ address h e))
    ]
