-- ===== src/Hub/Whole.antt =====
-- The four entry points of a root hub (xhci-hub.c), each from the lock to its release.
use fl.Hub.Requests.{request-Holds}
use fl.Hub.Orderly.{stop_unlocked-Holds, ring_device-Holds}
use fl.Hub.Control.{hub_control}
use fl.Hub.Power.{
  suspend_port, bus_resume, bus_suspend, resume_one, change_command, suspend_loop, resume_loop,
  resume_locked, wake_port, cmd_eie,
}
use fl.Base.{ℕ, zero, suc, arith, ap, if◌then◌else◌}
use fl.Hub.{Hub, Host, Hcd, log, readl, reg_unlock, reg_lock, time_after, on_bus, msleep}
use fl.Hub.Locks.{
  free, reg, step, held, Holds, locking, readl-Holds, set_link_state-Holds,
  test_and_clear_bit-Holds,
}
use fl.Base.Bits.{without}
use Prim.Native.Nat.{bit_or}
use fl.Hub.Poll.{Poll, hub_status_data, poll_loop, poll_port, poll_start}

-- The loop over the ports leaves the lock held.
poll_loop-Holds :
    (o : Host) (c : Hcd) (i left : ℕ) (p : Poll)
    → Holds reg p.hub
    → Holds reg (poll_loop o c i left p).hub
unfolding poll_loop poll_port
poll_loop-Holds o c i zero p e = e
poll_loop-Holds o c i (suc left) p e =
    let (h, temp) = readl o (c.port_array i) p.hub in
    let e₁ = readl-Holds o (c.port_array i) p.hub e in
    let e₂ = poll_loop-Holds o c (suc i) left (poll_port o i temp h p) e₁ in ground (arith, e₁, e₂)

hub_status_data-Holds :
    (o : Host) (c : Hcd) (h : Hub) → Holds free h → Holds free (hub_status_data o c h).0
unfolding hub_status_data held step poll_start
hub_status_data-Holds o c h e =
    let polled = poll_loop-Holds o c 0 c.max_ports (poll_start c h) (ap (step reg_lock) e) in
    ground (arith, polled)

suspend_port-Holds :
    (o : Host) (c : Hcd) (index : ℕ) (h : Hub) → Holds reg h → Holds reg (suspend_port o c index h)
unfolding suspend_port
suspend_port-Holds o c index h e = grind (locking, stop_unlocked-Holds)

suspend_loop-Holds :
    (o : Host) (c : Hcd) (n : ℕ) (h : Hub) → Holds reg h → Holds reg (suspend_loop o c n h)
unfolding suspend_loop
suspend_loop-Holds o c zero h e = e
suspend_loop-Holds o c (suc n) h e = suspend_loop-Holds o c n _ (suspend_port-Holds o c n h e)

bus_suspend-Holds : (o : Host) (c : Hcd) (h : Hub) → Holds free h → Holds free (bus_suspend o c h).0
unfolding bus_suspend held step
bus_suspend-Holds o c h e =
    let h₁ = on_bus (λ b. record b { bus_suspended = 0 }) (log reg_lock h) in
    let looped = suspend_loop-Holds o c c.max_ports h₁ (ap (step reg_lock) e) in
    ground (arith, looped)

wake_port-Holds :
    (o : Host) (c : Hcd) (index temp : ℕ) (h : Hub)
    → Holds reg h
    → Holds reg (wake_port o c index temp h)
unfolding wake_port
wake_port-Holds o c index temp h e =
    grind (locking, set_link_state-Holds, test_and_clear_bit-Holds, ring_device-Holds)

resume_one-Holds :
    (o : Host) (c : Hcd) (index : ℕ) (h : Hub) → Holds reg h → Holds reg (resume_one o c index h)
unfolding resume_one
resume_one-Holds o c index h e = grind (locking, wake_port-Holds)

resume_loop-Holds :
    (o : Host) (c : Hcd) (n : ℕ) (h : Hub) → Holds reg h → Holds reg (resume_loop o c n h)
unfolding resume_loop
resume_loop-Holds o c zero h e = e
resume_loop-Holds o c (suc n) h e = resume_loop-Holds o c n _ (resume_one-Holds o c n h e)

change_command-Holds :
    (o : Host) (c : Hcd) (change : ℕ → ℕ) (h : Hub)
    → Holds reg h
    → Holds reg (change_command o c change h)
unfolding change_command
change_command-Holds o c change h e = grind locking

resume_locked-Holds : (o : Host) (c : Hcd) (h : Hub) → Holds reg h → Holds reg (resume_locked o c h)
unfolding resume_locked
resume_locked-Holds o c h e =
    let e₁ = change_command-Holds o c (without cmd_eie) h e in
    let e₂ = readl-Holds o c.command _ (resume_loop-Holds o c c.max_ports _ e₁) in
    readl-Holds o c.command _ (change_command-Holds o c (λ temp. bit_or temp cmd_eie) _ e₂)

bus_resume-Holds : (o : Host) (c : Hcd) (h : Hub) → Holds free h → Holds free (bus_resume o c h).0
unfolding bus_resume held step
bus_resume-Holds o c h e =
    let early = time_after h.bus.next_statechange (o.jiffies h.log) in
    let h₁ = if early then on_bus o.others (log (msleep 5) h) else h in
    let e₁ : Holds free h₁ = ground arith in
    let e₂ = resume_locked-Holds o c (log reg_lock h₁) (ap (step reg_lock) e₁) in
    ground (arith, e₁, e₂)

hub_control-Holds :
    (o : Host) (c : Hcd) (type_req w_value w_index w_length : ℕ) (h : Hub)
    → Holds free h
    → Holds free (hub_control o c type_req w_value w_index w_length h).0
unfolding hub_control held step
hub_control-Holds o c type_req w_value w_index w_length h e =
    ap (step reg_unlock)
      (request-Holds o c type_req w_value w_index w_length (log reg_lock h) (ap (step reg_lock) e))

-- Each entry point of a root hub, entered with no lock held, ends with no lock held. On every path
-- through it no lock is taken twice or given back by one who does not hold it, the registers of
-- the ports are read and written under the register lock only, endpoints are stopped under the spin
-- lock only, and every sleep, every wait for the end of a resume or of a command and every ACPI call of
-- xhci-hub.c is made with no lock held. The waits inside a register access, and the one for the timer in
-- the status of a port, are made under the register lock, which is a semaphore; whatever the request, the
-- registers and the other answers of the host are, and whatever interrupts do to the bus state
-- meanwhile.
pub entries-Holds :
    (o : Host) (c : Hcd) (type_req w_value w_index w_length : ℕ) (h : Hub)
    → Holds free h
    → Holds free (hub_control o c type_req w_value w_index w_length h).0
      × Holds free (hub_status_data o c h).0
      × Holds free (bus_suspend o c h).0
      × Holds free (bus_resume o c h).0
entries-Holds o c type_req w_value w_index w_length h e = (
  hub_control-Holds o c type_req w_value w_index w_length h e,
  hub_status_data-Holds o c h e,
  bus_suspend-Holds o c h e,
  bus_resume-Holds o c h e,
)
