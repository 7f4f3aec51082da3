-- ===== src/Hub/Power.antt =====
-- `ehub_xhci_bus_suspend` and `ehub_xhci_bus_resume` (xhci-hub.c).
use fl.Base.{ℕ, zero, suc, Bool, true, not, ◌+◌, ◌^◌, ◌&&◌, if◌then◌else◌, ◌==◌}
use Prim.Native.Nat.{bit_or}
use fl.Base.Bits.{has, without}
use fl.Base.Int.{ℤ, pos, ebusy, eshutdown}
use fl.Hub.{
  Hub, Host, Hcd, log, on_bus, reg_lock, reg_unlock, msleep, readl, writel, set_link_state,
  sleep_unlocked, test_and_clear_bit, port_state_to_neutral, time_after, dev_superspeed,
  port_connect, port_pe, port_pls_mask, port_link_strobe, xdev_u0, xdev_u3, xdev_resume, port_csc,
  port_pec, port_wrc, port_occ, port_rc, port_plc, port_cec, port_wkconn_e, port_wkdisc_e,
  port_wkoc_e,
}
use fl.Hub.Slot.{find_slot_id_by_port, ring_device, stop_unlocked}

-- `PORT_WAKE_BITS` and `PORT_RWC_BITS`
abbrev pub port_wake_bits : ℕ
port_wake_bits = port_wkoc_e + port_wkdisc_e + port_wkconn_e

abbrev pub port_rwc_bits : ℕ
port_rwc_bits = port_csc + port_pec + port_wrc + port_occ + port_rc + port_plc + port_pe

-- Whether a port has to be suspended: it is enabled, and its link is in U0.
abbrev pub to_suspend : ℕ → Bool
to_suspend t₁ = has port_pe t₁ && not (has port_pls_mask t₁)

-- The value that puts an awake port to sleep.
unfoldable pub asleep : ℕ → ℕ
asleep t₂ = bit_or (without port_pls_mask t₂) (bit_or port_link_strobe xdev_u3)

-- The wake bits of a port: a connected one wakes on disconnect, another on connect.
unfoldable pub with_wake : Bool → ℕ → ℕ → ℕ
with_wake remote t₁ t₂ =
    if remote
    then if has port_connect t₁
      then without port_wkconn_e (bit_or t₂ (bit_or port_wkoc_e port_wkdisc_e))
      else without port_wkdisc_e (bit_or t₂ (bit_or port_wkoc_e port_wkconn_e))
    else without port_wake_bits t₂

-- The value that the suspension of the bus means to write to a port.
unfoldable pub suspend_value : Bool → ℕ → ℕ
suspend_value remote t₁ =
    let t₂ = port_state_to_neutral t₁ in
    with_wake remote t₁ (if to_suspend t₁ then asleep t₂ else t₂)

-- `set_bit( port_index, &bus_state->bus_suspended )`
abbrev pub mark_bus_suspended : ℕ → Hub → Hub
mark_bus_suspended index =
    on_bus (λ b. record b { bus_suspended = bit_or b.bus_suspended (2 ^ index) })

-- One port of `ehub_xhci_bus_suspend`.
unfoldable pub suspend_port : Host → Hcd → ℕ → Hub → Hub
suspend_port o c index h =
    let address = c.port_array index in
    let (h₁, t₁) = readl o address h in
    let slot = find_slot_id_by_port c (index + 1) in
    let stopped = if slot == 0 then h₁ else stop_unlocked o c slot h₁ in
    let h₂ = if to_suspend t₁ then mark_bus_suspended index stopped else h₁ in
    let t₂ = suspend_value c.do_remote_wakeup t₁ in
    if port_state_to_neutral t₁ == t₂ then h₂ else writel o t₂ address h₂

-- The ports below `n`, the last one first.
unfoldable pub suspend_loop : Host → Hcd → ℕ → Hub → Hub
suspend_loop o c zero h = h
suspend_loop o c (suc n) h = suspend_loop o c n (suspend_port o c n h)

-- `ehub_xhci_bus_suspend`. 10 ms are `HZ / 100` jiffies, with `HZ` 1000.
unfoldable pub bus_suspend : Host → Hcd → Hub → Hub × ℤ
bus_suspend o c h =
    let h₁ = log reg_lock h in
    let h₂ = suspend_loop o c c.max_ports (on_bus (λ b. record b { bus_suspended = 0 }) h₁) in
    let h₃ = record (on_bus (λ b. record b { next_statechange = o.jiffies h₂.log + 10 }) h₂) {
      suspended = true;
    } in
    if c.do_remote_wakeup && not (h.bus.resuming_ports == 0)
    then (log reg_unlock h₁, ebusy)
    else (log reg_unlock h₃, pos 0)

-- The value that a port in no need of a resume gets back.
unfoldable pub resume_value : ℕ → ℕ
resume_value temp =
    if dev_superspeed temp
    then without (port_rwc_bits + port_cec + port_wake_bits) temp
    else without (port_rwc_bits + port_wake_bits) temp

-- The link of a suspended port goes to U0, by way of the resume state where it is not SuperSpeed;
-- then its link change is cleared, and the doorbells of its device are rung.
unfoldable pub wake_port : Host → Hcd → ℕ → ℕ → Hub → Hub
wake_port o c index temp h =
    let address = c.port_array index in
    let slow = sleep_unlocked o 20 (set_link_state o address xdev_resume h) in
    let h₁ = set_link_state o address xdev_u0 (if dev_superspeed temp then h else slow) in
    let h₂ = test_and_clear_bit o address port_plc (sleep_unlocked o 20 h₁) in
    let slot = find_slot_id_by_port c (index + 1) in if slot == 0 then h₂ else ring_device c slot h₂

-- One port of `ehub_xhci_bus_resume`.
unfoldable pub resume_one : Host → Hcd → ℕ → Hub → Hub
resume_one o c index h =
    let address = c.port_array index in
    let (h₁, raw) = readl o address h in
    let temp = resume_value raw in
    if has (2 ^ index) h₁.bus.bus_suspended && has port_pls_mask temp
    then wake_port o c index temp h₁
    else writel o temp address h₁

-- The ports below `n`, the last one first.
unfoldable pub resume_loop : Host → Hcd → ℕ → Hub → Hub
resume_loop o c zero h = h
resume_loop o c (suc n) h = resume_loop o c n (resume_one o c n h)

-- `CMD_EIE` of the command register, off and on.
abbrev pub cmd_eie : ℕ
cmd_eie = 2 ^ 2

unfoldable pub change_command : Host → Hcd → (ℕ → ℕ) → Hub → Hub
change_command o c change h =
    let (h₁, temp) = readl o c.command h in writel o (change temp) c.command h₁

-- What `ehub_xhci_bus_resume` does under the lock, on hardware that can be reached.
unfoldable pub resume_locked : Host → Hcd → Hub → Hub
resume_locked o c h =
    let h₁ = change_command o c (without cmd_eie) h in
    let h₂ = (readl o c.command (resume_loop o c c.max_ports h₁)).0 in
    let h₃ = on_bus (λ b. record b { next_statechange = o.jiffies h₂.log + 5 }) h₂ in
    (readl o c.command (change_command o c (λ temp. bit_or temp cmd_eie) h₃)).0

-- `ehub_xhci_bus_resume`
unfoldable pub bus_resume : Host → Hcd → Hub → Hub × ℤ
bus_resume o c h =
    let early = time_after h.bus.next_statechange (o.jiffies h.log) in
    let h₁ = if early then on_bus o.others (log (msleep 5) h) else h in
    let h₂ = log reg_lock h₁ in
    if o.hw_accessible
    then (log reg_unlock (resume_locked o c h₂), pos 0)
    else (log reg_unlock h₂, eshutdown)
