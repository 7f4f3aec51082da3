-- ===== src/Hub/Slot.antt =====
-- The device on a port (xhci-hub.c): its slot, its endpoints stopped, and its doorbells rung.
use fl.Base.{ℕ, zero, suc, Bool, true, false, none, some, not, ◌+◌, ◌-◌, ◌&&◌, if◌then◌else◌, ◌==◌}
use fl.Hub.{
  Hub, Host, Hcd, VirtDevice, VirtEp, log, on_bus, spin_lock, spin_unlock, alloc_command,
  free_command, queue_stop_endpoint, ring_cmd_db, wait_for_command, ring_ep_doorbell, reg_lock,
  reg_unlock,
}
use fl.Base.Int.{ℤ, pos, enomem, etime}
use fl.Device.{null_pointer, add_fault}

abbrev pub max_hc_slots : ℕ
max_hc_slots = 9

abbrev pub last_ep_index : ℕ
last_ep_index = 30

-- Whether the device is on this hub, at the port.
abbrev pub is_on_port : Hcd → ℕ → VirtDevice → Bool
is_on_port c port v = (if v.super_speed then c.usb3 else not c.usb3) && (v.fake_port == port)

-- The slots from `i` on; `left` of them are not looked at yet.
unfoldable pub find_slot_loop : Hcd → ℕ → ℕ → ℕ → ℕ
find_slot_loop c port i zero = 0
find_slot_loop c port i (suc left) =
    let rest = find_slot_loop c port (suc i) left in
    elim (c.devs i) [ none ↦ rest | some v ↦ if is_on_port c port v then i else rest ]

-- `ehub_xhci_find_slot_id_by_port`: 0 where no device is there.
unfoldable pub find_slot_id_by_port : Hcd → ℕ → ℕ
find_slot_id_by_port c port = find_slot_loop c port 0 max_hc_slots

-- The loop of `xhci_stop_device` over the endpoints from `i` down to 1; whether it went through.
unfoldable pub stop_loop : Host → VirtDevice → ℕ → Bool → ℕ → Hub → Hub × Bool
stop_loop o v slot suspend zero h = (h, true)
stop_loop o v slot suspend (suc i) h =
    let h₁ = log alloc_command h in
    let queued = stop_loop o v slot suspend i (log (queue_stop_endpoint slot (suc i) suspend) h₁) in
    let skipped = stop_loop o v slot suspend i h in
    if not (v.eps (suc i)).ready
    then skipped
    else if not (o.allocates h₁.log)
    then (log free_command (log spin_unlock h₁), false)
    else queued

-- The end of `xhci_stop_device`: endpoint 0 too, the doorbell, and the wait for the last command.
unfoldable pub stop_finish : Host → ℕ → Bool → Hub → Hub × ℤ
stop_finish o slot suspend h =
    let h₁ = log spin_unlock (log ring_cmd_db (log (queue_stop_endpoint slot 0 suspend) h)) in
    let h₂ = on_bus o.others (log wait_for_command h₁) in
    (log free_command h₂, if o.command_fails h₂.log then etime else pos 0)

-- `xhci_stop_device`
unfoldable pub stop_device : Host → Hcd → ℕ → Bool → Hub → Hub × ℤ
stop_device o c slot suspend h = elim (c.devs slot) [
  | none ↦ (record h { device = add_fault null_pointer h.device }, pos 0)
  | some v ↦
      let h₁ = log alloc_command h in
      let (h₂, done) = stop_loop o v slot suspend last_ep_index (log spin_lock h₁) in
      if not (o.allocates h₁.log)
      then (h₁, enomem)
      else if not done
      then (h₂, enomem)
      else stop_finish o slot suspend h₂
]

-- `xhci_stop_device` outside of the register lock.
unfoldable pub stop_unlocked : Host → Hcd → ℕ → Hub → Hub
stop_unlocked o c slot h = log reg_lock (stop_device o c slot true (log reg_unlock h)).0

-- The doorbells of the streams `s`, `s + 1`, …, of which `left` are left.
unfoldable pub ring_streams : ℕ → ℕ → ℕ → ℕ → Hub → Hub
ring_streams slot ep s zero h = h
ring_streams slot ep s (suc left) h =
    ring_streams slot ep (suc s) left (log (ring_ep_doorbell slot ep s) h)

unfoldable pub ring_ep : ℕ → ℕ → VirtEp → Hub → Hub
ring_ep slot i ep h =
    if ep.has_streams
    then ring_streams slot i 1 (ep.num_streams - 1) h
    else if ep.ready
    then log (ring_ep_doorbell slot i 0) h
    else h

unfoldable pub ring_loop : ℕ → VirtDevice → ℕ → ℕ → Hub → Hub
ring_loop slot v i zero h = h
ring_loop slot v i (suc left) h = ring_loop slot v (suc i) left (ring_ep slot i (v.eps i) h)

-- `ehub_xhci_ring_device`
unfoldable pub ring_device : Hcd → ℕ → Hub → Hub
ring_device c slot h = elim (c.devs slot) [
  | none ↦ record h { device = add_fault null_pointer h.device }
  | some v ↦ ring_loop slot v 0 (last_ep_index + 1) h
]
