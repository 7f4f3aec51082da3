-- ===== src/Hub/Control.antt =====
-- `ehub_xhci_hub_control` (xhci-hub.c): a control request to a root hub.
use fl.Base.{
  ℕ, Bool, true, false, List, ◌∷◌, [], none, some, not, ◌+◌, ◌-◌, ◌*◌, ◌/◌, ◌%◌, ◌^◌, ◌&&◌, ◌||◌,
  if◌then◌else◌, ◌==◌, ltb, leb,
}
use Prim.Native.Nat.{bit_or}
use fl.Base.Bits.{has, without}
use fl.Base.Bytes.{u32_max, le32}
use fl.Base.Int.{ℤ, pos, epipe, enodev}
use fl.Hub.{
  Hub, Host, Hcd, log, on_bus, reg_lock, reg_unlock, usb_acpi_power_manageable,
  usb_acpi_set_power_state, readl, writel, sleep_unlocked, set_link_state, set_remote_wake_mask,
  disable_port, clear_port_change_bit, port_state_to_neutral, pls, port_pe, port_reset, xdev_u0,
  xdev_u3, xdev_resume, port_power, port_csc, port_pec, port_wrc, port_occ, port_rc, port_plc,
  port_cec, port_wr, c_suspend, change_bit_of,
}
use fl.Hub.Slot.{find_slot_id_by_port, ring_device, stop_unlocked}
use fl.Hub.Status.{get_port_status}
use fl.Hub.Descriptor.{hub_descriptor, bos_descriptor, usb_dt_ss_hub, usb_dt_bos, bos_size}

-- The requests that the handler knows, as numbers of `typeReq`.
abbrev pub get_hub_status : ℕ
get_hub_status = 0xa000

abbrev pub get_hub_descriptor : ℕ
get_hub_descriptor = 0xa006

abbrev pub get_device_descriptor : ℕ
get_device_descriptor = 0x8006

abbrev pub get_port_status_request : ℕ
get_port_status_request = 0xa300

abbrev pub set_port_feature_request : ℕ
set_port_feature_request = 0x2303

abbrev pub clear_port_feature_request : ℕ
clear_port_feature_request = 0x2301

-- The features of a port that can be set (ch11.h).
abbrev pub feat_enable : ℕ
feat_enable = 1

abbrev pub feat_suspend : ℕ
feat_suspend = 2

abbrev pub feat_reset : ℕ
feat_reset = 4

abbrev pub feat_link_state : ℕ
feat_link_state = 5

abbrev pub feat_power : ℕ
feat_power = 8

abbrev pub feat_u1_timeout : ℕ
feat_u1_timeout = 23

abbrev pub feat_u2_timeout : ℕ
feat_u2_timeout = 24

abbrev pub feat_remote_wake_mask : ℕ
feat_remote_wake_mask = 27

abbrev pub feat_bh_port_reset : ℕ
feat_bh_port_reset = 28

-- `suspended_ports |= 1 << wIndex`, and `port_c_suspend |= 1 << wIndex`
abbrev pub mark_suspended : ℕ → Hub → Hub
mark_suspended index =
    on_bus (λ b. record b { suspended_ports = bit_or b.suspended_ports (2 ^ index) })

abbrev pub mark_c_suspend : ℕ → Hub → Hub
mark_c_suspend index =
    on_bus (λ b. record b { port_c_suspend = bit_or b.port_c_suspend (2 ^ index) })

-- The rest of `USB_PORT_FEAT_SUSPEND`, once the link is in U0, U1 or U2: the device is stopped and
-- the link goes to U3.
unfoldable pub suspend_to_u3 : Host → Hcd → ℕ → Hub → Hub × Bool
suspend_to_u3 o c index h =
    let address = c.port_array index in
    let (h₁, temp) = readl o address h in
    let slot = find_slot_id_by_port c (index + 1) in
    let h₂ = set_link_state o address xdev_u3 (stop_unlocked o c slot h₁) in
    let h₃ = (readl o address (sleep_unlocked o 10 h₂)).0 in
    if not (has port_pe temp) || has port_reset temp || leb xdev_u3 (pls temp)
    then (h₁, false)
    else if slot == 0
    then (h₁, false)
    else (mark_suspended index h₃, true)

-- `USB_PORT_FEAT_SUSPEND` of SetPortFeature. The result says whether it was taken.
unfoldable pub set_suspend : Host → Hcd → ℕ → Hub → Hub × Bool
set_suspend o c index h =
    let address = c.port_array index in
    let (h₁, temp) = readl o address h in
    let resumed = sleep_unlocked o 10 (set_link_state o address xdev_u0 h₁) in
    if temp == u32_max
    then (h₁, false)
    else suspend_to_u3 o c index (if pls temp == xdev_u0 then h₁ else resumed)

-- All change bits, and the bit that disables a port.
abbrev pub all_changes : ℕ
all_changes = port_csc + port_pec + port_wrc + port_occ + port_rc + port_plc + port_cec

-- The end of `USB_PORT_FEAT_LINK_STATE`: the link goes to U0 … U3, the device stopped for U3.
unfoldable pub move_link : Host → Hcd → ℕ → ℕ → Hub → Hub
move_link o c index link_state h =
    let address = c.port_array index in
    let to_u3 = link_state == xdev_u3 in
    let slot = find_slot_id_by_port c (index + 1) in
    let h₁ = if to_u3 && not (slot == 0) then stop_unlocked o c slot h else h in
    let h₂ = sleep_unlocked o 20 (set_link_state o address link_state h₁) in
    let h₃ = (readl o address h₂).0 in if to_u3 then mark_suspended index h₃ else h₃

-- `USB_PORT_FEAT_LINK_STATE` of SetPortFeature: 0x80 disables the port, 0xa0 enables it.
unfoldable pub set_link : Host → Hcd → ℕ → ℕ → Hub → Hub × Bool
set_link o c index link_state h =
    let address = c.port_array index in
    let (h₁, temp) = readl o address h in
    let disabled = bit_or (bit_or (port_state_to_neutral temp) all_changes) port_pe in
    if temp == u32_max
    then (h₁, false)
    else if link_state == 0x80
    then ((readl o address (writel o disabled address h₁)).0, true)
    else if link_state == 0xa0
    then ((readl o address (set_link_state o address link_state h₁)).0, true)
    else if not (has port_pe temp) || ltb xdev_u3 link_state
    then (h₁, false)
    else (move_link o c index link_state h₁, true)

-- The ACPI power state, outside of the lock.
unfoldable pub acpi_power : Host → ℕ → Bool → Hub → Hub
acpi_power o index on h =
    let h₁ = log (usb_acpi_power_manageable index) (log reg_unlock h) in
    let h₂ = log (usb_acpi_set_power_state index on) h₁ in
    log reg_lock (if o.power_manageable h₁.log then h₂ else h₁)

-- `USB_PORT_FEAT_POWER` of SetPortFeature.
unfoldable pub set_power : Host → Hcd → ℕ → ℕ → Hub → Hub × Bool
set_power o c index temp h =
    let address = c.port_array index in
    let (h₁, seen) = readl o address (writel o (bit_or temp port_power) address h) in
    if seen == u32_max then (h₁, false) else (acpi_power o index true h₁, true)

-- The U1 and U2 timeouts, in the register behind PORTSC.
unfoldable pub set_timeout : Host → Hcd → ℕ → ℕ → ℕ → Hub → Hub × Bool
set_timeout o c index mask field h =
    let address = c.port_array index + 4 in
    let (h₁, temp) = readl o address h in
    if c.usb3 then (writel o (bit_or (without mask temp) field) address h₁, true) else (h, false)

-- A write of PORTSC, and a read after it.
unfoldable pub write_read : Host → Hcd → ℕ → ℕ → Hub → Hub × Bool
write_read o c index value h =
    let address = c.port_array index in ((readl o address (writel o value address h)).0, true)

-- The switch of SetPortFeature. `temp` is the neutral value of PORTSC, `selector` the high byte
-- of `wIndex`.
unfoldable pub set_feature : Host → Hcd → ℕ → ℕ → ℕ → ℕ → Hub → Hub × Bool
set_feature o c feature selector index temp h =
    let address = c.port_array index in
    if feature == feat_suspend
    then set_suspend o c index h
    else if feature == feat_link_state
    then set_link o c index (selector * 256 / 8) h
    else if feature == feat_power
    then set_power o c index temp h
    else if feature == feat_reset
    then write_read o c index (bit_or temp port_reset) h
    else if feature == feat_remote_wake_mask
    then ((readl o address (set_remote_wake_mask o address (selector * 256) h)).0, true)
    else if feature == feat_bh_port_reset
    then write_read o c index (bit_or temp port_wr) h
    else if feature == feat_u1_timeout
    then set_timeout o c index 0xff selector h
    else if feature == feat_u2_timeout
    then set_timeout o c index 0xff00 (selector * 256) h
    else (h, false)

-- The status of a request that was taken, or the "stall" of one that was not.
abbrev pub stall_unless : Bool → ℤ
stall_unless taken = if taken then pos 0 else epipe

-- SetPortFeature. `goto error` overwrites -ENODEV with -EPIPE.
unfoldable pub set_port_feature : Host → Hcd → ℕ → ℕ → Hub → Hub × ℤ
set_port_feature o c feature w_index h =
    let port = w_index % 256 in
    let index = port - 1 in
    let (h₁, temp) = readl o (c.port_array index) h in
    let (h₂, taken) =
      set_feature o c feature (w_index / 256) index (port_state_to_neutral temp) h₁ in
    let posted = (readl o (c.port_array index) h₂).0 in
    if (port == 0) || ltb c.max_ports port
    then (h, epipe)
    else if temp == u32_max
    then (h₁, epipe)
    else (if taken then posted else h₂, stall_unless taken)

-- `USB_PORT_FEAT_SUSPEND` of ClearPortFeature, behind its read: a link in U3 is resumed.
unfoldable pub clear_suspend_read : Host → Hcd → ℕ → ℕ → Hub → Hub × Bool
clear_suspend_read o c index temp h =
    let address = c.port_array index in
    let resumed =
      set_link_state o address xdev_u0
        (sleep_unlocked o 20 (set_link_state o address xdev_resume h)) in
    let in_u3 = pls temp == xdev_u3 in
    let slot = find_slot_id_by_port c (index + 1) in
    let h₁ = mark_c_suspend index (if in_u3 then resumed else h) in
    if has port_reset temp
    then (h, false)
    else if in_u3 && not (has port_pe temp)
    then (h, false)
    else if slot == 0
    then (h₁, false)
    else (ring_device c slot h₁, true)

unfoldable pub clear_suspend : Host → Hcd → ℕ → Hub → Hub × Bool
clear_suspend o c index h =
    let (h₁, temp) = readl o (c.port_array index) h in clear_suspend_read o c index temp h₁

-- The change features. `USB_PORT_FEAT_C_SUSPEND` falls through to the others.
unfoldable pub clear_change : Host → Hcd → ℕ → ℕ → ℕ → Hub → Hub
clear_change o c feature index temp h =
    let h₁ =
      if feature == c_suspend
      then on_bus (λ b. record b { port_c_suspend = without (2 ^ index) b.port_c_suspend }) h
      else h in
    clear_port_change_bit o feature (c.port_array index) temp h₁

-- The switch of ClearPortFeature.
unfoldable pub clear_feature : Host → Hcd → ℕ → ℕ → ℕ → Hub → Hub × Bool
clear_feature o c feature index temp h =
    let address = c.port_array index in
    if feature == feat_suspend
    then clear_suspend o c index h
    else if feature == feat_enable
    then (disable_port o c address temp h, true)
    else if feature == feat_power
    then (acpi_power o index false (writel o (without port_power temp) address h), true)
    else elim (change_bit_of feature) [
      | none ↦ (h, false)
      | some _ ↦ (clear_change o c feature index temp h, true)
    ]

-- ClearPortFeature: here -ENODEV is returned.
unfoldable pub clear_port_feature : Host → Hcd → ℕ → ℕ → Hub → Hub × ℤ
clear_port_feature o c feature w_index h =
    let index = w_index - 1 in
    let (h₁, temp) = readl o (c.port_array index) h in
    let (h₂, taken) = clear_feature o c feature index (port_state_to_neutral temp) h₁ in
    if (w_index == 0) || ltb c.max_ports w_index
    then (h, epipe)
    else if temp == u32_max
    then (h₁, enodev)
    else (h₂, stall_unless taken)

-- GetPortStatus, with the status word for the buffer.
unfoldable pub port_status : Host → Hcd → ℕ → Hub → Hub × ℤ × List ℕ
port_status o c w_index h =
    let index = w_index - 1 in
    let (h₁, temp) = readl o (c.port_array index) h in
    let (h₂, status) = get_port_status o c index temp h₁ in
    if (w_index == 0) || ltb c.max_ports w_index
    then (h, epipe, [])
    else if temp == u32_max
    then (h₁, epipe, [])
    else if status == u32_max
    then (h₂, epipe, [])
    else (h₂, pos 0, le32 status)

-- The request for a hub descriptor.
unfoldable pub descriptor : Host → Hcd → ℕ → ℕ → Hub → Hub × ℤ × List ℕ
descriptor o c w_value w_length h =
    let (h₁, bytes) = hub_descriptor o c h in
    if c.usb3 && (ltb w_length 12 || not (w_value == usb_dt_ss_hub * 256))
    then (h, epipe, [])
    else (h₁, pos 0, bytes)

-- The request for the BOS descriptor.
unfoldable pub device_descriptor : Hcd → ℕ → ℤ × List ℕ
device_descriptor c w_value =
    if not (w_value / 256 == usb_dt_bos) || not c.usb3
    then (epipe, [])
    else (pos bos_size, bos_descriptor c)

-- A result with nothing for the buffer.
abbrev pub without_bytes : Hub × ℤ → Hub × ℤ × List ℕ
without_bytes r = (r.0, r.1, [])

-- The switch of `ehub_xhci_hub_control`, under the lock.
unfoldable pub request : Host → Hcd → ℕ → ℕ → ℕ → ℕ → Hub → Hub × ℤ × List ℕ
request o c type_req w_value w_index w_length h =
    if type_req == get_hub_status
    then (h, pos 0, 0 ∷ 0 ∷ 0 ∷ 0 ∷ [])
    else if type_req == get_hub_descriptor
    then descriptor o c w_value w_length h
    else if type_req == get_device_descriptor
    then (h, (device_descriptor c w_value).0, (device_descriptor c w_value).1)
    else if type_req == get_port_status_request
    then port_status o c w_index h
    else if type_req == set_port_feature_request
    then without_bytes (set_port_feature o c w_value w_index h)
    else if type_req == clear_port_feature_request
    then without_bytes (clear_port_feature o c w_value w_index h)
    else (h, epipe, [])

-- `ehub_xhci_hub_control`, with its status and what it wrote to the start of the caller's buffer.
unfoldable pub hub_control : Host → Hcd → ℕ → ℕ → ℕ → ℕ → Hub → Hub × ℤ × List ℕ
hub_control o c type_req w_value w_index w_length h =
    let (h₁, status, bytes) = request o c type_req w_value w_index w_length (log reg_lock h) in
    (log reg_unlock h₁, status, bytes)
