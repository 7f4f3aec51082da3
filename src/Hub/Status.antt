-- ===== src/Hub/Status.antt =====
-- `xhci_get_port_status` (xhci-hub.c): a raw PORTSC value in the format of an external hub.
use fl.Base.{ℕ, Bool, true, false, not, ◌+◌, ◌-◌, ◌*◌, ◌^◌, ◌&&◌, ◌||◌, if◌then◌else◌, ◌==◌}
use Prim.Native.Nat.{bit_or}
use fl.Base.Bits.{has, without}
use fl.Base.Bytes.{u32_max}
use fl.Hub.{
  Hub, Host, Hcd, BusState, log, on_bus, reg_lock, reg_unlock, wait_for_rexit, del_timer_sync,
  readl, set_link_state, time_after_eq, pls, dev_lowspeed, dev_highspeed, dev_superspeed,
  port_connect, port_pe, port_oc, port_reset, xdev_u0, xdev_u2, xdev_u3, xdev_resume, port_power,
  port_csc, port_pec, port_wrc, port_occ, port_rc, port_plc, port_cec, port_cas,
}
use fl.Hub.Slot.{find_slot_id_by_port, ring_device}

-- Bits of `wPortStatus`, and of `wPortChange` above them (ch11.h).
abbrev pub stat_connection : ℕ
stat_connection = 0x1

abbrev pub stat_enable : ℕ
stat_enable = 0x2

abbrev pub stat_suspend : ℕ
stat_suspend = 0x4

abbrev pub stat_overcurrent : ℕ
stat_overcurrent = 0x8

abbrev pub stat_reset : ℕ
stat_reset = 0x10

abbrev pub stat_l1 : ℕ
stat_l1 = 0x20

abbrev pub stat_power : ℕ
stat_power = 0x100

abbrev pub ss_stat_power : ℕ
ss_stat_power = 0x200

abbrev pub ss_port_ls_comp_mod : ℕ
ss_port_ls_comp_mod = 0x140

abbrev pub ss_port_ls_ss_inactive : ℕ
ss_port_ls_ss_inactive = 0xc0

-- `if (raw & mask) status |= bits`
abbrev pub report : Bool → ℕ → ℕ → ℕ
report found bits status = if found then bit_or status bits else status

-- The `wPortChange` bits.
unfoldable pub port_change : Bool → ℕ → ℕ
port_change usb3 raw =
    let s₁ = report (has port_csc raw) (0x1 * 2 ^ 16) 0 in
    let s₂ = report (has port_pec raw) (0x2 * 2 ^ 16) s₁ in
    let s₃ = report (has port_occ raw) (0x8 * 2 ^ 16) s₂ in
    let s₄ = report (has port_rc raw) (0x10 * 2 ^ 16) s₃ in
    let s₅ = report (usb3 && has port_plc raw) (0x40 * 2 ^ 16) s₄ in
    let s₆ = report (usb3 && has port_wrc raw) (0x20 * 2 ^ 16) s₅ in
    report (usb3 && has port_cec raw) (0x80 * 2 ^ 16) s₆

-- `xhci_port_speed`
unfoldable pub port_speed : ℕ → ℕ
port_speed raw = if dev_lowspeed raw then 0x200 else if dev_highspeed raw then 0x400 else 0

-- The end of a resume that has been signalled long enough: the port goes to U0, and the device's
-- doorbells are rung. The port's status is all ones where no device is found.
unfoldable pub resume_rung : Host → Hcd → ℕ → ℕ → Hub → Hub × ℕ × Bool
resume_rung o c index status h =
    let slot = find_slot_id_by_port c (index + 1) in
    if o.time_left h.log == 0
    then (
      on_bus (λ b. record b { rexit_ports = without (2 ^ index) b.rexit_ports })
          (readl o (c.port_array index) h).0,
      bit_or status stat_suspend,
      true,
    )
    else if slot == 0
    then (h, u32_max, false)
    else (ring_device c slot h, status, true)

-- The bus state once the resume of a port is taken up, and once it is over.
abbrev pub resume_begun : ℕ → BusState → BusState
resume_begun index b = record b {
  resume_done = λ i. if i == index then 0 else b.resume_done i;
  resuming_ports = without (2 ^ index) b.resuming_ports;
  rexit_ports = bit_or b.rexit_ports (2 ^ index);
}

abbrev pub resume_ended : ℕ → BusState → BusState
resume_ended index b = record b {
  port_c_suspend = bit_or b.port_c_suspend (2 ^ index);
  suspended_ports = without (2 ^ index) b.suspended_ports;
}

unfoldable pub resume_port : Host → Hcd → ℕ → ℕ → Hub → Hub × ℕ × Bool
resume_port o c index status h =
    let h₁ = set_link_state o (c.port_array index) xdev_u0 (on_bus (resume_begun index) h) in
    let h₂ = log reg_lock (on_bus o.others (log wait_for_rexit (log reg_unlock h₁))) in
    let (h₃, status₁, goes_on) = resume_rung o c index status h₂ in
    if goes_on then (on_bus (resume_ended index) h₃, status₁, true) else (h₃, status₁, false)

-- The whole branch of a port in the resume state; `false` at the end returns the status at once.
unfoldable pub report_resume : Host → Hcd → ℕ → ℕ → ℕ → Hub → Hub × ℕ × Bool
report_resume o c index raw status h =
    if not ((pls raw == xdev_resume) && not (dev_superspeed raw))
    then (h, status, true)
    else if has port_reset raw || not (has port_pe raw)
    then (h, u32_max, false)
    else if time_after_eq (o.jiffies h.log) (h.bus.resume_done index)
    then resume_port o c index status h
    else (h, bit_or status stat_suspend, true)

-- A port that is back in U0 is not suspended any more.
unfoldable pub leave_suspend : Hcd → ℕ → ℕ → Hub → Hub
leave_suspend c index raw h =
    if (pls raw == xdev_u0) && has port_power raw && has (2 ^ index) h.bus.suspended_ports
    then on_bus
        (λ b. record b {
          suspended_ports = without (2 ^ index) b.suspended_ports;
          port_c_suspend = if c.usb3 then b.port_c_suspend else bit_or b.port_c_suspend (2 ^ index);
        })
        h
    else h

-- The `wPortStatus` bits that are copied from the register.
unfoldable pub report_state : Bool → ℕ → ℕ → ℕ
report_state usb3 raw status =
    let s₁ = report (has port_connect raw) (bit_or stat_connection (port_speed raw)) status in
    let s₂ = report (has port_pe raw) stat_enable s₁ in
    let s₃ = report (has port_oc raw) stat_overcurrent s₂ in
    let s₄ = report (has port_reset raw) stat_reset s₃ in
    report (has port_power raw) (if usb3 then ss_stat_power else stat_power) s₄

-- `xhci_hub_report_usb2_link_state`
unfoldable pub report_usb2_link_state : ℕ → ℕ → ℕ
report_usb2_link_state status raw = report (pls raw == xdev_u2) stat_l1 status

-- `xhci_hub_report_usb3_link_state`
unfoldable pub report_usb3_link_state : Hcd → ℕ → ℕ → ℕ
report_usb3_link_state c status raw =
    let link = pls raw in
    let faked =
      if (link == ss_port_ls_comp_mod) || (link == ss_port_ls_ss_inactive)
      then link
      else ss_port_ls_comp_mod in
    if link == xdev_resume
    then status
    else if has port_cas raw
    then bit_or status (bit_or faked stat_connection)
    else if c.comp_mode_quirk && (link == ss_port_ls_comp_mod)
    then bit_or status (bit_or link stat_connection)
    else bit_or status link

-- `xhci_del_comp_mod_timer`: the timer goes once all ports have been in U0.
unfoldable pub del_comp_mod_timer : Hcd → ℕ → ℕ → Hub → Hub
del_comp_mod_timer c raw index h =
    let all_ports_seen_u0 = 2 ^ c.num_usb3_ports - 1 in
    let seen = bit_or h.port_status_u0 (2 ^ index) in
    let h₁ = record h { port_status_u0 = seen } in
    if not c.comp_mode_quirk
    then h
    else if not (h.port_status_u0 == all_ports_seen_u0) && (pls raw == xdev_u0)
    then if seen == all_ports_seen_u0 then log del_timer_sync h₁ else h₁
    else h

-- The link state at the end, and the suspend change.
unfoldable pub report_link : Hcd → ℕ → ℕ → ℕ → Hub → Hub × ℕ
report_link c index raw status h =
    let h₁ = if c.usb3 then del_comp_mod_timer c raw index h else h in
    let linked =
      if c.usb3 then report_usb3_link_state c status raw else report_usb2_link_state status raw in
    (h₁, report (has (2 ^ index) h₁.bus.port_c_suspend) (2 ^ 18) linked)

-- `xhci_get_port_status`
unfoldable pub get_port_status : Host → Hcd → ℕ → ℕ → Hub → Hub × ℕ
get_port_status o c index raw h =
    let asleep = not c.usb3 && (pls raw == xdev_u3) && has port_power raw in
    let status = report asleep stat_suspend (port_change c.usb3 raw) in
    let (h₁, status₁, goes_on) = report_resume o c index raw status h in
    let reported = report_link c index raw (report_state c.usb3 raw status₁) in
    if goes_on then reported (leave_suspend c index raw h₁) else (h₁, status₁)
