-- ===== src/Hub/Poll.antt =====
-- `ehub_xhci_hub_status_data` (xhci-hub.c): the bitmap of the ports that changed.
use fl.Base.{
  ℕ, zero, suc, Bool, false, List, not, ◌+◌, ◌/◌, ◌%◌, ◌^◌, ◌&&◌, ◌||◌, if◌then◌else◌, ◌==◌,
  replicate, set, get_elem?, none, some,
}
use Prim.Native.Nat.{bit_or}
use fl.Base.Bits.{has}
use fl.Base.Bytes.{u32_max}
use fl.Base.Int.{ℤ, pos, enodev}
use fl.Hub.{
  Hub, Host, Hcd, log, reg_lock, reg_unlock, readl, time_after_eq, port_csc, port_pec, port_wrc,
  port_occ, port_rc, port_plc, port_cec,
}

-- `mask`
abbrev pub change_mask : ℕ
change_mask = port_csc + port_pec + port_occ + port_plc + port_wrc + port_cec

-- `buf[(i + 1) / 8] |= 1 << (i + 1) % 8`
unfoldable pub set_bit_of : ℕ → List ℕ → List ℕ
set_bit_of i buf = elim (get_elem? buf ((i + 1) / 8)) [
  | none ↦ buf
  | some byte ↦ set buf ((i + 1) / 8) (bit_or byte (2 ^ ((i + 1) % 8)))
]

-- What the loop keeps: the hub, the buffer, `status`, `reset_change`, and `retval`.
pub record Poll : Type 0 where
  pub hub : Hub
  pub buf : List ℕ
  pub status : ℕ
  pub reset_change : Bool
  pub retval : ℤ

-- Whether port `i`, with PORTSC `temp`, has something to report.
unfoldable pub port_changed : Host → ℕ → ℕ → Hub → Bool
port_changed o i temp h =
    has change_mask temp
    || has (2 ^ i) h.bus.port_c_suspend
    || not (h.bus.resume_done i == 0) && time_after_eq (o.jiffies h.log) (h.bus.resume_done i)

-- One port.
unfoldable pub poll_port : Host → ℕ → ℕ → Hub → Poll → Poll
poll_port o i temp h p =
    let changed = port_changed o i temp h in
    record {
      hub = h;
      buf = if changed then set_bit_of i p.buf else p.buf;
      status = if changed then 1 else p.status;
      reset_change = has port_rc temp || p.reset_change;
      retval = p.retval;
    }

-- The ports from `i` on, of which `left` are left.
unfoldable pub poll_loop : Host → Hcd → ℕ → ℕ → Poll → Poll
poll_loop o c i zero p = p
poll_loop o c i (suc left) p =
    let (h, temp) = readl o (c.port_array i) p.hub in
    let rest = poll_loop o c (suc i) left (poll_port o i temp h p) in
    if temp == u32_max then record p { hub = h; retval = enodev } else rest

-- What the loop starts with, once the lock is taken.
unfoldable pub poll_start : Hcd → Hub → Poll
poll_start c h = record {
  hub = log reg_lock h;
  buf = replicate ((c.max_ports + 8) / 8) 0;
  status = h.bus.resuming_ports % 2 ^ 32;
  reset_change = false;
  retval = pos ((c.max_ports + 8) / 8);
}

-- `ehub_xhci_hub_status_data`, with its result and the buffer. The error check of the device comes
-- to nothing: its status is kept in a `u32`, which is never below 0.
unfoldable pub hub_status_data : Host → Hcd → Hub → Hub × ℤ × List ℕ
hub_status_data o c h =
    let p = poll_loop o c 0 c.max_ports (poll_start c h) in
    let quiet = (p.status == 0) && not p.reset_change in
    let h₁ = if quiet then record (p.hub) { poll_rh = false } else p.hub in
    (log reg_unlock h₁, if p.status == 0 then pos 0 else p.retval, p.buf)
