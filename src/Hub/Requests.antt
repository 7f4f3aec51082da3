-- ===== src/Hub/Requests.antt =====
-- The locks of the requests to a root hub as a whole (xhci-hub.c).
use fl.Base.Bits.{has}
use fl.Hub.Orderly.{get_port_status-Holds, ring_device-Holds, stop_unlocked-Holds}
use fl.Hub.Descriptor.{usb3_removable, hub_descriptor, usb3_hub_descriptor}
use fl.Hub.Control.{
  clear_suspend, port_status, set_link, move_link, set_timeout, set_feature, request, set_power,
  set_suspend, clear_suspend_read, set_port_feature, clear_feature, write_read, descriptor,
  clear_change, acpi_power, clear_port_feature, suspend_to_u3,
}
use fl.Base.{ℕ, zero, suc, Bool, arith, if◌then◌else◌, ◌^◌, ◌+◌, ◌%◌}
use Prim.Native.Nat.{bit_or}
use fl.Hub.{Hub, Host, Hcd, readl, port_dev_remove}
use fl.Hub.Locks.{
  reg, step, held, Holds, locking, set_link_state-Holds, set_remote_wake_mask-Holds, readl-Holds,
  test_and_clear_bit-Holds, disable_port-Holds, clear_port_change_bit-Holds,
}

ruleset longer = (
  locking, set_link_state-Holds, set_remote_wake_mask-Holds, test_and_clear_bit-Holds,
  disable_port-Holds, clear_port_change_bit-Holds, ring_device-Holds, stop_unlocked-Holds,
  get_port_status-Holds,
)

suspend_to_u3-Holds :
    (o : Host) (c : Hcd) (index : ℕ) (h : Hub)
    → Holds reg h
    → Holds reg (suspend_to_u3 o c index h).0
unfolding suspend_to_u3
suspend_to_u3-Holds o c index h e = grind longer

set_suspend-Holds :
    (o : Host) (c : Hcd) (index : ℕ) (h : Hub) → Holds reg h → Holds reg (set_suspend o c index h).0
unfolding set_suspend
set_suspend-Holds o c index h e = grind (longer, suspend_to_u3-Holds)

move_link-Holds :
    (o : Host) (c : Hcd) (index link_state : ℕ) (h : Hub)
    → Holds reg h
    → Holds reg (move_link o c index link_state h)
unfolding move_link
move_link-Holds o c index link_state h e = grind longer

set_link-Holds :
    (o : Host) (c : Hcd) (index link_state : ℕ) (h : Hub)
    → Holds reg h
    → Holds reg (set_link o c index link_state h).0
unfolding set_link
set_link-Holds o c index link_state h e = grind (longer, move_link-Holds)

acpi_power-Holds :
    (o : Host) (index : ℕ) (on : Bool) (h : Hub) → Holds reg h → Holds reg (acpi_power o index on h)
unfolding acpi_power held step
acpi_power-Holds o index on h e = ground arith

set_power-Holds :
    (o : Host) (c : Hcd) (index temp : ℕ) (h : Hub)
    → Holds reg h
    → Holds reg (set_power o c index temp h).0
unfolding set_power
set_power-Holds o c index temp h e = grind (locking, acpi_power-Holds)

set_timeout-Holds :
    (o : Host) (c : Hcd) (index mask field : ℕ) (h : Hub)
    → Holds reg h
    → Holds reg (set_timeout o c index mask field h).0
unfolding set_timeout
set_timeout-Holds o c index mask field h e = grind locking

write_read-Holds :
    (o : Host) (c : Hcd) (index value : ℕ) (h : Hub)
    → Holds reg h
    → Holds reg (write_read o c index value h).0
unfolding write_read
write_read-Holds o c index value h e = grind locking

set_feature-Holds :
    (o : Host) (c : Hcd) (feature selector index temp : ℕ) (h : Hub)
    → Holds reg h
    → Holds reg (set_feature o c feature selector index temp h).0
unfolding set_feature
set_feature-Holds o c feature selector index temp h e = grind (
  longer, set_suspend-Holds, set_link-Holds, set_power-Holds, set_timeout-Holds, write_read-Holds,
)

set_port_feature-Holds :
    (o : Host) (c : Hcd) (feature w_index : ℕ) (h : Hub)
    → Holds reg h
    → Holds reg (set_port_feature o c feature w_index h).0
unfolding set_port_feature
set_port_feature-Holds o c feature w_index h e = grind (locking, set_feature-Holds)

clear_suspend_read-Holds :
    (o : Host) (c : Hcd) (index temp : ℕ) (h : Hub)
    → Holds reg h
    → Holds reg (clear_suspend_read o c index temp h).0
unfolding clear_suspend_read
clear_suspend_read-Holds o c index temp h e = grind longer

clear_suspend-Holds :
    (o : Host) (c : Hcd) (index : ℕ) (h : Hub)
    → Holds reg h
    → Holds reg (clear_suspend o c index h).0
unfolding clear_suspend
clear_suspend-Holds o c index h e = grind (locking, clear_suspend_read-Holds)

clear_change-Holds :
    (o : Host) (c : Hcd) (feature index temp : ℕ) (h : Hub)
    → Holds reg h
    → Holds reg (clear_change o c feature index temp h)
unfolding clear_change
clear_change-Holds o c feature index temp h e = grind longer

clear_feature-Holds :
    (o : Host) (c : Hcd) (feature index temp : ℕ) (h : Hub)
    → Holds reg h
    → Holds reg (clear_feature o c feature index temp h).0
unfolding clear_feature
clear_feature-Holds o c feature index temp h e =
    grind (longer, clear_suspend-Holds, acpi_power-Holds, clear_change-Holds)

clear_port_feature-Holds :
    (o : Host) (c : Hcd) (feature w_index : ℕ) (h : Hub)
    → Holds reg h
    → Holds reg (clear_port_feature o c feature w_index h).0
unfolding clear_port_feature
clear_port_feature-Holds o c feature w_index h e = grind (locking, clear_feature-Holds)

port_status-Holds :
    (o : Host) (c : Hcd) (w_index : ℕ) (h : Hub)
    → Holds reg h
    → Holds reg (port_status o c w_index h).0
unfolding port_status
port_status-Holds o c w_index h e = grind (locking, get_port_status-Holds)

usb3_removable-Holds :
    (o : Host) (c : Hcd) (port_removable p left : ℕ) (h : Hub)
    → Holds reg h
    → Holds reg (usb3_removable o c port_removable p left h).0
unfolding usb3_removable
usb3_removable-Holds o c port_removable p zero h e = e
usb3_removable-Holds o c port_removable p (suc left) h e =
    let (h₁, portsc) = readl o (c.port_array p) h in
    let next =
      if has port_dev_remove portsc
      then bit_or port_removable (2 ^ (p + 1)) % 65536
      else port_removable in
    usb3_removable-Holds o c next (suc p) left h₁ (readl-Holds o (c.port_array p) h e)

descriptor-Holds :
    (o : Host) (c : Hcd) (w_value w_length : ℕ) (h : Hub)
    → Holds reg h
    → Holds reg (descriptor o c w_value w_length h).0
unfolding descriptor hub_descriptor usb3_hub_descriptor
descriptor-Holds o c w_value w_length h e = grind (arith, usb3_removable-Holds)

pub request-Holds :
    (o : Host) (c : Hcd) (type_req w_value w_index w_length : ℕ) (h : Hub)
    → Holds reg h
    → Holds reg (request o c type_req w_value w_index w_length h).0
unfolding request
request-Holds o c type_req w_value w_index w_length h e =
    grind
      (arith, descriptor-Holds, port_status-Holds, set_port_feature-Holds, clear_port_feature-Holds)
