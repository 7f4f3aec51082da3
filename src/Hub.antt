-- ===== src/Hub.antt =====
-- xhci-hub.c: the two root hubs of the controller. Here are their state, the port registers and
-- the operations on a port; the requests are in the modules below.
pub mod Slot
pub mod Status
pub mod Descriptor
pub mod Control
pub mod Poll
pub mod Power
pub mod Locks
pub mod Orderly
pub mod Requests
pub mod Whole
pub mod Neutral
pub mod Clear
use fl.Base.{
  ℕ, Bool, true, false, List, ◌∷◌, [], Option, none, some, not, ◌+◌, ◌-◌, ◌*◌, ◌^◌, ◌<◌, ◌%◌, leb,
  if◌then◌else◌, ◌==◌,
}
use Prim.Native.Nat.{bit_and, bit_or}
use fl.Base.Bits.{has, without}
use fl.Kernel.{Kernel}
use fl.Device.{Device}
use fl.Register.{ehub_xhci_readl, ehub_xhci_writel}

-- What the code does to its locks, the registers and the outside, in order. A doorbell has a slot,
-- an endpoint and a stream; the stop of an endpoint has a slot, the endpoint and whether the
-- device is suspended.
pub data Access : Type 0 where
  reg_lock reg_unlock spin_lock spin_unlock : Access
  read_port write_port : ℕ → ℕ → Access
  msleep : ℕ → Access
  wait_for_rexit wait_for_command alloc_command free_command ring_cmd_db : Access
  queue_stop_endpoint : ℕ → ℕ → Bool → Access
  ring_ep_doorbell : ℕ → ℕ → ℕ → Access
  usb_acpi_power_manageable : ℕ → Access
  usb_acpi_set_power_state : ℕ → Bool → Access
  del_timer_sync : Access

-- `struct xhci_bus_state`, without `rexit_done`.
pub record BusState : Type 0 where
  pub bus_suspended : ℕ
  pub next_statechange : ℕ
  pub port_c_suspend : ℕ
  pub suspended_ports : ℕ
  pub resume_done : ℕ → ℕ
  pub resuming_ports : ℕ
  pub rexit_ports : ℕ

-- What changes: the device behind the registers, the state of this hub's bus, and the ports that
-- have entered U0. `log` has the latest access first.
pub record Hub : Type 0 where
  pub device : Device
  pub bus : BusState
  pub port_status_u0 : ℕ
  -- `HCD_FLAG_POLL_RH`, and `hcd->state == HC_STATE_SUSPENDED`
  pub poll_rh : Bool
  pub suspended : Bool
  pub log : List Access

-- `struct xhci_virt_ep`: `ready` is `ring && ring->dequeue`.
pub record VirtEp : Type 0 where
  pub has_streams : Bool
  pub num_streams : ℕ
  pub ready : Bool

-- `struct xhci_virt_device`, as far as a hub looks at it.
pub record VirtDevice : Type 0 where
  pub super_speed : Bool
  pub fake_port : ℕ
  pub eps : ℕ → VirtEp

-- What stays: `hcd` and the fields of `xhci` that a hub reads. `port_array` gives the address of
-- a port's PORTSC register, `command` is the address of the command register.
pub record Hcd : Type 0 where
  pub usb3 : Bool
  pub max_ports : ℕ
  pub port_array : ℕ → ℕ
  pub command : ℕ
  pub do_remote_wakeup : Bool
  pub comp_mode_quirk : Bool
  pub lpm_support : Bool
  pub hcs_params3 : ℕ
  pub hcc_params : ℕ
  pub num_usb3_ports : ℕ
  pub usb2_port_removable : ℕ → Bool
  pub devs : ℕ → Option VirtDevice

-- What the kernel answers, which may depend on all that went before; what runs during the two waits
-- of a register read and the one of a write; and what an interrupt may do to the bus state while
-- a request sleeps.
pub record Host : Type 0 where
  pub kernel : Kernel
  pub first : Device → Device
  pub second : Device → Device
  pub meanwhile : Device → Device
  pub others : BusState → BusState
  pub jiffies : List Access → ℕ
  pub time_left : List Access → ℕ
  pub allocates : List Access → Bool
  pub command_fails : List Access → Bool
  pub power_manageable : List Access → Bool
  pub hw_accessible : Bool

-- Bits of PORTSC (xhci.h).
abbrev pub port_connect : ℕ
port_connect = 2 ^ 0

abbrev pub port_pe : ℕ
port_pe = 2 ^ 1

abbrev pub port_oc : ℕ
port_oc = 2 ^ 3

abbrev pub port_reset : ℕ
port_reset = 2 ^ 4

abbrev pub port_pls_mask : ℕ
port_pls_mask = 0xf * 2 ^ 5

abbrev pub xdev_u0 : ℕ
xdev_u0 = 0

abbrev pub xdev_u2 : ℕ
xdev_u2 = 0x2 * 2 ^ 5

abbrev pub xdev_u3 : ℕ
xdev_u3 = 0x3 * 2 ^ 5

abbrev pub xdev_resume : ℕ
xdev_resume = 0xf * 2 ^ 5

abbrev pub port_power : ℕ
port_power = 2 ^ 9

abbrev pub dev_speed_mask : ℕ
dev_speed_mask = 0xf * 2 ^ 10

abbrev pub port_link_strobe : ℕ
port_link_strobe = 2 ^ 16

abbrev pub port_csc : ℕ
port_csc = 2 ^ 17

abbrev pub port_pec : ℕ
port_pec = 2 ^ 18

abbrev pub port_wrc : ℕ
port_wrc = 2 ^ 19

abbrev pub port_occ : ℕ
port_occ = 2 ^ 20

abbrev pub port_rc : ℕ
port_rc = 2 ^ 21

abbrev pub port_plc : ℕ
port_plc = 2 ^ 22

abbrev pub port_cec : ℕ
port_cec = 2 ^ 23

abbrev pub port_cas : ℕ
port_cas = 2 ^ 24

abbrev pub port_wkconn_e : ℕ
port_wkconn_e = 2 ^ 25

abbrev pub port_wkdisc_e : ℕ
port_wkdisc_e = 2 ^ 26

abbrev pub port_wkoc_e : ℕ
port_wkoc_e = 2 ^ 27

abbrev pub port_dev_remove : ℕ
port_dev_remove = 2 ^ 30

abbrev pub port_wr : ℕ
port_wr = 2 ^ 31

-- `DEV_LOWSPEED`, `DEV_HIGHSPEED` and `DEV_SUPERSPEED`
abbrev pub dev_lowspeed : ℕ → Bool
dev_lowspeed p = bit_and p dev_speed_mask == 0x2 * 2 ^ 10

abbrev pub dev_highspeed : ℕ → Bool
dev_highspeed p = bit_and p dev_speed_mask == 0x3 * 2 ^ 10

abbrev pub dev_superspeed : ℕ → Bool
dev_superspeed p = bit_and p dev_speed_mask == 0x4 * 2 ^ 10

-- The state of the link.
abbrev pub pls : ℕ → ℕ
pls p = bit_and p port_pls_mask

-- `XHCI_PORT_RO` and `XHCI_PORT_RWS`
abbrev pub xhci_port_ro : ℕ
xhci_port_ro = 2 ^ 0 + 2 ^ 3 + 0xf * 2 ^ 10 + 2 ^ 30

abbrev pub xhci_port_rws : ℕ
xhci_port_rws = 0xf * 2 ^ 5 + 2 ^ 9 + 0x3 * 2 ^ 14 + 0x7 * 2 ^ 25

-- `ehub_xhci_port_state_to_neutral`
unfoldable pub port_state_to_neutral : ℕ → ℕ
port_state_to_neutral state = bit_or (bit_and state xhci_port_ro) (bit_and state xhci_port_rws)

-- `time_after_eq( a, b )` and `time_after( a, b )` on 64-bit jiffies.
abbrev pub time_after_eq : ℕ → ℕ → Bool
time_after_eq a b = not (leb (2 ^ 63) ((a + 2 ^ 64 - b % 2 ^ 64) % 2 ^ 64))

abbrev pub time_after : ℕ → ℕ → Bool
time_after a b = leb (2 ^ 63) ((b + 2 ^ 64 - a % 2 ^ 64) % 2 ^ 64)

abbrev pub log : Access → Hub → Hub
log a h = record h { log = a ∷ h.log }

abbrev pub on_bus : (BusState → BusState) → Hub → Hub
on_bus f h = record h { bus = f h.bus }

-- `xhci_readl` of a port's register.
unfoldable pub readl : Host → ℕ → Hub → Hub × ℕ
readl o address h =
    let (d, value) = ehub_xhci_readl o.kernel o.first o.second address h.device in
    (log (read_port address value) (record h { device = d }), value)

-- `xhci_writel`
unfoldable pub writel : Host → ℕ → ℕ → Hub → Hub
writel o value address h =
    log (write_port address value)
      (record h { device = ehub_xhci_writel o.kernel o.meanwhile value address h.device })

-- A sleep, outside of the lock: `ehub_xhci_reg_unlock_irqrestore`, `msleep` and
-- `ehub_xhci_reg_lock_irqsave`.
unfoldable pub sleep_unlocked : Host → ℕ → Hub → Hub
sleep_unlocked o n h = log reg_lock (on_bus o.others (log (msleep n) (log reg_unlock h)))

-- `ehub_xhci_set_link_state`
unfoldable pub set_link_state : Host → ℕ → ℕ → Hub → Hub
set_link_state o address link_state h =
    let (h₁, temp) = readl o address h in
    let cleared = without port_pls_mask (port_state_to_neutral temp) in
    writel o (bit_or cleared (bit_or port_link_strobe link_state)) address h₁

-- One bit of the wake mask.
abbrev pub wake_bit : Bool → ℕ → ℕ → ℕ
wake_bit wanted enable temp = if wanted then bit_or temp enable else without enable temp

-- `xhci_set_remote_wake_mask`
unfoldable pub set_remote_wake_mask : Host → ℕ → ℕ → Hub → Hub
set_remote_wake_mask o address wake_mask h =
    let (h₁, temp) = readl o address h in
    let t₁ = wake_bit (has (2 ^ 8) wake_mask) port_wkconn_e (port_state_to_neutral temp) in
    let t₂ = wake_bit (has (2 ^ 9) wake_mask) port_wkdisc_e t₁ in
    writel o (wake_bit (has (2 ^ 10) wake_mask) port_wkoc_e t₂) address h₁

-- `ehub_xhci_test_and_clear_bit`
unfoldable pub test_and_clear_bit : Host → ℕ → ℕ → Hub → Hub
test_and_clear_bit o address port_bit h =
    let (h₁, temp) = readl o address h in
    if has port_bit temp
    then writel o (bit_or (port_state_to_neutral temp) port_bit) address h₁
    else h₁

-- `xhci_disable_port`
unfoldable pub disable_port : Host → Hcd → ℕ → ℕ → Hub → Hub
disable_port o c address port_status h =
    if c.usb3 then h else (readl o address (writel o (bit_or port_status port_pe) address h)).0

-- The numbers of the port features (USB 2.0 and 3.0 specifications, ch11.h).
abbrev pub c_connection : ℕ
c_connection = 16

abbrev pub c_enable : ℕ
c_enable = 17

abbrev pub c_suspend : ℕ
c_suspend = 18

abbrev pub c_over_current : ℕ
c_over_current = 19

abbrev pub c_reset : ℕ
c_reset = 20

abbrev pub c_port_link_state : ℕ
c_port_link_state = 25

abbrev pub c_port_config_error : ℕ
c_port_config_error = 26

abbrev pub c_bh_port_reset : ℕ
c_bh_port_reset = 29

-- The bit of PORTSC that a change feature stands for.
unfoldable pub change_bit_of : ℕ → Option ℕ
change_bit_of feature =
    if feature == c_reset
    then some port_rc
    else if feature == c_bh_port_reset
    then some port_wrc
    else if feature == c_connection
    then some port_csc
    else if feature == c_over_current
    then some port_occ
    else if feature == c_enable
    then some port_pec
    else if feature == c_suspend
    then some port_plc
    else if feature == c_port_link_state
    then some port_plc
    else if feature == c_port_config_error
    then some port_cec
    else none

-- `xhci_clear_port_change_bit`
unfoldable pub clear_port_change_bit : Host → ℕ → ℕ → ℕ → Hub → Hub
clear_port_change_bit o feature address port_status h = elim (change_bit_of feature) [
  | none ↦ h
  | some status ↦ (readl o address (writel o (bit_or port_status status) address h)).0
]
