-- ===== src/Tests/Hubs.antt =====
-- The theorems on root hubs, applied to a USB 3.0 hub of four ports.
use fl.Hub.Slot.{
  stop_unlocked, stop_device, stop_loop, stop_finish, find_slot_id_by_port, find_slot_loop,
}
use fl.Base.Bytes.{overwrite}
use fl.Hub.Status.{
  get_port_status, report_resume, report_link, leave_suspend, report_state, report_usb3_link_state,
  del_comp_mod_timer, port_change, port_speed,
}
use fl.Notification.{notification_wait}
use fl.Urb.{urb_submit}
use fl.Hub.Power.{bus_suspend, bus_resume}
use fl.Base.Int.{pos}
use fl.Hub.Poll.{hub_status_data}
use fl.Base.Bits.{bit_at}
use fl.Register.{
  ehub_xhci_readl, embedded_register_read, read_with, read_request, read_response, write_buffer,
  ehub_xhci_writel, embedded_register_write, write_with, write_request,
}
use fl.Tests.{device, working}
use fl.Base.{ℕ, true, false, some, none, ◌∷◌, [], refl, ◌≡◌, if◌then◌else◌, ◌==◌, arith, ◌+◌, ◌*◌}
use fl.Device.{Device, error_check, xhci_is_dying_safe}
use fl.Hub.{
  Hub, Host, Hcd, BusState, VirtEp, readl, log, reg_lock, change_bit_of, c_connection, reg_unlock,
  read_port, write_port, clear_port_change_bit, set_link_state, port_state_to_neutral,
  sleep_unlocked, writel,
}
use fl.Hub.Control.{
  hub_control, clear_port_feature_request, set_port_feature_request, get_port_status_request,
  feat_suspend, request, port_status, clear_port_feature, set_port_feature, set_feature,
  clear_feature, set_suspend, clear_change, suspend_to_u3,
}
use fl.Hub.Locks.{Holds, free, held}
use fl.Hub.Whole.{entries-Holds}
use fl.Hub.Clear.{clear_port_feature_lem, writes}
use fl.Hub.Neutral.{port_bit_after}

-- A connection change on an enabled port with power, at SuperSpeed.
abbrev portsc : ℕ
portsc = 0x21203

abbrev hub_device : Device
hub_device = record device { data_embedded_register_read = portsc }

abbrev bus : BusState
bus = record {
  bus_suspended = 0;
  next_statechange = 0;
  port_c_suspend = 0;
  suspended_ports = 0;
  resume_done = λ i. 0;
  resuming_ports = 0;
  rexit_ports = 0;
}

abbrev hub : Hub
hub = record {
  device = hub_device;
  bus = bus;
  port_status_u0 = 0;
  poll_rh = true;
  suspended = false;
  log = [];
}

abbrev virt_ep : VirtEp
virt_ep = record { has_streams = false; num_streams = 0; ready = true }

abbrev hcd : Hcd
hcd = record {
  usb3 = true;
  max_ports = 4;
  port_array = λ i. 0x420 + 16 * i;
  command = 0x20;
  do_remote_wakeup = true;
  comp_mode_quirk = false;
  lpm_support = true;
  hcs_params3 = 0x7_0004;
  hcc_params = 0x48;
  num_usb3_ports = 4;
  usb2_port_removable = λ i. false;
  devs = λ slot.
      if slot == 1
      then some (record { super_speed = true; fake_port = 1; eps = λ i. virt_ep })
      else none;
}

abbrev host : Host
host = record {
  kernel = working;
  first = λ d. d;
  second = λ d. d;
  meanwhile = λ d. d;
  others = λ b. b;
  jiffies = λ log. 100;
  time_left = λ log. 7;
  allocates = λ log. true;
  command_fails = λ log. false;
  power_manageable = λ log. true;
  hw_accessible = true;
}

hub_starts_free : Holds free hub
unfolding held
hub_starts_free = refl

entries_example :
    Holds free (hub_control host hcd clear_port_feature_request c_connection 1 0 hub).0
    × Holds free (hub_status_data host hcd hub).0
    × Holds free (bus_suspend host hcd hub).0
    × Holds free (bus_resume host hcd hub).0
entries_example =
    entries-Holds host hcd clear_port_feature_request c_connection 1 0 hub hub_starts_free

port_is_read : (readl host 0x420 (log reg_lock hub)).1 ≡ portsc
unfolding readl ehub_xhci_readl embedded_register_read read_with read_request read_response
    urb_submit error_check write_buffer notification_wait
port_is_read = refl

clear_port_feature_example :
    let r = hub_control host hcd clear_port_feature_request c_connection 1 0 hub in
    (value : ℕ) × (r.1 ≡ pos 0)
    × (writes r.0.log ≡ (0x420, value) ∷ [])
    × (port_bit_after 17 portsc value ≡ 0)
unfolding writes bit_at
clear_port_feature_example =
    clear_port_feature_lem host hcd c_connection 1 0 portsc 17 17 hub (omega arith) (omega arith)
      refl port_is_read (omega arith) (omega arith)

-- The requests do what a trace of the code by hand gives.
clear_trace :
    (hub_control host hcd clear_port_feature_request c_connection 1 0 hub).0.log
    ≡ reg_unlock
      ∷ read_port 0x420 portsc
      ∷ write_port 0x420 0x21201
      ∷ read_port 0x420 portsc
      ∷ reg_lock
      ∷ []
unfolding hub_control request clear_port_feature clear_feature clear_change clear_port_change_bit
    change_bit_of port_state_to_neutral readl ehub_xhci_readl embedded_register_read read_with
    read_request read_response urb_submit error_check xhci_is_dying_safe write_buffer
    notification_wait overwrite writel ehub_xhci_writel embedded_register_write write_with
    write_request
clear_trace = refl

suspend_trace : (hub_control host hcd set_port_feature_request feat_suspend 1 0 hub).1 ≡ pos 0
unfolding hub_control request set_port_feature set_feature set_suspend suspend_to_u3 set_link_state
    sleep_unlocked stop_unlocked stop_device stop_loop stop_finish find_slot_id_by_port
    find_slot_loop port_state_to_neutral readl ehub_xhci_readl embedded_register_read read_with
    read_request read_response urb_submit error_check xhci_is_dying_safe write_buffer
    notification_wait overwrite writel ehub_xhci_writel embedded_register_write write_with
    write_request
suspend_trace = refl

status_bytes :
    (hub_control host hcd get_port_status_request 0 1 4 hub).2 ≡ 0x03 ∷ 0x02 ∷ 0x01 ∷ 0x00 ∷ []
unfolding hub_control request port_status get_port_status report_resume report_link leave_suspend
    report_state report_usb3_link_state del_comp_mod_timer port_change port_speed readl
    ehub_xhci_readl embedded_register_read read_with read_request read_response urb_submit
    error_check xhci_is_dying_safe write_buffer notification_wait overwrite writel ehub_xhci_writel
    embedded_register_write write_with write_request
status_bytes = refl
