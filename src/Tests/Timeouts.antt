-- ===== src/Tests/Timeouts.antt =====
-- Timeouts of links that xhci.c computes, on a small device.
use fl.Tests.Endpoints.{resources, answers, usb_device, in_ctx}
use fl.Core.Latency.{
  Links, enable_usb3_lpm_timeout, disable_usb3_lpm_timeout, change_max_exit_latency, set_latency,
  xhci_lpm_support,
}
use fl.Core.Configure.{
  configure_endpoint, reserve, run_command, settle, evaluate_context_result, stop_idle_isoch,
}
use fl.Core.Reserve.{reserve_bandwidth}
use fl.Base.Int.{pos}
use fl.Base.{◌∷◌, some, none, false, ◌≡◌, [], refl}
use fl.Core.Lpm.{
  u1, EndpointDesc, UsbInterface, LpmParams, UsbDevice, root_hub, below, xhci_intel_host,
  calculate_lpm_timeout, find_timeout, calculate_max_exit_latency, visit_interfaces,
  check_tier_policy, check_intel_tier_policy, update_timeout_for_interface,
  update_timeout_for_endpoint, count_hubs, call_host_update_timeout_for_endpoint,
  calculate_u1_timeout, calculate_intel_u1_timeout,
}
use fl.Core.Largest.{Found, all_agree, largest, all_endpoints, calculate_lpm_timeout_lem}

abbrev control : EndpointDesc
control = record { attributes = 0; interval = 0 }

abbrev bulk : EndpointDesc
bulk = record { attributes = 2; interval = 0 }

abbrev params : LpmParams
params = record { mel = 2500; pel = 1000; sel = 1000; timeout = 0 }

abbrev storage : UsbInterface
storage = record { driver = some false; cur_altsetting = some (bulk ∷ bulk ∷ []) }

abbrev disk : UsbDevice
disk = record {
  parent = below root_hub;
  u1_params = params;
  u2_params = params;
  u2_dev_exit_lat = 2;
  ep0 = control;
  actconfig = some (none ∷ some storage ∷ []);
}

calculate_lpm_timeout_example :
    Found xhci_intel_host disk u1
      (all_agree xhci_intel_host disk u1)
      (largest xhci_intel_host disk u1 0
        (control ∷ all_endpoints xhci_intel_host disk u1 (none ∷ some storage ∷ [])))
      (calculate_lpm_timeout xhci_intel_host disk u1)
calculate_lpm_timeout_example = calculate_lpm_timeout_lem xhci_intel_host disk u1

disk_lem : calculate_lpm_timeout xhci_intel_host disk u1 ≡ 5
unfolding calculate_lpm_timeout find_timeout visit_interfaces update_timeout_for_interface
    update_timeout_for_endpoint call_host_update_timeout_for_endpoint calculate_u1_timeout
    calculate_intel_u1_timeout check_tier_policy check_intel_tier_policy count_hubs
disk_lem = refl

lowered_lem :
    calculate_lpm_timeout xhci_intel_host (record disk { parent = below (below root_hub) }) u1 ≡ 0
unfolding calculate_lpm_timeout find_timeout check_tier_policy check_intel_tier_policy count_hubs
lowered_lem = refl

latency_lem : calculate_max_exit_latency disk u1 5 ≡ pos 3
unfolding calculate_max_exit_latency
latency_lem = refl

-- A U2 latency of 70 ms, and the resources of a controller that counts nothing.
abbrev slow : UsbDevice
slow = record disk { u2_params = record { mel = 70000000; pel = 1000; sel = 1000; timeout = 5 } }

abbrev links : Links
links = record {
  resources = record resources { ep_limit_quirk = false; sw_bw_checking = false };
  ctrl_ctx = some (record { drop_flags = 0; add_flags = 0 });
  in_slot = record { dev_info2 = 0; dev_state = 0 };
  out_slot = record { dev_info2 = 0x10000; dev_state = 0 };
  current_mel = some 0;
}

-- When U1 is enabled the latency of U2 is too long, and nothing is enabled.
enabled_lem :
    (enable_usb3_lpm_timeout answers usb_device in_ctx xhci_lpm_support slow u1 links).1 ≡ pos 0
unfolding enable_usb3_lpm_timeout change_max_exit_latency calculate_max_exit_latency
    calculate_lpm_timeout find_timeout check_tier_policy update_timeout_for_endpoint
    call_host_update_timeout_for_endpoint calculate_u1_timeout visit_interfaces
    update_timeout_for_interface
enabled_lem = refl

-- When U1 is disabled, the error of that calculation is stored as a latency of 65529 microseconds.
disabled_lem :
    (disable_usb3_lpm_timeout answers usb_device in_ctx xhci_lpm_support slow u1 links).0.in_slot
    ≡ record { dev_info2 = 0x1fff9; dev_state = 0 }
unfolding disable_usb3_lpm_timeout change_max_exit_latency calculate_max_exit_latency set_latency
    configure_endpoint reserve run_command settle stop_idle_isoch reserve_bandwidth
    evaluate_context_result
disabled_lem = refl
