-- ===== src/Tests/Endpoints.antt =====
-- The theorem on the configuration of endpoints, applied to a device of high speed.
use fl.Core.Schedule.{
  check_bw_table, check_intervals, plan_loop, plan_interval, plan_start, plan_total, largest_mps,
}
use fl.Base.Chain.{remove}
use fl.Core.Count.{sum_below}
use fl.Base.{
  ℕ, Bool, true, false, some, [], refl, ◌≡◌, ◌+◌, if◌then◌else◌, ◌==◌, ◌||◌, arith, not, ◌&&◌,
}
use fl.Base.Bits.{every, every-at, bit_at}
use fl.Base.Int.{pos, eqb_ℤ, enomem}
use fl.Core.{ControlCtx, weight}
use fl.Core.Bandwidth.{
  high, IntervalBw, Table, BwDevice, drop_ep_from_interval_table, add_ep_to_interval_table,
  is_async_ep, normalized, change_counts, enlist, unlist, insert_by_size, get_largest_overhead,
  get_block_size, update_tt_active_eps,
}
use fl.Core.Reserve.{
  EpCtx, no_info, reserve_bandwidth, exchange, each, update_bw_info, update_one, info_of, revert,
}
use fl.Core.Configure.{
  Resources, Answers, Command, configure_endpoint, reserve, reserve_host_resources,
  count_num_new_endpoints, count_num_dropped_endpoints, run_command, settle,
  finish_resource_reservation, configure_endpoint_result, stop_idle_isoch,
}
use fl.Core.Active.{IsChange, added, dropped, size, configured, configure_endpoint_lem}

-- Endpoint 1 OUT, with index 1, is dropped; 1 IN, with index 2, is added.
abbrev flags : ControlCtx
flags = record { drop_flags = 0x4; add_flags = 0x8 }

abbrev enabled : ℕ → Bool
enabled k = k == 0

abbrev interval : IntervalBw
interval = record {
  num_packets = 0;
  endpoints = [];
  ls_overhead = 0;
  fs_overhead = 0;
  hs_overhead = 0;
}

abbrev table : Table
table = record {
  interval0_esit_payload = 0;
  interval_bw = λ i. interval;
  bw_used = 0;
  ss_bw_in = 0;
  ss_bw_out = 0;
  bw_info = λ ep. no_info;
  listed = λ ep. false;
  active_eps = 0;
  num_active_tts = 0;
  root_bw_used = 0;
  out_of_table = false;
}

abbrev pub resources : Resources
resources = record {
  ep_limit_quirk = true;
  sw_bw_checking = true;
  num_active_eps = 3 + 1;
  limit_active_eps = 64;
  table = table;
  isoch_in_running = true;
  num_active_isoc_eps = 0;
  stop_isoch_queued = false;
}

abbrev pub answers : Answers
answers = record { queued = pos 0; code = 1; meanwhile = λ y. y }

abbrev pub usb_device : BwDevice
usb_device = record { speed = high; slot = 1; has_tt = false }

-- An interrupt endpoint, each 8 microframes, of 64 bytes.
abbrev pub in_ctx : ℕ → EpCtx
in_ctx i = record { ep_info = 0x3_0000; ep_info2 = 0x40_0038; tx_info = 0x40_0000 }

abbrev is_change_at : ℕ → Bool
is_change_at k =
    (not (dropped flags k) || enabled k)
    && (not (added flags k) || not (enabled k) || dropped flags k)

is_change_table : every 32 is_change_at ≡ true
unfolding every bit_at
is_change_table = refl

is_change : IsChange flags enabled
is_change = record {
  drops_enabled = λ k lt e. ground (arith, every-at is_change_at k 32 lt is_change_table);
  adds_new = λ k lt e f. ground (arith, every-at is_change_at k 32 lt is_change_table);
}

one_enabled : 3 + 1 ≡ 3 + size enabled
unfolding sum_below
one_enabled = refl

configure_endpoint_example :
    let command : Command = record { ctrl_ctx = some flags; ctx_change = false } in
    let r = configure_endpoint answers usb_device in_ctx (some command) resources in
    r.0.num_active_eps
    ≡ 3 + (if eqb_ℤ r.1 (pos 0) then size (configured flags enabled) else size enabled)
configure_endpoint_example =
    configure_endpoint_lem answers usb_device in_ctx flags false resources enabled 3 refl is_change
      one_enabled (omega arith) (λ y. refl) (λ y. refl)

-- The bandwidth of that endpoint, and the count.
configure_run :
    let command : Command = record { ctrl_ctx = some flags; ctx_change = false } in
    let r = configure_endpoint answers usb_device in_ctx (some command) resources in
    (r.0.num_active_eps ≡ 4) × (r.1 ≡ pos 0) × (r.0.table.listed 33 ≡ true)
unfolding configure_endpoint reserve reserve_host_resources count_num_new_endpoints
    count_num_dropped_endpoints run_command stop_idle_isoch settle finish_resource_reservation
    configure_endpoint_result weight reserve_bandwidth exchange each update_bw_info update_one
    info_of drop_ep_from_interval_table add_ep_to_interval_table is_async_ep normalized
    change_counts enlist unlist insert_by_size revert remove check_bw_table check_intervals
    plan_loop plan_interval plan_start plan_total largest_mps get_largest_overhead get_block_size
    update_tt_active_eps
configure_run = (refl, refl, refl)

-- With too many packets the reservation is taken back.
abbrev heavy : ℕ → EpCtx
heavy i = record { ep_info = 0x0_0000; ep_info2 = 0x400_2728; tx_info = 0xf000_0000 }

no_bandwidth :
    let r = reserve_bandwidth usb_device heavy flags table in
    (r.1 ≡ enomem) × (r.0.listed 33 ≡ false) × (r.0.interval0_esit_payload ≡ 0)
unfolding reserve_bandwidth exchange each update_bw_info update_one info_of
    drop_ep_from_interval_table add_ep_to_interval_table is_async_ep normalized change_counts enlist
    unlist insert_by_size revert remove check_bw_table check_intervals plan_loop plan_interval
    plan_start plan_total largest_mps get_largest_overhead get_block_size update_tt_active_eps
no_bandwidth = (refl, refl, refl)
