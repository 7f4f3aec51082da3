-- ===== src/Core/Reserve.antt =====
-- `xhci_reserve_bandwidth` (xhci.c), and `ehub_xhci_update_bw_info` (xhci-mem.c).
use fl.Base.{ℕ, zero, suc, ◌+◌, ◌/◌, ◌%◌, ◌^◌, not, ◌&&◌, if◌then◌else◌, ◌==◌}
use fl.Base.Int.{ℤ, pos, negsuc, enomem}
use fl.Core.{ControlCtx, ep_is_added, ep_is_dropped}
use fl.Core.Bandwidth.{
  Table, BwInfo, BwDevice, ep_number, is_async_ep, drop_ep_from_interval_table,
  add_ep_to_interval_table, update_tt_active_eps,
}
use fl.Core.Schedule.{check_bw_table}

-- `struct xhci_ep_ctx`, without the dequeue pointer.
pub record EpCtx : Type 0 where
  pub ep_info : ℕ
  pub ep_info2 : ℕ
  pub tx_info : ℕ

abbrev pub set_info : ℕ → BwInfo → Table → Table
set_info ep b t = record t { bw_info = λ e. if e == ep then b else t.bw_info e }

-- `ehub_xhci_clear_endpoint_bw_info`
abbrev pub no_info : BwInfo
no_info = record {
  ep_interval = 0;
  mult = 0;
  num_packets = 0;
  max_packet_size = 0;
  max_esit_payload = 0;
  type = 0;
}

-- The information in an endpoint context (the `CTX_TO_` macros of xhci.h).
unfoldable pub info_of : EpCtx → BwInfo
info_of c = record {
  ep_interval = (c.ep_info / 2 ^ 16) % 256;
  mult = (c.ep_info / 2 ^ 8) % 4 + 1;
  num_packets = (c.ep_info2 / 2 ^ 8) % 256 + 1;
  max_packet_size = (c.ep_info2 / 2 ^ 16) % 65536;
  max_esit_payload = (c.tx_info / 2 ^ 16) % 65536;
  type = (c.ep_info2 / 2 ^ 3) % 8;
}

-- One endpoint of `ehub_xhci_update_bw_info`.
unfoldable pub update_one : BwDevice → (ℕ → EpCtx) → ControlCtx → ℕ → Table → Table
update_one v in_ctx c i t =
    let b = info_of (in_ctx i) in
    if not (ep_is_added c i) && ep_is_dropped c i
    then set_info (ep_number v i) no_info t
    else if ep_is_added c i
    then if is_async_ep b.type then t else set_info (ep_number v i) b t
    else t

-- The endpoints from `i` on, of which `left` are left, are changed one after the other.
unfoldable pub each : (ℕ → Table → Table) → ℕ → ℕ → Table → Table
each change i zero t = t
each change i (suc left) t = each change (suc i) left (change i t)

-- `ehub_xhci_update_bw_info`
unfoldable pub update_bw_info : BwDevice → (ℕ → EpCtx) → ControlCtx → Table → Table
update_bw_info v in_ctx c t = each (update_one v in_ctx c) 1 30 t

-- The bodies of the three loops of `xhci_reserve_bandwidth`. `saved` is the information of before.
abbrev pub drop_old : BwDevice → ControlCtx → ℕ → Table → Table
drop_old v c i t = if ep_is_dropped c i then drop_ep_from_interval_table v (ep_number v i) t else t

abbrev pub add_new : BwDevice → ControlCtx → ℕ → Table → Table
add_new v c i t = if ep_is_added c i then add_ep_to_interval_table v (ep_number v i) t else t

unfoldable pub revert : BwDevice → ControlCtx → (ℕ → BwInfo) → ℕ → Table → Table
revert v c saved i t =
    let ep = ep_number v i in
    let t₁ = if ep_is_added c i then drop_ep_from_interval_table v ep t else t in
    let t₂ = set_info ep (saved ep) t₁ in
    if not (ep_is_added c i) && not (ep_is_dropped c i)
    then t
    else if ep_is_dropped c i
    then add_ep_to_interval_table v ep t₂
    else t₂

-- The table with what is dropped taken out, and what is added put in.
unfoldable pub exchange : BwDevice → (ℕ → EpCtx) → ControlCtx → Table → Table
exchange v in_ctx c t =
    let dropped = each (drop_old v c) 0 31 t in
    each (add_new v c) 0 31 (update_bw_info v in_ctx c dropped)

-- `xhci_reserve_bandwidth` of a context of the right type. `in_ctx` is that of the device.
unfoldable pub reserve_bandwidth : BwDevice → (ℕ → EpCtx) → ControlCtx → Table → Table × ℤ
reserve_bandwidth v in_ctx c t =
    let old_active_eps = if v.has_tt then t.active_eps else 0 in
    let (t₁, status) = check_bw_table v old_active_eps (exchange v in_ctx c t) in
    elim status [
      | pos zero ↦ (update_tt_active_eps v old_active_eps t₁, pos 0)
      | pos (suc _) ↦ (each (revert v c t.bw_info) 0 31 t₁, enomem)
      | negsuc _ ↦ (each (revert v c t.bw_info) 0 31 t₁, enomem)
    ]
