-- ===== src/Core/Schedule.antt =====
-- The estimate of the bandwidth that the periodic endpoints of a table need (xhci.c).
use fl.Base.{
  ℕ, zero, suc, ◌+◌, ◌-◌, ◌*◌, ◌/◌, ◌%◌, ◌^◌, not, ◌&&◌, [], ◌∷◌, Option, none, some, if◌then◌else◌,
  ◌==◌, ltb,
}
use fl.Base.Int.{ℤ, pos, enomem, negsuc}
use fl.Core.{u32, div_round_up}
use fl.Core.Bandwidth.{
  Speed, Table, BwDevice, get_block_size, get_largest_overhead, is_super, is_high,
}

-- `HS_BW_LIMIT` and `FS_BW_LIMIT`, and of them the part that is reserved, in percent.
abbrev pub max_bandwidth : Speed → ℕ
max_bandwidth speed = if is_high speed then 1607 else 1285

abbrev pub bw_reserved : Speed → ℕ
bw_reserved speed =
    if is_high speed then div_round_up (20 * 1607) 100 else div_round_up (10 * 1285) 100

-- `xhci_check_tt_bw_table`: a TT that becomes active must fit on the bus of its root port.
unfoldable pub check_tt_bw_table : ℕ → Table → ℤ
check_tt_bw_table old_active_eps t =
    if not (old_active_eps == 0)
    then pos 0
    else if not (t.active_eps == 0) && ltb 1607 (u32 (t.root_bw_used + 125))
    then enomem
    else pos 0

-- `xhci_check_ss_bw`
unfoldable pub check_ss_bw : Table → ℤ
check_ss_bw t =
    let reserved = div_round_up (10 * 3906) 100 in
    if ltb (3906 - reserved) t.ss_bw_in
    then enomem
    else if ltb (3906 - reserved) t.ss_bw_out
    then enomem
    else pos 0

-- What the loop over the intervals carries: the size and overhead of the packets that are left over,
-- their number, and the bandwidth so far.
pub record Plan : Type 0 where
  pub packet_size : ℕ
  pub overhead : ℕ
  pub packets_remaining : ℕ
  pub bw_used : ℕ

-- The largest packet of an interval, in blocks: that of its first endpoint.
unfoldable pub largest_mps : Table → ℕ → ℕ → ℕ
largest_mps t block_size i = elim (t.interval_bw i).endpoints [
  | [] ↦ 0
  | ep ∷ _ ↦ div_round_up (t.bw_info ep).max_packet_size block_size
]

abbrev pub larger : ℕ → ℕ → ℕ
larger a b = if ltb b a then a else b

-- One interval: as many packets as go evenly into its 2 ^ (i + 1) microframes are scheduled, and the rest
-- is left over.
unfoldable pub plan_interval : Table → ℕ → ℕ → Plan → Plan
plan_interval t block_size i p =
    let packets = u32 (2 * p.packets_remaining + (t.interval_bw i).num_packets) in
    let mps = largest_mps t block_size i in
    let own_overhead = get_largest_overhead (t.interval_bw i) in
    let packet_size = larger mps p.packet_size in
    let overhead = larger own_overhead p.overhead in
    let transmitted = packets / 2 ^ (i + 1) in
    let remaining = packets % 2 ^ (i + 1) in
    let renewed = not (transmitted == 0) in
    record {
      packet_size = if remaining == 0 then 0 else if renewed then mps else packet_size;
      overhead = if remaining == 0 then 0 else if renewed then own_overhead else overhead;
      packets_remaining = remaining;
      bw_used = u32 (p.bw_used + transmitted * (overhead + packet_size));
    }

-- The intervals from `i` on, of which `left` are left; `none` where they need too much.
unfoldable pub plan_loop : Table → ℕ → ℕ → ℕ → ℕ → Plan → Option Plan
plan_loop t block_size limit i zero p = some p
plan_loop t block_size limit i (suc left) p =
    let next = plan_interval t block_size i p in
    let rest = plan_loop t block_size limit (suc i) left next in
    if ltb limit next.bw_used then none else rest

-- Interval 0: all its payload, and the overhead of its packets, in each microframe.
unfoldable pub plan_start : Table → ℕ → Plan
plan_start t block_size = record {
  packet_size = 0;
  overhead = 0;
  packets_remaining = 0;
  bw_used = u32 (
      div_round_up t.interval0_esit_payload block_size
      + (t.interval_bw 0).num_packets * get_largest_overhead (t.interval_bw 0));
}

-- The end: what is left over counts for every microframe; the active TTs of a root port, for a
-- high-speed device on it; and the reserved part.
unfoldable pub plan_total : BwDevice → Table → Plan → ℕ
plan_total v t p =
    let b₁ =
      if p.packets_remaining == 0
      then p.bw_used
      else u32 (p.bw_used + p.overhead + p.packet_size) in
    let b₂ = if not v.has_tt && is_high v.speed then u32 (b₁ + 125 * t.num_active_tts) else b₁ in
    u32 (b₂ + bw_reserved v.speed)

-- `xhci_check_bw_table` of a device that is not SuperSpeed, behind the check of its TT.
unfoldable pub check_intervals : BwDevice → Table → Table × ℤ
check_intervals v t =
    let block_size = get_block_size v.speed in
    let limit = max_bandwidth v.speed in
    elim (plan_loop t block_size limit 1 15 (plan_start t block_size)) [
      | none ↦ (t, enomem)
      | some p ↦
          let total = plan_total v t p in
          if ltb limit total then (t, enomem) else (record t { bw_used = total }, pos 0)
    ]

-- `xhci_check_bw_table`
unfoldable pub check_bw_table : BwDevice → ℕ → Table → Table × ℤ
check_bw_table v old_active_eps t =
    let tt = check_tt_bw_table old_active_eps t in
    if is_super v.speed
    then (t, check_ss_bw t)
    else if v.has_tt
    then elim tt [ pos _ ↦ check_intervals v t | negsuc _ ↦ (t, enomem) ]
    else check_intervals v t
