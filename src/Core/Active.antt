-- ===== src/Core/Active.antt =====
-- The count of active endpoints across a configuration (xhci.c).
use fl.Base.Int.{eqb_ℤ, pos, ℤ, negsuc, is_neg}
use fl.Core.Reserve.{EpCtx}
use fl.Core.Bandwidth.{BwDevice}
use fl.Base.{
  ℕ, ◌+◌, ◌/◌, ◌<◌, ◌≤◌, ◌≡◌, Bool, true, not, ◌&&◌, ◌||◌, arith, if◌then◌else◌, ◌==◌, ◌⊎◌,
  Bool-cases, inl, inr, ◌^◌, ◌-◌, suc, ◌∙◌, zero, some,
}
use Prim.Native.Nat.{bit_and}
use fl.Base.Bits.{bit_at, bit_at-lt}
use fl.Core.{ControlCtx, hweight32}
use fl.Core.Count.{sum_below, sum_below-add, sum_below-bound, weight-sum_below, weight-bit_and}
use fl.Core.Configure.{
  Resources, count_num_new_endpoints, count_num_dropped_endpoints, reserve, run_command, settle,
  reserve_host_resources, free_host_resources, finish_resource_reservation, Answers,
  evaluate_context_result, configure_endpoint_result, configure_endpoint, Command, stop_idle_isoch,
}

-- Endpoints of a device as a set: number `k` is the one with bit `k + 2` in the flags.
abbrev pub added : ControlCtx → ℕ → Bool
added c k = bit_at k (c.add_flags / 4) == 1

abbrev pub dropped : ControlCtx → ℕ → Bool
dropped c k = bit_at k (c.drop_flags / 4) == 1

abbrev pub one_if : Bool → ℕ
one_if b = if b then 1 else 0

-- How many endpoints are in a set.
abbrev pub size : (ℕ → Bool) → ℕ
size enabled = sum_below 32 (λ k. one_if (enabled k))

-- What the device has enabled once a configuration has succeeded.
abbrev pub configured : ControlCtx → (ℕ → Bool) → ℕ → Bool
configured c enabled k = added c k || enabled k && not (dropped c k)

-- Only what is enabled is dropped, and what is enabled is not added unless it is dropped too.
pub record IsChange (c : ControlCtx) (enabled : ℕ → Bool) : Type 0 where
  pub drops_enabled : (k : ℕ) → k < 32 → dropped c k ≡ true → enabled k ≡ true
  pub adds_new : (k : ℕ) → k < 32 → added c k ≡ true → enabled k ≡ true → dropped c k ≡ true

-- A bit is that of a test.
bit_cases : (w k : ℕ) → (bit_at k w ≡ 0) ⊎ (bit_at k w ≡ 1)
bit_cases w k = elim (Bool-cases (bit_at k w == 0)) [
  | inl e ↦ inl (ground arith)
  | inr e ↦ inr (ground (arith, bit_at-lt k w))
]

configured_one :
    (c : ControlCtx) (enabled : ℕ → Bool) (k : ℕ)
    → IsChange c enabled
    → k < 32
    → one_if (configured c enabled k) + bit_at k (c.drop_flags / 4)
      ≡ one_if (enabled k) + bit_at k (c.add_flags / 4)
configured_one c enabled k change lt = ground (
  arith,
  bit_cases (c.add_flags / 4) k,
  bit_cases (c.drop_flags / 4) k,
  change.drops_enabled k lt,
  change.adds_new k lt,
)

-- What is enabled after, and what is dropped, are what was enabled and what is added.
size-configured :
    (c : ControlCtx) (enabled : ℕ → Bool)
    → IsChange c enabled
    → size (configured c enabled) + hweight32 (c.drop_flags / 4)
      ≡ size enabled + hweight32 (c.add_flags / 4)
size-configured c enabled change =
    let sums =
      sum_below-add 32 (λ k. one_if (configured c enabled k)) (λ k. bit_at k (c.drop_flags / 4))
        (λ k. one_if (enabled k)) (λ k. bit_at k (c.add_flags / 4))
        (λ k lt. configured_one c enabled k change lt) in
    omega
      (arith, sums, weight-sum_below 32 (c.drop_flags / 4), weight-sum_below 32 (c.add_flags / 4))

pub size-bound : (enabled : ℕ → Bool) → size enabled ≤ 32
size-bound enabled = sum_below-bound 32 (λ k. one_if (enabled k)) (λ k. ground arith)

weight-bound : (w : ℕ) → hweight32 w ≤ 32
weight-bound w = omega (
  arith,
  weight-sum_below 32 w,
  sum_below-bound 32 (λ k. bit_at k w) (λ k. omega (arith, bit_at-lt k w)),
)

-- The three changes of the count, where it is small enough not to wrap.
module _ (c : ControlCtx) (x : Resources) where
  counts_new :
      count_num_new_endpoints c + hweight32 (bit_and (c.add_flags / 4) (c.drop_flags / 4))
      ≡ hweight32 (c.add_flags / 4)
  unfolding count_num_new_endpoints
  counts_new = omega (
    arith,
    weight-bit_and 32 (c.add_flags / 4) (c.drop_flags / 4),
    weight-bound (c.add_flags / 4),
  )

  counts_dropped :
      count_num_dropped_endpoints c + hweight32 (bit_and (c.add_flags / 4) (c.drop_flags / 4))
      ≡ hweight32 (c.drop_flags / 4)
  unfolding count_num_dropped_endpoints
  counts_dropped = omega (
    arith,
    weight-bit_and 32 (c.add_flags / 4) (c.drop_flags / 4),
    weight-bound (c.drop_flags / 4),
  )

-- The reservations count what is new, or nothing.
reserve-num :
    (v : BwDevice) (in_ctx : ℕ → EpCtx) (c : ControlCtx) (x : Resources)
    → x.ep_limit_quirk ≡ true
    → x.num_active_eps ≤ 2 ^ 31 + 32
    → ((reserve v in_ctx c x).0.ep_limit_quirk ≡ true)
      × ((reserve v in_ctx c x).0.num_active_eps ≡ (
          if (reserve v in_ctx c x).1
          then x.num_active_eps + count_num_new_endpoints c
          else x.num_active_eps))
unfolding reserve reserve_host_resources free_host_resources
reserve-num v in_ctx c x q small =
    let new = counts_new c x in let bound = weight-bound (c.add_flags / 4) in ground arith

stop-num : (x : Resources) → (stop_idle_isoch x).num_active_eps ≡ x.num_active_eps
unfolding stop_idle_isoch
stop-num x = ground arith

stop-quirk : (x : Resources) → (stop_idle_isoch x).ep_limit_quirk ≡ x.ep_limit_quirk
unfolding stop_idle_isoch
stop-quirk x = ground arith

-- The end of a command, and a command as a whole, leave what is new, without what is dropped, or
-- nothing.
module _ (c : ControlCtx) (n : ℕ) (small : n ≤ 2 ^ 31 + 32)
    (le : count_num_dropped_endpoints c ≤ n + count_num_new_endpoints c) where
  abbrev left : ℤ → ℕ
  left status =
      if eqb_ℤ status (pos 0)
      then n + count_num_new_endpoints c - count_num_dropped_endpoints c
      else n

  settle-num :
      (status : ℤ) (y : Resources)
      → y.ep_limit_quirk ≡ true
      → y.num_active_eps ≡ n + count_num_new_endpoints c
      → (settle c status y).num_active_eps ≡ left status
  unfolding settle free_host_resources finish_resource_reservation
  settle-num (pos zero) y q e =
      let new = counts_new c y in let bound = weight-bound (c.add_flags / 4) in ground arith
  settle-num (pos (suc m)) y q e =
      let new = counts_new c y in let bound = weight-bound (c.add_flags / 4) in ground arith
  settle-num (negsuc m) y q e =
      let new = counts_new c y in let bound = weight-bound (c.add_flags / 4) in ground arith

  run_command-num :
      (a : Answers) (ctx_change : Bool) (x : Resources)
      → x.ep_limit_quirk ≡ true
      → x.num_active_eps ≡ n + count_num_new_endpoints c
      → ((y : Resources) → (a.meanwhile y).num_active_eps ≡ y.num_active_eps)
      → ((y : Resources) → (a.meanwhile y).ep_limit_quirk ≡ y.ep_limit_quirk)
      → (run_command a ctx_change c x).0.num_active_eps ≡ left (run_command a ctx_change c x).1
  unfolding run_command free_host_resources
  run_command-num a ctx_change x q e keeps same =
      let status =
        if ctx_change then evaluate_context_result a.code else configure_endpoint_result a.code in
      let settled =
        settle-num status (stop_idle_isoch (a.meanwhile x))
          (stop-quirk (a.meanwhile x) ∙ same x ∙ q) (stop-num (a.meanwhile x) ∙ keeps x ∙ e) in
      let new = counts_new c x in
      let bound = weight-bound (c.add_flags / 4) in
      elim (Bool-cases (is_neg a.queued)) [
        | inl f ↦ rw (f, run_command) (ground arith)
        | inr f ↦ rw (f, run_command) settled
      ]

module _ (a : Answers) (v : BwDevice) (in_ctx : ℕ → EpCtx) (c : ControlCtx) (ctx_change : Bool)
    (x : Resources) (enabled : ℕ → Bool) (rest : ℕ) (counted : x.ep_limit_quirk ≡ true)
    (change : IsChange c enabled) (active : x.num_active_eps ≡ rest + size enabled)
    (small : rest ≤ 2 ^ 31)
    (keeps : (y : Resources) → (a.meanwhile y).num_active_eps ≡ y.num_active_eps)
    (same : (y : Resources) → (a.meanwhile y).ep_limit_quirk ≡ y.ep_limit_quirk) where
  -- xhci_configure_endpoint, on a controller whose endpoints are counted, for a change that drops
  -- only endpoints that are enabled and adds only such as are not or are dropped too, with at most
  -- 2 ^ 31 endpoints of other devices, and while no other thread changes the count: after a success
  -- the count is that of the endpoints then enabled, and after any failure (no resources, no bandwidth,
  -- a command that cannot be queued or that the controller refuses) it is as before.
  pub configure_endpoint_lem :
      let command : Command = record { ctrl_ctx = some c; ctx_change = ctx_change } in
      let r = configure_endpoint a v in_ctx (some command) x in
      r.0.num_active_eps
      ≡ rest + (if eqb_ℤ r.1 (pos 0) then size (configured c enabled) else size enabled)
  unfolding configure_endpoint
  configure_endpoint_lem =
      let sizes = size-configured c enabled change in
      let bound = size-bound enabled in
      let n = x.num_active_eps in
      let new = counts_new c x in
      let gone = counts_dropped c x in
      let made = reserve-num v in_ctx c x counted (omega arith) in
      let ran =
        run_command-num c n (omega arith) (omega arith) a ctx_change (reserve v in_ctx c x).0 in
      elim (Bool-cases (reserve v in_ctx c x).1) [
        | inl f ↦ let done = ran made.0 (ground arith) keeps same in rw f (ground (arith, done))
        | inr f ↦ rw f (ground arith)
      ]
