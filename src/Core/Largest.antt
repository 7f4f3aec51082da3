-- ===== src/Core/Largest.antt =====
-- The timeout that xhci_calculate_lpm_timeout (xhci.c) finds.
use fl.Core.{div_round_up}
use fl.Core.Lpm.{u0, u1, u2, u3, interfaces, is_u1, is_u2, calculate_lpm_timeout, find_timeout}
use fl.Core.Lpm.{
  u0, u1, u2, u3, endpoints, visit_interfaces, LpmParams, find_timeout, get_timeout_no_hub_lpm,
  initiated, check_tier_policy,
}
use fl.Base.Int.{ℤ, pos, e2big, is_neg}
use fl.Core.Lpm.{
  UsbDevice, LinkState, update_timeout_for_endpoint, update_timeout_for_interface, EndpointDesc,
  call_host_update_timeout_for_endpoint, ends_search, UsbInterface, wants_disabled,
}
use fl.Base.{
  sym, ℕ, if◌then◌else◌, ltb, List, Bool, true, ◌∷◌, inl, ◌++◌, not, Option, inr, ◌≡◌, [],
  Bool-cases, some, ◌&&◌, false, refl, ◌⊎◌, arith, ◌||◌, none, leb,
}

abbrev max : ℕ → ℕ → ℕ
max t a = if ltb t a then a else t

module _ (quirks : ℕ) (d : UsbDevice) (state : LinkState) where
  abbrev own : EndpointDesc → ℕ
  own e = call_host_update_timeout_for_endpoint quirks d e state

  -- Whether each of some endpoints has a timeout that the hub can take.
  pub regular : List EndpointDesc → Bool
  regular [] = true
  regular (e ∷ es) = not (ends_search (own e)) && regular es

  -- The largest of a timeout and those of some endpoints.
  pub largest : ℕ → List EndpointDesc → ℕ
  largest t [] = t
  largest t (e ∷ es) = largest (max t (own e)) es

  -- The endpoints of the interfaces of a configuration, and whether a driver opts out.
  pub all_endpoints : List (Option UsbInterface) → List EndpointDesc
  all_endpoints [] = []
  all_endpoints (none ∷ is) = all_endpoints is
  all_endpoints (some i ∷ is) = endpoints i ++ all_endpoints is

  pub opts_out : List (Option UsbInterface) → Bool
  opts_out [] = false
  opts_out (none ∷ is) = opts_out is
  opts_out (some i ∷ is) = wants_disabled i || opts_out is

  regular-append : (es fs : List EndpointDesc) → regular (es ++ fs) ≡ (regular es && regular fs)
  unfolding regular
  regular-append [] fs = refl
  regular-append (e ∷ es) fs = let rest = regular-append es fs in ground arith

  largest-append :
      (t : ℕ) (es fs : List EndpointDesc) → largest t (es ++ fs) ≡ largest (largest t es) fs
  unfolding largest
  largest-append t [] fs = refl
  largest-append t (e ∷ es) fs = largest-append (max t (own e)) es fs

  -- A search that goes on with the largest timeout, or ends with one that ends it.
  abbrev Searched : Bool → ℕ → ℤ × ℕ → Type 0
  Searched agreed most r =
      ((agreed ≡ true) × (r ≡ (pos 0, most)))
      ⊎ ((agreed ≡ false) × ((s : ℕ) × ((r ≡ (e2big, s)) × (ends_search s ≡ true))))

  endpoint-Searched :
      (e : EndpointDesc) (t : ℕ)
      → Searched
          (not (ends_search (own e)))
          (max t (own e))
          (update_timeout_for_endpoint quirks d e state t)
  unfolding update_timeout_for_endpoint
  endpoint-Searched e t = elim (Bool-cases (ends_search (own e))) [
    | inl f ↦ rw f (inr (refl, (own e, (refl, f))))
    | inr f ↦ rw f (inl (refl, refl))
  ]

  interface-Searched :
      (es : List EndpointDesc) (t : ℕ)
      → Searched (regular es) (largest t es) (update_timeout_for_interface quirks d es state t)
  unfolding regular largest update_timeout_for_interface
  interface-Searched [] t = inl (refl, refl)
  interface-Searched (e ∷ es) t =
      let rest = interface-Searched es (max t (own e)) in
      elim (endpoint-Searched e t) [
        | inl (f, r) ↦ rw (f, r) rest
        | inr (f, (s, (r, h))) ↦ rw (f, r) (inr (refl, (s, (refl, h))))
      ]

  initiated-ends : (p : LpmParams) (n : ℕ) → ends_search (initiated p n) ≡ true
  initiated-ends p n =
      elim (Bool-cases (leb (div_round_up p.sel 1000) n && leb (div_round_up p.pel 1000) n)) [
        | inl f ↦ rw f refl
        | inr f ↦ rw f refl
      ]

  no_hub-ends : ends_search (get_timeout_no_hub_lpm d state) ≡ true
  unfolding get_timeout_no_hub_lpm
  no_hub-ends = elim state as (λ s. ends_search (get_timeout_no_hub_lpm d s) ≡ true) [
    | u0 ↦ refl
    | u1 ↦ initiated-ends d.u1_params 255
    | u2 ↦ initiated-ends d.u2_params 65535
    | u3 ↦ refl
  ]

  -- A result that is the largest timeout, or one that ends a search.
  abbrev pub Found : Bool → ℕ → ℕ → Type 0
  Found agreed most t = ((agreed ≡ true) × (t ≡ most)) ⊎ ((agreed ≡ false) × (ends_search t ≡ true))

  abbrev pub agreed : List (Option UsbInterface) → Bool
  agreed is = not (opts_out is) && regular (all_endpoints is)

  regular_nil : regular [] ≡ true
  unfolding regular
  regular_nil = refl

  largest_nil : (t : ℕ) → largest t [] ≡ t
  unfolding largest
  largest_nil t = refl

  interfaces-Found :
      (is : List (Option UsbInterface)) (t : ℕ)
      → Found (agreed is) (largest t (all_endpoints is)) (visit_interfaces quirks d is state t)
  unfolding opts_out all_endpoints visit_interfaces
  interfaces-Found [] t = inl (regular_nil, sym (largest_nil t))
  interfaces-Found (none ∷ is) t = interfaces-Found is t
  interfaces-Found (some i ∷ is) t =
      let rest = interfaces-Found is (largest t (endpoints i)) in
      elim (Bool-cases (wants_disabled i)) [
        | inl w ↦ rw w (inr (refl, no_hub-ends))
        | inr w ↦
            rw
              (
                w,
                regular-append (endpoints i) (all_endpoints is),
                largest-append t (endpoints i) (all_endpoints is),
              )
              (elim (interface-Searched (endpoints i) t) [
                | inl (f, r) ↦ rw (f, r) rest
                | inr (f, (s, (r, h))) ↦ rw (f, r) (inr (ground arith, h))
              ])
      ]

  -- Whether the tier of the device allows the state, and neither an endpoint nor a driver is against
  -- it.
  abbrev pub all_agree : Bool
  all_agree =
      not (is_neg (check_tier_policy quirks d state))
      && regular (d.ep0 ∷ [])
      && agreed (interfaces d)

  find_timeout-Found :
      Found all_agree
        (largest 0 (d.ep0 ∷ all_endpoints (interfaces d)))
        (find_timeout quirks d state)
  unfolding find_timeout regular largest
  find_timeout-Found = elim (Bool-cases (is_neg (check_tier_policy quirks d state))) [
    | inl n ↦ rw n (inr (refl, refl))
    | inr n ↦ rw n (elim (endpoint-Searched d.ep0 0) [
      | inl (f, r) ↦ rw (f, r) (interfaces-Found (interfaces d) (max 0 (own d.ep0)))
      | inr (f, (s, (r, h))) ↦ rw (f, r) (inr (refl, h))
    ])
  ]

-- xhci_calculate_lpm_timeout: when the state is U1 or U2, the tier of the device allows it, each
-- endpoint, of the active settings of its interfaces and endpoint 0, has a timeout that the hub can
-- take, and no driver is against it, the result is the largest of these timeouts. In all other cases it
-- is 0, which disables the state, or 255, which leaves it to the device.
pub calculate_lpm_timeout_lem :
    (quirks : ℕ) (d : UsbDevice) (state : LinkState)
    → Found quirks d state
        ((is_u1 state || is_u2 state) && all_agree quirks d state)
        (largest quirks d state 0 (d.ep0 ∷ all_endpoints quirks d state (interfaces d)))
        (calculate_lpm_timeout quirks d state)
unfolding calculate_lpm_timeout
calculate_lpm_timeout_lem quirks d u0 = inr (refl, refl)
calculate_lpm_timeout_lem quirks d u1 = find_timeout-Found quirks d u1
calculate_lpm_timeout_lem quirks d u2 = find_timeout-Found quirks d u2
calculate_lpm_timeout_lem quirks d u3 = inr (refl, refl)
