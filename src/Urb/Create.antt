-- ===== src/Urb/Create.antt =====
-- What `URB_Create` and `URB_CreateIsoch` (ehub_urb.c) return, whichever allocation fails.
use fl.Urb.{
  new_urb, create_context, urb_create_isoch, urb_create, urb_submit, create_guarded, put_urb,
}
use fl.Base.Int.{enodev}
use fl.Kernel.{Kernel, usb_alloc_coherent, kzalloc, usb_alloc_urb, Call}
use fl.Device.{error_check, Pipe, Device, Routine, record_call, Condition, freed_pointer, is_bound}
use fl.Base.{
  ℕ, ◌≡◌, Option, true, some, none, arith, ◌⊎◌, suc, Bool-cases, ◌∷◌, inr, inl, ==_refl, refl,
  false, ◌&&◌, subst, ◌*◌, sym, List, ◌∙◌,
}

-- The device after the call of `usb_alloc_coherent`, the second allocation.
abbrev pub second_call : ℕ → Device → Device
second_call len d =
    record_call (usb_alloc_coherent len)
      (record (record_call kzalloc d) { next_urb = suc d.next_urb })

-- All three allocations succeed, and the context is in the store as `URB_Create` fills it in.
abbrev pub Created : Pipe → Routine → ℕ → ℕ → Device → Device × Option ℕ → Type 0
Created pipe routine packets len d r =
    (r.1 ≡ some d.next_urb)
    × (r.0.urbs d.next_urb ≡ some (new_urb pipe routine packets len))
    × (r.0.next_urb ≡ suc d.next_urb)
    × (r.0.history ≡ usb_alloc_urb ∷ usb_alloc_coherent len ∷ kzalloc ∷ d.history)

-- The first allocation fails: nothing is returned, and the check of the device fails.
abbrev pub Refused : Device → Device × Option ℕ → Type 0
Refused d r = (r.1 ≡ none) × (error_check r.0 ≡ enodev) × (r.0.urbs ≡ d.urbs)

-- A later allocation fails: the memory is given back, and its address returned.
abbrev pub Dangling : Device → Device × Option ℕ → Type 0
Dangling d r = (r.1 ≡ some d.next_urb) × (r.0.urbs d.next_urb ≡ none)

allocation_error_latches :
    (d : Device) → d.error_flags.urb_context_allocation_error ≡ true → error_check d ≡ enodev
unfolding error_check
allocation_error_latches d h = ground arith

-- The outcome of a creation, told by the answers to its three allocations.
abbrev pub Outcome : Kernel → Pipe → Routine → ℕ → ℕ → Device → Device × Option ℕ → Type 0
Outcome k pipe routine packets len d r =
    let first = k.allocates (record_call kzalloc d).history in
    let second = k.allocates (second_call len d).history in
    let third = k.allocates (record_call usb_alloc_urb (second_call len d)).history in
    ((first ≡ true) × (second ≡ true) × (third ≡ true) × Created pipe routine packets len d r)
    ⊎ ((first ≡ false) × Refused d r)
    ⊎ ((first ≡ true) × ((second && third) ≡ false) × Dangling d r)

create_context-Outcome :
    (k : Kernel) (pipe : Pipe) (routine : Routine) (packets len : ℕ) (d : Device)
    → d.urbs d.next_urb ≡ none
    → Outcome k pipe routine packets len d (create_context k pipe routine packets len d)
unfolding create_context
create_context-Outcome k pipe routine packets len d fresh =
    let first = record_call kzalloc d in
    let second = second_call len d in
    let third = record_call usb_alloc_urb second in
    elim (Bool-cases (k.allocates first.history)) [
      | inr e ↦ rw (e) (inr (inl (refl, (refl, allocation_error_latches _ refl, refl))))
      | inl e ↦ elim (Bool-cases (k.allocates second.history)) [
        | inr f ↦ rw (e, f) (inr (inr (refl, refl, (refl, fresh))))
        | inl f ↦ elim (Bool-cases (k.allocates third.history)) [
          | inr g ↦ rw (e, f, g) (inr (inr (refl, refl, (refl, fresh))))
          | inl g ↦
              rw (e, f, g, ==_refl d.next_urb) (inl (refl, refl, refl, (refl, refl, refl, refl)))
        ]
      ]
    ]

guarded_eq :
    (k : Kernel) (pipe : Pipe) (routine : Routine) (packets len : ℕ) (condition : Condition)
    (d : Device)
    → d.interface_backup ≡ some condition
    → is_bound condition ≡ true
    → create_guarded k pipe routine packets len d ≡ create_context k pipe routine packets len d
unfolding create_guarded
guarded_eq k pipe routine packets len condition d e b = ground arith

-- `URB_Create`, with the interface bound or binding: where all three allocations succeed, it
-- returns a new context with a buffer of `len` zeros and no packets; where the first fails, it
-- returns NULL, the store is as before, and the check of the device fails; where the first succeeds
-- and a later one fails, it returns the address of the context it has just freed.
pub urb_create_lem :
    (k : Kernel) (pipe : Pipe) (len : ℕ) (routine : Routine) (condition : Condition) (d : Device)
    → d.interface_backup ≡ some condition
    → is_bound condition ≡ true
    → d.urbs d.next_urb ≡ none
    → Outcome k pipe routine 0 len d (urb_create k pipe len routine d)
unfolding urb_create
urb_create_lem k pipe len routine condition d e b fresh =
    subst (Outcome k pipe routine 0 len d) (sym (guarded_eq k pipe routine 0 len condition d e b))
      (create_context-Outcome k pipe routine 0 len d fresh)

-- `URB_CreateIsoch`, likewise: the new context has 16 packets, and a buffer for 16 times `len`
-- bytes.
pub urb_create_isoch_lem :
    (k : Kernel) (pipe : Pipe) (len : ℕ) (routine : Routine) (condition : Condition) (d : Device)
    → d.interface_backup ≡ some condition
    → is_bound condition ≡ true
    → d.urbs d.next_urb ≡ none
    → Outcome k pipe routine 16 (len * 16) d (urb_create_isoch k pipe len routine d)
unfolding urb_create_isoch
urb_create_isoch_lem k pipe len routine condition d e b fresh =
    subst (Outcome k pipe routine 16 (len * 16) d)
      (sym (guarded_eq k pipe routine 16 (len * 16) condition d e b))
      (create_context-Outcome k pipe routine 16 (len * 16) d fresh)

freed_submit :
    (k : Kernel) (id : ℕ) (d : Device)
    → d.urbs id ≡ none
    → (urb_submit k id d).0.faults ≡ freed_pointer ∷ d.faults
unfolding urb_submit
freed_submit k id d e = ground arith

-- Where the buffer of a new context cannot be allocated, and the context can, `URB_Create` returns
-- a pointer, and the next `URB_Submit` of that pointer uses freed memory.
pub urb_create_use_after_free :
    (k : Kernel) (pipe : Pipe) (len : ℕ) (routine : Routine) (condition : Condition) (d : Device)
    → d.interface_backup ≡ some condition
    → is_bound condition ≡ true
    → d.urbs d.next_urb ≡ none
    → k.allocates (record_call kzalloc d).history ≡ true
    → k.allocates (second_call len d).history ≡ false
    → let r = urb_create k pipe len routine d in
      (r.1 ≡ some d.next_urb)
      × ((urb_submit k d.next_urb r.0).0.faults ≡ freed_pointer ∷ r.0.faults)
urb_create_use_after_free k pipe len routine condition d e b fresh ok fails =
    elim (urb_create_lem k pipe len routine condition d e b fresh) [
      | inl (_, second, _, _) ↦ ground arith
      | inr (inl (first, _)) ↦ ground arith
      | inr (inr (_, _, (returned, freed))) ↦ (returned, freed_submit k d.next_urb _ freed)
    ]

-- The device after a creation that succeeds.
abbrev pub created_device : Pipe → Routine → ℕ → Device → Device
created_device pipe routine len d =
    put_urb d.next_urb (some (new_urb pipe routine 0 len))
      (record_call usb_alloc_urb (second_call len d))

pub urb_create_ok :
    (k : Kernel) (pipe : Pipe) (len : ℕ) (routine : Routine) (condition : Condition) (d : Device)
    → ((calls : List Call) → k.allocates calls ≡ true)
    → d.interface_backup ≡ some condition
    → is_bound condition ≡ true
    → urb_create k pipe len routine d ≡ (created_device pipe routine len d, some d.next_urb)
unfolding urb_create create_context
urb_create_ok k pipe len routine condition d h e b =
    guarded_eq k pipe routine 0 len condition d e b
    ∙ rw
        (
          h (record_call kzalloc d).history,
          h (second_call len d).history,
          h (record_call usb_alloc_urb (second_call len d)).history,
        )
        refl
