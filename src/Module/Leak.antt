-- ===== src/Module/Leak.antt =====
-- A connection that fails once its URB contexts are made (ehub_module.c).
use fl.Interface.{interface_create_bulk}
use fl.Register.{doorbell_expand}
use fl.Loop.{message_size_bulk}
use fl.Base.{
  ℕ, zero, suc, ◌≡◌, ◌<◌, true, false, List, some, refl, arith, Option-cases, inl, inr, ◌++◌, ◌∷◌,
  [],
}
use fl.Base.Int.{ℤ, is_neg, pos}
use fl.Kernel.{Kernel, Call, kzalloc, usb_alloc_coherent, usb_alloc_urb, usb_set_interface, kfree}
use fl.Device.{
  Device, UrbContext, Routine, Pipe, bulk_out, simple, binding, interrupt_out, doorbell,
  record_call,
}
use fl.Urb.{urb_create, new_urb}
use fl.Cache.Create.{NeverFails}
use fl.Module.{
  Module, Usb, connect, make_urbs, make_completions, device_context_create, configure, or_give_up,
  start_up, give_up, device_context_destroy, on_context, zeroed,
}

-- A URB context is allocated, and no later one takes its place.
pub record Keeps (id : ℕ) (u : UrbContext) (d : Device) : Type 0 where
  pub kept : d.urbs id ≡ some u
  pub older : id < d.next_urb

urb_create-Keeps :
    (k : Kernel) (pipe : Pipe) (len : ℕ) (routine : Routine) (id : ℕ) (u : UrbContext) (d : Device)
    → Keeps id u d
    → Keeps id u (urb_create k pipe len routine d).0
unfolding urb_create
urb_create-Keeps k pipe len routine id u d h = ground arith

doorbell_expand-Keeps :
    (k : Kernel) (entries id : ℕ) (u : UrbContext) (d : Device)
    → Keeps id u d
    → Keeps id u (doorbell_expand k entries d).0
unfolding doorbell_expand
doorbell_expand-Keeps k zero id u d h = h
doorbell_expand-Keeps k (suc entries) id u d h =
    let made = urb_create k interrupt_out 8 doorbell d in
    let h₁ = urb_create-Keeps k interrupt_out 8 doorbell id u d h in
    elim (Option-cases made.1) [
      | inl e ↦ rw (e, doorbell_expand) h₁
      | inr (urb, e) ↦
          rw (e, doorbell_expand)
            (doorbell_expand-Keeps k entries id u
              (record (made.0) { doorbell_list_free = made.0.doorbell_list_free ++ urb ∷ [] })
              (record { kept = h₁.kept; older = h₁.older }))
    ]

make_completions-Keeps :
    (k : Kernel) (n id : ℕ) (u : UrbContext) (d : Device)
    → Keeps id u d
    → Keeps id u (make_completions k n d).0
unfolding make_completions
make_completions-Keeps k zero id u d h = h
make_completions-Keeps k (suc n) id u d h =
    make_completions-Keeps k n id u (urb_create k bulk_out message_size_bulk simple d).0
      (urb_create-Keeps k bulk_out message_size_bulk simple id u d h)

first-Keeps :
    (k : Kernel) (d : Device)
    → NeverFails k
    → d.interface_backup ≡ some binding
    → Keeps d.next_urb (new_urb bulk_out simple 0 8) (urb_create k bulk_out 8 simple d).0
unfolding urb_create
first-Keeps k d never e =
    let h₁ = kzalloc ∷ d.history in
    let h₂ = usb_alloc_coherent 8 ∷ h₁ in
    ground (arith, never h₁, never h₂, never (usb_alloc_urb ∷ h₂))

-- The first context of the connection is there once all are made.
make_urbs-Keeps :
    (k : Kernel) (d : Device)
    → NeverFails k
    → d.interface_backup ≡ some binding
    → Keeps d.next_urb (new_urb bulk_out simple 0 8) (make_urbs k d)
unfolding make_urbs
make_urbs-Keeps k d never e =
    let id = d.next_urb in
    let u = new_urb bulk_out simple 0 8 in
    let (d₁, urb) = urb_create k bulk_out 8 simple d in
    let d₂ = record d₁ { urb_context_embedded_register_read = urb } in
    let k₁ = first-Keeps k d never e in
    let k₂ : Keeps id u d₂ = record { kept = k₁.kept; older = k₁.older } in
    let (d₃, urb') = urb_create k bulk_out 8 simple d₂ in
    let d₄ = record d₃ { urb_context_embedded_register_write = urb' } in
    let k₃ = urb_create-Keeps k bulk_out 8 simple id u d₂ k₂ in
    let k₄ : Keeps id u d₄ = record { kept = k₃.kept; older = k₃.older } in
    let k₅ = doorbell_expand-Keeps k 32 id u d₄ k₄ in
    let k₆ = make_completions-Keeps k 8 id u (doorbell_expand k 32 d₄).0 k₅ in
    record { kept = k₆.kept; older = k₆.older }

module _ (u : Usb) (m : Module) (never : NeverFails u.kernel)
    (configured : (calls : List Call) → u.get_configuration calls ≡ (pos 1, 1))
    (refuses : (calls : List Call) → is_neg (u.kernel.interfaces calls) ≡ true) where
  -- The context that is made, and the module behind the check of its configuration.
  abbrev created : Module
  created =
      let m₁ = on_context zeroed (on_context (record_call kzalloc) m) in
      record (on_context (record_call kzalloc) (record m₁ { context_allocated = true })) {
        work_item_queue = true;
      }

  abbrev bound : Module
  bound = record (on_context (λ d. record d { interface_backup = some binding }) created) {
    usb_device_refs = suc m.usb_device_refs;
  }

  abbrev checked : Module → Module
  checked n = on_context (record_call kfree) (on_context (record_call kzalloc) n)

  create_eq : device_context_create u m ≡ (created, true)
  unfolding device_context_create
  create_eq =
      let h = m.xhci.device.history in rw (never (kzalloc ∷ h), never (kzalloc ∷ kzalloc ∷ h)) refl

  configure_eq : (n : Module) → configure u n ≡ (checked n, pos 0)
  unfolding configure
  configure_eq n = let h = kzalloc ∷ n.xhci.device.history in rw (never h, configured h) refl

  abbrev set_calls : Device → List Call
  set_calls d = usb_set_interface 0 0 ∷ d.history

  bulk_fails :
      (d : Device)
      → interface_create_bulk u.kernel d
        ≡ (record_call (usb_set_interface 0 0) d, u.kernel.interfaces (set_calls d))
  unfolding interface_create_bulk
  bulk_fails d = rw (refuses (set_calls d)) refl

  gives_up :
      (n : Module) (status : ℤ) (next : Module → Module × ℤ)
      → is_neg status ≡ true
      → or_give_up (n, status) next ≡ give_up status n
  unfolding or_give_up
  gives_up n status next e = rw e refl

  start_up_eq :
      (n : Module)
      → let d = make_urbs u.kernel n.xhci.device in
        start_up u n
        ≡ give_up
            (u.kernel.interfaces (set_calls d))
            (on_context (λ _. record_call (usb_set_interface 0 0) d) n)
  unfolding start_up
  start_up_eq n =
      let d = make_urbs u.kernel n.xhci.device in
      rw (bulk_fails d) (gives_up _ _ _ (refuses (set_calls d)))

  connect_eq : connect u 0 m ≡ start_up u (checked bound)
  unfolding connect or_give_up
  connect_eq = rw create_eq (rw (configure_eq bound) refl)

  -- MODULE_UsbInterfaceConnect, on a device that is in its configuration, while the kernel has
  -- memory and usb_set_interface fails: the error is returned and the device context is freed with the
  -- reference to the USB device given back; but the URB context for register reads, the first that was
  -- made, is still allocated.
  pub connect_leaks :
      let r = connect u 0 m in
      (is_neg r.1 ≡ true)
      × (r.0.context_allocated ≡ false)
      × (r.0.usb_device_refs ≡ m.usb_device_refs)
      × (r.0.xhci.device.urbs m.xhci.device.next_urb ≡ some (new_urb bulk_out simple 0 8))
  unfolding give_up device_context_destroy
  connect_leaks =
      let n = checked bound in
      let d = make_urbs u.kernel n.xhci.device in
      let k = make_urbs-Keeps u.kernel n.xhci.device never refl in
      rw (connect_eq, start_up_eq n) (refuses (set_calls d), refl, omega arith, k.kept)
