-- ===== src/Hub/Orderly.antt =====
-- The locks of the longer operations of a root hub (xhci-hub.c): a device stopped and rung, the
-- status of a port, and the features.
use fl.Hub.Status.{
  resume_port, leave_suspend, get_port_status, report_link, resume_rung, report_resume,
  del_comp_mod_timer, resume_begun,
}
use fl.Base.{ℕ, zero, suc, Bool, arith, Option-cases, if◌then◌else◌, inl, inr, ap, Bool-cases}
use fl.Hub.{
  spin_lock, Hub, Host, Hcd, VirtDevice, VirtEp, log, alloc_command, queue_stop_endpoint,
  set_link_state, on_bus, xdev_u0, reg_lock, wait_for_rexit, reg_unlock,
}
use fl.Hub.Slot.{
  stop_loop, stop_finish, stop_device, stop_unlocked, ring_streams, ring_ep, ring_loop, ring_device,
  last_ep_index,
}
use fl.Hub.Locks.{free, reg, spin, step, held, Holds, set_link_state-Holds, locking}

-- The doorbells leave the lock as it is.
ring_streams-Holds :
    (slot ep s left : ℕ) (h : Hub) → Holds reg h → Holds reg (ring_streams slot ep s left h)
unfolding ring_streams held step
ring_streams-Holds slot ep s zero h e = e
ring_streams-Holds slot ep s (suc left) h e = ring_streams-Holds slot ep (suc s) left _ e

ring_ep-Holds : (slot i : ℕ) (ep : VirtEp) (h : Hub) → Holds reg h → Holds reg (ring_ep slot i ep h)
unfolding ring_ep held step
ring_ep-Holds slot i ep h e = grind (arith, ring_streams-Holds)

ring_loop-Holds :
    (slot : ℕ) (v : VirtDevice) (i left : ℕ) (h : Hub)
    → Holds reg h
    → Holds reg (ring_loop slot v i left h)
unfolding ring_loop
ring_loop-Holds slot v i zero h e = e
ring_loop-Holds slot v i (suc left) h e =
    ring_loop-Holds slot v (suc i) left _ (ring_ep-Holds slot i (v.eps i) h e)

pub ring_device-Holds :
    (c : Hcd) (slot : ℕ) (h : Hub) → Holds reg h → Holds reg (ring_device c slot h)
unfolding ring_device
ring_device-Holds c slot h e = elim (Option-cases (c.devs slot)) [
  | inl f ↦ rw (f, ring_device) e
  | inr (v, f) ↦ rw (f, ring_device) (ring_loop-Holds slot v 0 _ h e)
]

-- The loop over the endpoints keeps the spin lock, or gives it back where a command is missing.
stop_loop-Holds :
    (o : Host) (v : VirtDevice) (slot : ℕ) (suspend : Bool) (i : ℕ) (h : Hub)
    → Holds spin h
    → Holds
        (if (stop_loop o v slot suspend i h).1 then spin else free)
        (stop_loop o v slot suspend i h).0
unfolding stop_loop held step
stop_loop-Holds o v slot suspend zero h e = e
stop_loop-Holds o v slot suspend (suc i) h e =
    let h₁ = log alloc_command h in
    let next = log (queue_stop_endpoint slot (suc i) suspend) h₁ in
    let skipped = stop_loop-Holds o v slot suspend i h e in
    let queued = stop_loop-Holds o v slot suspend i next (ground arith) in
    ground (arith, skipped, queued)

stop_finish-Holds :
    (o : Host) (slot : ℕ) (suspend : Bool) (h : Hub)
    → Holds spin h
    → Holds free (stop_finish o slot suspend h).0
unfolding stop_finish held step
stop_finish-Holds o slot suspend h e = ground arith

stop_device-Holds :
    (o : Host) (c : Hcd) (slot : ℕ) (suspend : Bool) (h : Hub)
    → Holds free h
    → Holds free (stop_device o c slot suspend h).0
unfolding stop_device held step
stop_device-Holds o c slot suspend h e = elim (Option-cases (c.devs slot)) [
  | inl f ↦ rw (f, stop_device) e
  | inr (v, f) ↦
      rw (f, stop_device)
        let h₁ = log spin_lock (log alloc_command h) in
          let looped = stop_loop o v slot suspend last_ep_index h₁ in
          let kept = stop_loop-Holds o v slot suspend last_ep_index h₁ (ground arith) in
          ground (arith, kept, stop_finish-Holds o slot suspend looped.0)
]

pub stop_unlocked-Holds :
    (o : Host) (c : Hcd) (slot : ℕ) (h : Hub) → Holds reg h → Holds reg (stop_unlocked o c slot h)
unfolding stop_unlocked held step
stop_unlocked-Holds o c slot h e = grind (arith, stop_device-Holds)

-- The status of a port: the wait for the end of a resume is outside of the lock.
resume_rung-Holds :
    (o : Host) (c : Hcd) (index status : ℕ) (h : Hub)
    → Holds reg h
    → Holds reg (resume_rung o c index status h).0
unfolding resume_rung
resume_rung-Holds o c index status h e = grind (locking, ring_device-Holds)

resume_port-Holds :
    (o : Host) (c : Hcd) (index status : ℕ) (h : Hub)
    → Holds reg h
    → Holds reg (resume_port o c index status h).0
unfolding resume_port held step
resume_port-Holds o c index status h e =
    let begun = on_bus (resume_begun index) h in
    let h₁ = set_link_state o (c.port_array index) xdev_u0 begun in
    let e₁ = set_link_state-Holds o (c.port_array index) xdev_u0 begun e in
    let h₂ = log reg_lock (on_bus o.others (log wait_for_rexit (log reg_unlock h₁))) in
    let e₂ : Holds reg h₂ =
      ap (step reg_lock) (ap (step wait_for_rexit) (ap (step reg_unlock) e₁)) in
    let e₃ = resume_rung-Holds o c index status h₂ e₂ in
    elim (Bool-cases (resume_rung o c index status h₂).2) [
      | inl f ↦ rw (f, resume_port) e₃
      | inr f ↦ rw (f, resume_port) e₃
    ]

report_resume-Holds :
    (o : Host) (c : Hcd) (index raw status : ℕ) (h : Hub)
    → Holds reg h
    → Holds reg (report_resume o c index raw status h).0
unfolding report_resume
report_resume-Holds o c index raw status h e = ground (arith, resume_port-Holds o c index status h)

leave_suspend-Holds :
    (c : Hcd) (index raw : ℕ) (h : Hub) → Holds reg h → Holds reg (leave_suspend c index raw h)
unfolding leave_suspend
leave_suspend-Holds c index raw h e = ground arith

report_link-Holds :
    (c : Hcd) (index raw status : ℕ) (h : Hub)
    → Holds reg h
    → Holds reg (report_link c index raw status h).0
unfolding report_link del_comp_mod_timer held step
report_link-Holds c index raw status h e = ground arith

pub get_port_status-Holds :
    (o : Host) (c : Hcd) (index raw : ℕ) (h : Hub)
    → Holds reg h
    → Holds reg (get_port_status o c index raw h).0
unfolding get_port_status
get_port_status-Holds o c index raw h e =
    grind (arith, report_resume-Holds, leave_suspend-Holds, report_link-Holds)
