-- ===== src/Register/Doorbell.antt =====
-- Register writes (ehub_embedded_register.c): the bytes that are sent, and the two lists of doorbell
-- contexts, free and busy.
use fl.Base.Chain.{remove, count, remove_head, remove-absent, remove-append_one}
use fl.Base.Int.{ℤ, is_neg, eqb_ℤ, eshutdown}
use fl.Register.Access.{write_buffer_eq, Settled, fail-Settled}
use fl.Kernel.{Kernel, usb_submit_urb, init_completion, urb_event}
use fl.Base.Bytes.{le32, overwrite, length-overwrite, overwrite_all}
use fl.Device.{Device, UrbContext, record_call, status_submitted, error_check}
use fl.Urb.{urb_submit, completion_doorbell, put_urb}
use fl.Register.{
  write_request, write_buffer, register_command, doorbell_send, write_doorbell, doorbell_claim,
  doorbell_first,
}
use fl.Base.{
  ℕ, List, ◌≡◌, arith, some, false, length, true, ◌+◌, ◌∙◌, ◌≤◌, ◌∷◌, ◌++◌, ap, ==_refl, refl,
  Bool-cases, [], inl, inr, subst, sym,
}

-- The eight bytes of a register write: the command word and the value.
abbrev pub write_bytes : ℕ → ℕ → List ℕ
write_bytes address value = le32 (register_command false true 0xff address) ++ le32 value

write_buffer-urbs :
    (id off : ℕ) (bs : List ℕ) (u : UrbContext) (d : Device)
    → d.urbs id ≡ some u
    → off + length bs ≤ length u.data_buffer
    → (write_buffer id off bs d).urbs id
      ≡ some (record u { data_buffer = overwrite off bs u.data_buffer })
write_buffer-urbs id off bs u d e h = rw (write_buffer_eq id off bs u d e h, ==_refl id) refl

write_buffer-history :
    (id off : ℕ) (bs : List ℕ) (d : Device) → (write_buffer id off bs d).history ≡ d.history
unfolding write_buffer
write_buffer-history id off bs d = ground arith

-- After the request is written the buffer holds the command word and the value.
pub write_request_eq :
    (id address value : ℕ) (u : UrbContext) (d : Device)
    → d.urbs id ≡ some u
    → length u.data_buffer ≡ 8
    → (write_request id address value d).urbs id
      ≡ some (record u { data_buffer = write_bytes address value })
unfolding write_request
write_request_eq id address value u d e l =
    let first = le32 (register_command false true 0xff address) in
    let u₁ = record u { data_buffer = overwrite 0 first u.data_buffer } in
    let d₁ = write_buffer id 0 first d in
    let step : d₁.urbs id ≡ some u₁ = write_buffer-urbs id 0 first u d e (omega arith) in
    let wide = length-overwrite 0 first u.data_buffer in
    let second = write_buffer-urbs id 4 (le32 value) u₁ d₁ step (omega arith) in
    second
    ∙ ap (λ b. some (record u { data_buffer = b }))
        (overwrite_all first (le32 value) u.data_buffer (omega arith))

pub write_request-history :
    (id address value : ℕ) (d : Device) → (write_request id address value d).history ≡ d.history
unfolding write_request
write_request-history id address value d =
    let command = le32 (register_command false true 0xff address) in
    write_buffer-history id 4 (le32 value) (write_buffer id 0 command d)
    ∙ write_buffer-history id 0 command d

pub urb_submit-history :
    (k : Kernel) (id : ℕ) (u : UrbContext) (d : Device)
    → d.urbs id ≡ some u
    → (urb_submit k id d).0.history
      ≡ usb_submit_urb id u.transfer_buffer_length u.data_buffer
        ∷ init_completion (urb_event id)
        ∷ d.history
unfolding urb_submit
urb_submit-history k id u d e = ground arith

urb_submit-lists :
    (k : Kernel) (id : ℕ) (d : Device)
    → ((urb_submit k id d).0.doorbell_list_free ≡ d.doorbell_list_free)
      × ((urb_submit k id d).0.doorbell_list_busy ≡ d.doorbell_list_busy)
unfolding urb_submit
urb_submit-lists k id d = ground arith

write_buffer-lists :
    (id off : ℕ) (bs : List ℕ) (d : Device)
    → ((write_buffer id off bs d).doorbell_list_free ≡ d.doorbell_list_free)
      × ((write_buffer id off bs d).doorbell_list_busy ≡ d.doorbell_list_busy)
unfolding write_buffer
write_buffer-lists id off bs d = ground arith

-- What a doorbell write leaves: one URB submitted with the eight bytes, its context moved from
-- the free list to the end of the busy one, and a status or a latched error.
abbrev pub Rung : ℕ → UrbContext → ℕ → ℕ → Device → Device × ℕ × ℤ → Type 0
Rung id u address value d r =
    (r.0.history
      ≡ usb_submit_urb id u.transfer_buffer_length (write_bytes address value)
        ∷ init_completion (urb_event id)
        ∷ d.history)
    × (r.0.doorbell_list_free ≡ remove id d.doorbell_list_free)
    × (r.0.doorbell_list_busy ≡ remove id d.doorbell_list_busy ++ id ∷ [])
    × Settled r

doorbell_send_eq :
    (k : Kernel) (id address value : ℕ) (d : Device)
    → let s = urb_submit k id (write_request id address value (doorbell_claim id d)) in
      Settled (doorbell_send k id address value d)
      × ((doorbell_send k id address value d).0.history ≡ s.0.history)
      × ((doorbell_send k id address value d).0.doorbell_list_free ≡ s.0.doorbell_list_free)
      × ((doorbell_send k id address value d).0.doorbell_list_busy ≡ s.0.doorbell_list_busy)
unfolding doorbell_send
doorbell_send_eq k id address value d =
    let s = urb_submit k id (write_request id address value (doorbell_claim id d)) in
    elim (Bool-cases (is_neg s.1)) [
      | inl e ↦ rw (e, doorbell_send) (fail-Settled s.0 s.1, refl, refl, refl)
      | inr e ↦ rw (e, doorbell_send) (inl e, refl, refl, refl)
    ]

write_request-lists :
    (id address value : ℕ) (d : Device)
    → ((write_request id address value d).doorbell_list_free ≡ d.doorbell_list_free)
      × ((write_request id address value d).doorbell_list_busy ≡ d.doorbell_list_busy)
unfolding write_request
write_request-lists id address value d =
    let command = le32 (register_command false true 0xff address) in
    let a = write_buffer-lists id 4 (le32 value) (write_buffer id 0 command d) in
    let b = write_buffer-lists id 0 command d in (a.0 ∙ b.0, a.1 ∙ b.1)

doorbell_send-Rung :
    (k : Kernel) (id address value : ℕ) (u : UrbContext) (d : Device)
    → d.urbs id ≡ some u
    → length u.data_buffer ≡ 8
    → Rung id u address value d (doorbell_send k id address value d)
unfolding doorbell_claim
doorbell_send-Rung k id address value u d e l =
    let c = doorbell_claim id d in
    let asked = write_request id address value c in
    let (settled, history, free, busy) = doorbell_send_eq k id address value d in
    let sent =
      urb_submit-history k id (record u { data_buffer = write_bytes address value }) asked
        (write_request_eq id address value u c e l) in
    let moved = urb_submit-lists k id asked in
    let kept = write_request-lists id address value c in
    (
      history
          ∙ sent
          ∙ ap
              (λ h.
                usb_submit_urb id u.transfer_buffer_length (write_bytes address value)
                ∷ init_completion (urb_event id)
                ∷ h)
              (write_request-history id address value c),
      free ∙ moved.0 ∙ kept.0,
      busy ∙ moved.1 ∙ kept.1,
      settled,
    )

write_doorbell_head :
    (k : Kernel) (address value id : ℕ) (rest : List ℕ) (d : Device)
    → d.doorbell_list_free ≡ id ∷ rest
    → write_doorbell k address value d ≡ doorbell_send k id address value d
unfolding write_doorbell doorbell_first
write_doorbell_head k address value id rest d f = ground arith

pub write_doorbell_lem :
    (k : Kernel) (address value id : ℕ) (rest : List ℕ) (u : UrbContext) (d : Device)
    → d.doorbell_list_free ≡ id ∷ rest
    → d.urbs id ≡ some u
    → length u.data_buffer ≡ 8
    → Rung id u address value d (write_doorbell k address value d)
write_doorbell_lem k address value id rest u d f e l =
    subst (Rung id u address value d) (sym (write_doorbell_head k address value id rest d f))
      (doorbell_send-Rung k id address value u d e l)

urb_submit-urbs :
    (k : Kernel) (id : ℕ) (u : UrbContext) (d : Device)
    → d.urbs id ≡ some u
    → (v : UrbContext) × ((urb_submit k id d).0.urbs id ≡ some v)
unfolding urb_submit
urb_submit-urbs k id u d e =
    let asked = record_call (init_completion (urb_event id)) d in
    let sent =
      record_call (usb_submit_urb id u.transfer_buffer_length u.data_buffer)
        (put_urb id (some (record u { status = status_submitted })) asked) in
    elim (Bool-cases (is_neg (k.submits sent.history))) [
      | inl f ↦ rw (e, f, urb_submit, ==_refl id) (_, refl)
      | inr f ↦ rw (e, f, urb_submit, ==_refl id) (_, refl)
    ]

doorbell_send-urbs :
    (k : Kernel) (id address value : ℕ) (u : UrbContext) (d : Device)
    → d.urbs id ≡ some u
    → length u.data_buffer ≡ 8
    → (v : UrbContext) × ((doorbell_send k id address value d).0.urbs id ≡ some v)
unfolding doorbell_send doorbell_claim
doorbell_send-urbs k id address value u d e l =
    let c = doorbell_claim id d in
    let asked = write_request id address value c in
    let (v, found) = urb_submit-urbs k id _ asked (write_request_eq id address value u c e l) in
    elim (Bool-cases (is_neg (urb_submit k id asked).1)) [
      | inl f ↦ rw (f, doorbell_send) (v, found)
      | inr f ↦ rw (f, doorbell_send) (v, found)
    ]

completion_doorbell-lists :
    (id : ℕ) (status : ℤ) (actual : ℕ) (v : UrbContext) (d : Device)
    → d.urbs id ≡ some v
    → eqb_ℤ status eshutdown ≡ false
    → is_neg (error_check d) ≡ false
    → ((completion_doorbell id status actual d).doorbell_list_free
        ≡ remove id d.doorbell_list_free ++ id ∷ [])
      × ((completion_doorbell id status actual d).doorbell_list_busy
          ≡ remove id d.doorbell_list_busy)
unfolding completion_doorbell
completion_doorbell-lists id status actual v d e s h =
    rw (s, e, h, completion_doorbell) (refl, refl)

-- A doorbell context with a buffer of eight bytes, which is first and once on the free list and not on
-- the busy one, goes out with a write. Its completion, with any status but a shutdown and on a device
-- without errors, puts it at the end of the free list and leaves the busy list as before the write.
pub doorbell_round_trip :
    (k : Kernel) (address value id actual : ℕ) (status : ℤ) (rest : List ℕ) (u : UrbContext)
    (d : Device)
    → d.doorbell_list_free ≡ id ∷ rest
    → count id rest ≡ 0
    → count id d.doorbell_list_busy ≡ 0
    → d.urbs id ≡ some u
    → length u.data_buffer ≡ 8
    → eqb_ℤ status eshutdown ≡ false
    → is_neg (error_check (write_doorbell k address value d).0) ≡ false
    → let after = completion_doorbell id status actual (write_doorbell k address value d).0 in
      (after.doorbell_list_free ≡ rest ++ id ∷ [])
      × (after.doorbell_list_busy ≡ d.doorbell_list_busy)
doorbell_round_trip k address value id actual status rest u d f once absent e l s h =
    let (_, free, busy, _) = write_doorbell_lem k address value id rest u d f e l in
    let sent = write_doorbell_head k address value id rest d f in
    let (v, found) = doorbell_send-urbs k id address value u d e l in
    let found = ap (λ r. r.0.urbs id) sent ∙ found in
    let (free', busy') =
      completion_doorbell-lists id status actual v (write_doorbell k address value d).0 found s h in
    let gone = free ∙ ap (remove id) f ∙ remove_head id rest in
    (
      free'
          ∙ ap (λ xs. remove id xs ++ id ∷ []) gone
          ∙ ap (λ xs. xs ++ id ∷ []) (remove-absent id rest once),
      busy'
          ∙ ap (remove id) busy
          ∙ ap (λ xs. remove id (xs ++ id ∷ [])) (remove-absent id d.doorbell_list_busy absent)
          ∙ remove-append_one id d.doorbell_list_busy absent,
    )
