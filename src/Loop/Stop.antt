-- ===== src/Loop/Stop.antt =====
-- The stop loops of ehub_message.c: what a stop leaves of the contexts, and a stop after a start
-- that failed.
use mathlib.Core.List.{append_assoc}
use fl.Urb.{urb_destroy}
use fl.Base.Chain.{count}
use fl.Device.{bulk_in, bulk_out, interrupt_in, interrupt_out, isoch_in, UrbContext, Pipe, Device}
use fl.Loop.{
  stop_slot, kill_slot, slots, stop_slots, put_slots, stop_loop_bulk, stop_loop_interrupt,
}
use fl.Base.{
  ℕ, Option, List, ◌∷◌, [], some, ◌≡◌, if◌then◌else◌, arith, ltb, ◌==◌, none, ==_refl, refl, ◌++◌,
  map, subst, ◌∙◌, ap, sym, fun_ext,
}

-- The contexts of an array.
abbrev pub ids : List (Option ℕ) → List ℕ
ids [] = []
ids (none ∷ rest) = ids rest
ids (some id ∷ rest) = id ∷ ids rest

-- They are alive, and all different.
abbrev pub Alive : (ℕ → Option UrbContext) → List ℕ → Type 0
Alive urbs [] = Unit {0}
Alive urbs (id ∷ rest) =
    ((u : UrbContext) × (urbs id ≡ some u)) × (count id rest ≡ 0) × Alive urbs rest

-- The store without the contexts of a list.
abbrev pub without : List ℕ → (ℕ → Option UrbContext) → ℕ → Option UrbContext
without xs urbs n = if ltb 0 (count n xs) then none else urbs n

without_one :
    (id n : ℕ) (urbs : ℕ → Option UrbContext)
    → without (id ∷ []) urbs n ≡ (if n == id then none else urbs n)
without_one id n urbs = ground arith

without_cons :
    (id n : ℕ) (xs : List ℕ) (urbs : ℕ → Option UrbContext)
    → without xs (without (id ∷ []) urbs) n ≡ without (id ∷ xs) urbs n
without_cons id n xs urbs = ground arith

Alive-without :
    (id : ℕ) (xs : List ℕ) (urbs : ℕ → Option UrbContext)
    → count id xs ≡ 0
    → Alive urbs xs
    → Alive (without (id ∷ []) urbs) xs
Alive-without id [] urbs h alive = alive
Alive-without id (x ∷ xs) urbs h ((u, e), once, alive) =
    ((u, ground arith), once, Alive-without id xs urbs (ground arith) alive)

-- What a stop of one context changes.
abbrev pub Destroyed : Pipe → ℕ → Device → Device → Type 0
Destroyed pipe id d d' =
    (d'.faults ≡ d.faults)
    × ((n : ℕ) → d'.urbs n ≡ without (id ∷ []) d.urbs n)
    × (slots pipe d' ≡ slots pipe d)

pub urb_destroy-Destroyed :
    (pipe : Pipe) (id : ℕ) (u : UrbContext) (d : Device)
    → d.urbs id ≡ some u
    → Destroyed pipe id d (urb_destroy (some id) d)
unfolding urb_destroy
urb_destroy-Destroyed bulk_in id u d e = rw (e, urb_destroy) (refl, (λ n. ground arith), refl)
urb_destroy-Destroyed bulk_out id u d e = rw (e, urb_destroy) (refl, (λ n. ground arith), refl)
urb_destroy-Destroyed interrupt_in id u d e = rw (e, urb_destroy) (refl, (λ n. ground arith), refl)
urb_destroy-Destroyed interrupt_out id u d e = rw (e, urb_destroy) (refl, (λ n. ground arith), refl)
urb_destroy-Destroyed isoch_in id u d e = rw (e, urb_destroy) (refl, (λ n. ground arith), refl)

without_put :
    (id n : ℕ) (v : UrbContext) (urbs : ℕ → Option UrbContext)
    → without (id ∷ []) (λ m. if m == id then some v else urbs m) n ≡ without (id ∷ []) urbs n
without_put id n v urbs = ground arith

Destroyed-marked :
    (pipe : Pipe) (id : ℕ) (v : UrbContext) (d d₁ : Device)
    → d₁.faults ≡ d.faults
    → d₁.urbs ≡ (λ m. if m == id then some v else d.urbs m)
    → slots pipe d₁ ≡ slots pipe d
    → Destroyed pipe id d (urb_destroy (some id) d₁)
Destroyed-marked pipe id v d d₁ f m s =
    let here = ap (λ store. store id) m ∙ (rw (==_refl id) refl) in
    let (faults, urbs, kept) = urb_destroy-Destroyed pipe id v d₁ here in
    (
      faults ∙ f,
      (λ n. urbs n ∙ ap (λ store. without (id ∷ []) store n) m ∙ without_put id n v d.urbs),
      kept ∙ s,
    )

stop_slot-Destroyed :
    (pipe : Pipe) (id : ℕ) (u : UrbContext) (d : Device)
    → d.urbs id ≡ some u
    → Destroyed pipe id d (stop_slot pipe (some id) d)
unfolding stop_slot kill_slot
stop_slot-Destroyed bulk_in id u d e =
    rw (e, stop_slot) (urb_destroy-Destroyed bulk_in id u (kill_slot bulk_in id u d) e)
stop_slot-Destroyed bulk_out id u d e =
    rw (e, stop_slot) (Destroyed-marked bulk_out id _ d (kill_slot bulk_out id u d) refl refl refl)
stop_slot-Destroyed interrupt_in id u d e =
    rw (e, stop_slot)
      (Destroyed-marked interrupt_in id _ d (kill_slot interrupt_in id u d) refl refl refl)
stop_slot-Destroyed interrupt_out id u d e =
    rw (e, stop_slot)
      (Destroyed-marked interrupt_out id _ d (kill_slot interrupt_out id u d) refl refl refl)
stop_slot-Destroyed isoch_in id u d e =
    rw (e, stop_slot) (Destroyed-marked isoch_in id _ d (kill_slot isoch_in id u d) refl refl refl)

slots_put :
    (pipe : Pipe) (xs : List (Option ℕ)) (d : Device) → slots pipe (put_slots pipe xs d) ≡ xs
slots_put bulk_in xs d = refl
slots_put bulk_out xs d = refl
slots_put interrupt_in xs d = refl
slots_put interrupt_out xs d = refl
slots_put isoch_in xs d = refl

put_slots-urbs :
    (pipe : Pipe) (xs : List (Option ℕ)) (d : Device)
    → ((put_slots pipe xs d).urbs ≡ d.urbs) × ((put_slots pipe xs d).faults ≡ d.faults)
put_slots-urbs bulk_in xs d = (refl, refl)
put_slots-urbs bulk_out xs d = (refl, refl)
put_slots-urbs interrupt_in xs d = (refl, refl)
put_slots-urbs interrupt_out xs d = (refl, refl)
put_slots-urbs isoch_in xs d = (refl, refl)

-- One round of a stop loop.
abbrev pub Round : Pipe → List (Option ℕ) → Option ℕ → List (Option ℕ) → Device → Device → Type 0
Round pipe before entry rest d d' =
    (d'.faults ≡ d.faults)
    × (d'.urbs ≡ without (ids (entry ∷ [])) d.urbs)
    × (slots pipe d' ≡ before ++ none ∷ rest)

stop_slot-Round :
    (pipe : Pipe) (before rest : List (Option ℕ)) (entry : Option ℕ) (d : Device)
    → Alive d.urbs (ids (entry ∷ rest))
    → Round pipe before entry rest d
        (stop_slot pipe entry (put_slots pipe (before ++ none ∷ rest) d))
unfolding stop_slot
stop_slot-Round pipe before rest none d alive =
    let array = before ++ none ∷ rest in
    let (urbs, faults) = put_slots-urbs pipe array d in
    (faults, urbs ∙ fun_ext (λ n. ground arith), slots_put pipe array d)
stop_slot-Round pipe before rest (some id) d ((u, e), once, alive) =
    let array = before ++ none ∷ rest in
    let (urbs, faults) = put_slots-urbs pipe array d in
    let (faults', gone, kept) =
      stop_slot-Destroyed pipe id u (put_slots pipe array d) (ap (λ store. store id) urbs ∙ e) in
    (
      faults' ∙ faults,
      fun_ext (λ n. gone n) ∙ ap (without (id ∷ [])) urbs,
      kept ∙ slots_put pipe array d,
    )

Round-Alive :
    (pipe : Pipe) (before rest : List (Option ℕ)) (entry : Option ℕ) (d d' : Device)
    → Round pipe before entry rest d d'
    → Alive d.urbs (ids (entry ∷ rest))
    → Alive d'.urbs (ids rest)
Round-Alive pipe before rest none d d' (_, urbs, _) alive =
    subst (λ store. Alive store (ids rest)) (sym (urbs ∙ fun_ext (λ n. ground arith))) alive
Round-Alive pipe before rest (some id) d d' (_, urbs, _) (here, once, alive) =
    subst (λ store. Alive store (ids rest)) (sym urbs)
      (Alive-without id (ids rest) d.urbs once alive)

without-ids :
    (entry : Option ℕ) (rest : List (Option ℕ)) (urbs : ℕ → Option UrbContext) (n : ℕ)
    → without (ids rest) (without (ids (entry ∷ [])) urbs) n ≡ without (ids (entry ∷ rest)) urbs n
without-ids none rest urbs n = ground arith
without-ids (some id) rest urbs n = without_cons id n (ids rest) urbs

-- What a stop leaves: no fault, the contexts of the array and no others released, and an array of
-- NULL pointers.
abbrev pub Stopped : Pipe → List (Option ℕ) → List (Option ℕ) → Device → Device → Type 0
Stopped pipe before entries d d' =
    (d'.faults ≡ d.faults)
    × ((n : ℕ) → d'.urbs n ≡ without (ids entries) d.urbs n)
    × (slots pipe d' ≡ before ++ map (λ _. none) entries)

pub stop_slots-Stopped :
    (pipe : Pipe) (before entries : List (Option ℕ)) (d : Device)
    → slots pipe d ≡ before ++ entries
    → Alive d.urbs (ids entries)
    → Stopped pipe before entries d (stop_slots pipe before entries d)
unfolding stop_slots
stop_slots-Stopped pipe before [] d s alive = (refl, (λ n. ground arith), s)
stop_slots-Stopped pipe before (entry ∷ rest) d s alive =
    let d₁ = stop_slot pipe entry (put_slots pipe (before ++ none ∷ rest) d) in
    let round = stop_slot-Round pipe before rest entry d alive in
    let array = round.2 ∙ sym (append_assoc before (none ∷ []) rest) in
    let (faults, urbs, kept) =
      stop_slots-Stopped pipe (before ++ none ∷ []) rest d₁ array
        (Round-Alive pipe before rest entry d d₁ round alive) in
    (
      faults ∙ round.0,
      (λ n.
          urbs n
          ∙ ap (λ store. without (ids rest) store n) round.1
          ∙ without-ids entry rest d.urbs n),
      kept ∙ append_assoc before (none ∷ []) (map (λ _. none) rest),
    )

-- `MESSAGE_StopLoopBulk`, of contexts that are alive and all different, releases those contexts
-- and no others, leaves NULL in every place of its array, and uses no freed memory.
pub stop_loop_bulk_lem :
    (d : Device)
    → Alive d.urbs (ids d.urb_context_message_bulk)
    → Stopped bulk_in [] d.urb_context_message_bulk d (stop_loop_bulk d)
unfolding stop_loop_bulk
stop_loop_bulk_lem d alive = stop_slots-Stopped bulk_in [] d.urb_context_message_bulk d refl alive

-- `MESSAGE_StopLoopInterrupt`, likewise.
pub stop_loop_interrupt_lem :
    (d : Device)
    → Alive d.urbs (ids d.urb_context_message_interrupt)
    → Stopped interrupt_in [] d.urb_context_message_interrupt d (stop_loop_interrupt d)
unfolding stop_loop_interrupt
stop_loop_interrupt_lem d alive =
    stop_slots-Stopped interrupt_in [] d.urb_context_message_interrupt d refl alive
