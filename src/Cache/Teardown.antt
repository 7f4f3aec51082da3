-- ===== src/Cache/Teardown.antt =====
-- What `ehub_xhci_cache_destroy` (xhci-ehub.c) gives back.
use fl.Kernel.{kfree}
use fl.Base.{
  ℕ, List, [], ◌∷◌, none, some, ◌≡◌, ◌≢◌, ◌==◌, if◌then◌else◌, refl, arith, Option-cases, ◌∙◌, inl,
  inr, ◌++◌, ap, Option, sym, subst,
}
use fl.Device.{Device, UrbContext, record_call}
use fl.Urb.{urb_destroy}
use fl.Xhci.{Xhci, CacheWork}
use fl.Cache.Destroy.{destroy_work, destroy_works, cache_destroy, free_blocks}

-- A statement about each number of a list; and a list without a number twice.
abbrev pub Each : (ℕ → Type 0) → List ℕ → Type 0
Each P [] = Unit {0}
Each P (id ∷ rest) = P id × Each P rest

abbrev pub Distinct : List ℕ → Type 0
Distinct [] = Unit {0}
Distinct (id ∷ rest) = Each (λ j. j ≢ id) rest × Distinct rest

-- A work context that is allocated, with its URB context, which has the number `urb_of id`.
pub record IsOwned (urb_of : ℕ → ℕ) (x : Xhci) (id : ℕ) : Type 0 where
  pub work : CacheWork
  pub urb : UrbContext
  pub work_there : x.works id ≡ some work
  pub its_urb : work.urb_context ≡ urb_of id
  pub urb_there : x.device.urbs (urb_of id) ≡ some urb

-- Both are free.
pub record IsGone (urb_of : ℕ → ℕ) (x : Xhci) (id : ℕ) : Type 0 where
  pub no_work : x.works id ≡ none
  pub no_urb : x.device.urbs (urb_of id) ≡ none

urb_destroy-urbs :
    (id n : ℕ) (d : Device)
    → (urb_destroy (some id) d).urbs n ≡ (if n == id then none else d.urbs n)
unfolding urb_destroy
urb_destroy-urbs id n d = ground arith

urb_destroy-faults :
    (id : ℕ) (u : UrbContext) (d : Device)
    → d.urbs id ≡ some u
    → (urb_destroy (some id) d).faults ≡ d.faults
unfolding urb_destroy
urb_destroy-faults id u d e = ground arith

-- What is free stays free.
destroy_work-IsGone :
    (urb_of : ℕ → ℕ) (x : Xhci) (id j : ℕ) → IsGone urb_of x j → IsGone urb_of (destroy_work id x) j
unfolding destroy_work
destroy_work-IsGone urb_of x id j g = elim (Option-cases (x.works id)) [
  | inl e ↦ rw (e, destroy_work) (record { no_work = g.no_work; no_urb = g.no_urb })
  | inr (w, e) ↦
      let off = urb_destroy-urbs w.urb_context (urb_of j) x.device in
      record {
        no_work = rw (e, destroy_work) (ground (arith, g.no_work));
        no_urb = rw (e, destroy_work) (ground (arith, g.no_urb, off));
      }
]

destroy_works-IsGone :
    (urb_of : ℕ → ℕ) (ids : List ℕ) (x : Xhci) (j : ℕ)
    → IsGone urb_of x j
    → IsGone urb_of (destroy_works ids x) j
unfolding destroy_works
destroy_works-IsGone urb_of [] x j g = g
destroy_works-IsGone urb_of (id ∷ ids) x j g =
    destroy_works-IsGone urb_of ids (destroy_work id x) j (destroy_work-IsGone urb_of x id j g)

module _ (urb_of : ℕ → ℕ) (apart : (i j : ℕ) → i ≢ j → urb_of i ≢ urb_of j) where
  -- A context that is allocated is freed with its URB context, without a fault, and the others stay.
  destroy_work_lem :
      (x : Xhci) (id : ℕ)
      → IsOwned urb_of x id
      → IsGone urb_of (destroy_work id x) id × ((destroy_work id x).device.faults ≡ x.device.faults)
  unfolding destroy_work
  destroy_work_lem x id o =
      let off = urb_destroy-urbs (urb_of id) (urb_of id) x.device in
      let same = urb_destroy-faults (urb_of id) o.urb x.device o.urb_there in
      (
        record {
          no_work = rw (o.work_there, destroy_work) (ground arith);
          no_urb = rw (o.work_there, destroy_work) (rw o.its_urb (ground (arith, off)));
        },
        rw (o.work_there, destroy_work) (rw o.its_urb same),
      )

  destroy_work-IsOwned :
      (x : Xhci) (id j : ℕ)
      → IsOwned urb_of x id
      → j ≢ id
      → IsOwned urb_of x j
      → IsOwned urb_of (destroy_work id x) j
  unfolding destroy_work
  destroy_work-IsOwned x id j o ne p =
      let off = urb_destroy-urbs (urb_of id) (urb_of j) x.device in
      let apart_here = apart j id ne in
      record {
        work = p.work;
        urb = p.urb;
        work_there = rw (o.work_there, destroy_work) (ground (arith, p.work_there));
        its_urb = p.its_urb;
        urb_there =
            rw (o.work_there, destroy_work) (rw o.its_urb (ground (arith, p.urb_there, off)));
      }

  -- The rest of a list stays owned.
  rest-IsOwned :
      (ids : List ℕ) (x : Xhci) (id : ℕ)
      → IsOwned urb_of x id
      → Each (λ j. j ≢ id) ids
      → Each (IsOwned urb_of x) ids
      → Each (IsOwned urb_of (destroy_work id x)) ids
  rest-IsOwned [] x id o ne p = tt
  rest-IsOwned (j ∷ ids) x id o (n, ne) (q, p) =
      (destroy_work-IsOwned x id j o n q, rest-IsOwned ids x id o ne p)

  destroy_works_lem :
      (ids : List ℕ) (x : Xhci)
      → Distinct ids
      → Each (IsOwned urb_of x) ids
      → Each (IsGone urb_of (destroy_works ids x)) ids
        × ((destroy_works ids x).device.faults ≡ x.device.faults)
  unfolding destroy_works
  destroy_works_lem [] x d o = (tt, refl)
  destroy_works_lem (id ∷ ids) x (ne, d) (o, os) =
      let (gone, same) = destroy_work_lem x id o in
      let x₁ = destroy_work id x in
      let (rest, sames) = destroy_works_lem ids x₁ d (rest-IsOwned ids x id o ne os) in
      ((destroy_works-IsGone urb_of ids x₁ id gone, rest), sames ∙ same)

destroy_works-append :
    (xs ys : List ℕ) (x : Xhci) → destroy_works (xs ++ ys) x ≡ destroy_works ys (destroy_works xs x)
unfolding destroy_works
destroy_works-append [] ys x = refl
destroy_works-append (id ∷ xs) ys x = destroy_works-append xs ys (destroy_work id x)

destroy_works-lists :
    (ids : List ℕ) (x : Xhci)
    → ((destroy_works ids x).cache_list_free ≡ x.cache_list_free)
      × ((destroy_works ids x).cache_list_used ≡ x.cache_list_used)
unfolding destroy_works destroy_work
destroy_works-lists [] x = (refl, refl)
destroy_works-lists (id ∷ ids) x =
    let rest = destroy_works-lists ids (destroy_work id x) in
    elim (Option-cases (x.works id)) [
      | inl e ↦ (rest.0 ∙ rw (e, destroy_work) refl, rest.1 ∙ rw (e, destroy_work) refl)
      | inr (w, e) ↦ (rest.0 ∙ rw (e, destroy_work) refl, rest.1 ∙ rw (e, destroy_work) refl)
    ]

-- The blocks cost calls of kfree only.
free_blocks-same :
    (blocks : List ℕ) (d : Device)
    → ((free_blocks blocks d).urbs ≡ d.urbs) × ((free_blocks blocks d).faults ≡ d.faults)
unfolding free_blocks
free_blocks-same [] d = (refl, refl)
free_blocks-same (_ ∷ blocks) d = free_blocks-same blocks (record_call kfree d)

moved-IsOwned :
    (urb_of : ℕ → ℕ) (ids : List ℕ) (x x' : Xhci)
    → x'.works ≡ x.works
    → x'.device.urbs ≡ x.device.urbs
    → Each (IsOwned urb_of x) ids
    → Each (IsOwned urb_of x') ids
moved-IsOwned urb_of [] x x' e f o = tt
moved-IsOwned urb_of (id ∷ ids) x x' e f (o, os) = (
  record {
    work = o.work;
    urb = o.urb;
    work_there = ap (λ (works : ℕ → Option CacheWork). works id) e ∙ o.work_there;
    its_urb = o.its_urb;
    urb_there = ap (λ (urbs : ℕ → Option UrbContext). urbs (urb_of id)) f ∙ o.urb_there;
  },
  moved-IsOwned urb_of ids x x' e f os,
)

still-IsGone :
    (urb_of : ℕ → ℕ) (ids : List ℕ) (x : Xhci)
    → Each (IsGone urb_of x) ids
    → Each (IsGone urb_of (record x { cache_queue_free = []; cache_queue_used = [] })) ids
still-IsGone urb_of [] x g = tt
still-IsGone urb_of (id ∷ ids) x (g, gs) =
    (record { no_work = g.no_work; no_urb = g.no_urb }, still-IsGone urb_of ids x gs)

-- ehub_xhci_cache_destroy, where the two queues hold work contexts that are allocated, none twice, each
-- with a URB context of its own that is allocated: no fault occurs, all four lists are empty, and
-- every work context of the queues is free, with its URB context.
pub cache_destroy_lem :
    (urb_of : ℕ → ℕ) (x : Xhci)
    → ((i j : ℕ) → i ≢ j → urb_of i ≢ urb_of j)
    → Distinct (x.cache_queue_free ++ x.cache_queue_used)
    → Each (IsOwned urb_of x) (x.cache_queue_free ++ x.cache_queue_used)
    → ((cache_destroy x).device.faults ≡ x.device.faults)
      × ((cache_destroy x).cache_queue_free ≡ [])
      × ((cache_destroy x).cache_queue_used ≡ [])
      × ((cache_destroy x).cache_list_free ≡ [])
      × ((cache_destroy x).cache_list_used ≡ [])
      × Each (IsGone urb_of (cache_destroy x)) (x.cache_queue_free ++ x.cache_queue_used)
unfolding cache_destroy
cache_destroy_lem urb_of x apart d o =
    let freed = free_blocks x.cache_list_used (free_blocks x.cache_list_free x.device) in
    let x₂ = record x { device = freed; cache_list_free = []; cache_list_used = [] } in
    let ids = x.cache_queue_free ++ x.cache_queue_used in
    let first = free_blocks-same x.cache_list_free x.device in
    let second = free_blocks-same x.cache_list_used (free_blocks x.cache_list_free x.device) in
    let owned = moved-IsOwned urb_of ids x x₂ refl (second.0 ∙ first.0) o in
    let (gone, same) = destroy_works_lem urb_of apart ids x₂ d owned in
    let both = destroy_works-append x.cache_queue_free x.cache_queue_used x₂ in
    let lists = destroy_works-lists ids x₂ in
    (
      ap (λ (y : Xhci). y.device.faults) (sym both) ∙ same ∙ second.1 ∙ first.1,
      refl,
      refl,
      ap (λ (y : Xhci). y.cache_list_free) (sym both) ∙ lists.0,
      ap (λ (y : Xhci). y.cache_list_used) (sym both) ∙ lists.1,
      still-IsGone urb_of ids
          (destroy_works x.cache_queue_used (destroy_works x.cache_queue_free x₂))
          (subst (λ y. Each (IsGone urb_of y) ids) both gone),
    )
