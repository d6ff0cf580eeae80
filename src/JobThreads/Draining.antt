-- ===== src/JobThreads/Draining.antt =====
-- Whether a queued job is left to threads that sleep.
use iocp_j_server.Base.{
  update, ℕ, zero, suc, ◌≤◌, ◌<◌, ◌≡◌, ◌≢◌, ◌⊎◌, refl, sym, ap, subst, ◌∙◌, arith, true, false,
  Option, none, some, Option-cases, [], ◌++◌, append-nil, Bool-cases, inl, inr, ◌==◌, ==_refl,
}
use iocp_j_server.CircleQueue
use iocp_j_server.CircleQueue.{Queue, Slot, push, pop, empty, size, print}
use iocp_j_server.CircleQueue.Steps.{print-nil, size-pop}
use iocp_j_server.Network.Places.{update_self}
use iocp_j_server.JobThreads.{
  Pc, outside, testing, refused, asleep, awake, draining, holds, active, Workers, init, Move, locks,
  finds, finds_none, sleeps, relocks, runs, leaves, Step, moves, pushes, passes, notifies,
  notifies_none, wakes, Reach, start, later, Run, stop, go,
}
use iocp_j_server.JobThreads.Exclusion.{
  Exclusive, Ordered, empty-eq, Move-Ordered, Reach-Ordered, Reach-Exclusive,
}

-- Some thread will look at the queue.
abbrev Watched : ℕ → (ℕ → Pc) → Type 0
Watched n pc = (i : ℕ) × (i < n) × (active (pc i) ≡ true)

-- Thread `i` itself, where it goes to a place from which it looks at the queue.
watches :
    {n : ℕ} (pc : ℕ → Pc) (i : ℕ) (p : Pc) → i < n → active p ≡ true → Watched n (update pc i p)
watches pc i p lt looks = (i, lt, rw (==_refl i) looks)

-- Another thread, where thread `i` did not look at the queue.
still_watches :
    {n : ℕ} (pc : ℕ → Pc) (i : ℕ) (p : Pc)
    → active (pc i) ≡ false
    → Watched n pc
    → Watched n (update pc i p)
still_watches {n} pc i p blind (j, lt, looks) = (j, lt, ground (arith, blind, looks))

looks_or_refused : (p : Pc) → p ≢ asleep → (active p ≡ true) ⊎ (p ≡ refused)
looks_or_refused outside h = inl refl
looks_or_refused testing h = inl refl
looks_or_refused awake h = inl refl
looks_or_refused draining h = inl refl
looks_or_refused refused h = inr refl
looks_or_refused asleep h = absurd (h refl)

-- With two threads, of which none sleeps, one looks at the queue: only one can have been refused.
none_sleeps-Watched :
    {n : ℕ} {lock : Option ℕ} (pc : ℕ → Pc)
    → 2 ≤ n
    → Exclusive n lock pc
    → ((i : ℕ) → i < n → pc i ≢ asleep)
    → Watched n pc
none_sleeps-Watched {n} pc two e none_sleeps =
    elim (looks_or_refused (pc 0) (none_sleeps 0 (omega (arith, two)))) [
      | inl looks ↦ (0, omega (arith, two), looks)
      | inr refused0 ↦ elim (looks_or_refused (pc 1) (none_sleeps 1 (omega (arith, two)))) [
        | inl looks ↦ (1, omega (arith, two), looks)
        | inr refused1 ↦ absurd (both (e.held 0 (ap holds refused0)) (e.held 1 (ap holds refused1)))
      ]
    ]
  where
    both : {lock : Option ℕ} → lock ≡ some 0 → lock ≡ some 1 → ⊥
    both h h' = ground (arith, h, h')

free_watcher : (p : Pc) → active p ≡ true → holds p ≡ false → (p ≡ outside) ⊎ (p ≡ awake)
free_watcher outside looks free = inl refl
free_watcher awake looks free = inr refl
free_watcher testing looks free = cc
free_watcher draining looks free = cc
free_watcher refused looks free = cc
free_watcher asleep looks free = cc

owner_cases : (p : Pc) → holds p ≡ true → (p ≡ testing) ⊎ ((p ≡ draining) ⊎ (p ≡ refused))
owner_cases testing has = inl refl
owner_cases draining has = inr (inl refl)
owner_cases refused has = inr (inr refl)
owner_cases outside has = cc
owner_cases awake has = cc
owner_cases asleep has = cc

-- Beside a refused owner, the thread that looks at the queue is free, and stays so when that sleeps.
beside_refused :
    {n : ℕ} {lock : Option ℕ} (pc : ℕ → Pc) (i j : ℕ)
    → Exclusive n lock pc
    → active (pc i) ≡ true
    → pc j ≡ refused
    → (update pc j asleep i ≡ outside) ⊎ (update pc j asleep i ≡ awake)
beside_refused pc i j e looks at =
    subst (λ p. (p ≡ outside) ⊎ (p ≡ awake)) (sym (rw apart refl))
      (free_watcher (pc i) looks (elim (Bool-cases (holds (pc i))) [
        | inl has ↦ absurd (not_same (e.held i has) (e.held j (ap holds at)))
        | inr free ↦ free
      ]))
  where
    apart : (j == i) ≡ false
    apart = ground (arith, looks, at)

    not_same : {l : Option ℕ} → l ≡ some i → l ≡ some j → ⊥
    not_same hi hj = ground (arith, hi, hj, looks, at)

module _ {T : Type 0} (t : Slot T) where
  abbrev Alert : ℕ → Workers T → Type 0
  Alert n s = empty s.queue ≡ false → s.owed ≡ 0 → Watched n s.pc

  Move-Alert :
      {n : ℕ} {s : Workers T} {i : ℕ} {s' : Workers T}
      → i < n
      → Move t s i s'
      → Alert n s
      → Alert n s'
  Move-Alert {s = s} {i} lt (locks at free) a some_left paid = watches s.pc i testing lt refl
  Move-Alert {s = s} {i} lt (finds at left) a some_left paid = watches s.pc i draining lt refl
  Move-Alert {s = s} {i} lt (finds_none at none_left) a some_left paid = cc
  Move-Alert {s = s} {i} lt (sleeps at) a some_left paid =
      still_watches s.pc i asleep (ap active at) (a some_left paid)
  Move-Alert {s = s} {i} lt (relocks at free) a some_left paid = watches s.pc i testing lt refl
  Move-Alert {s = s} {i} lt (runs at left) a some_left paid = (i, lt, ap active at)
  Move-Alert {s = s} {i} lt (leaves at none_left) a some_left paid = watches s.pc i outside lt refl

  Step-Alert :
      {n : ℕ} {s s' : Workers T}
      → 2 ≤ n
      → Exclusive n s.lock s.pc
      → Step t n s s'
      → Alert n s
      → Alert n s'
  Step-Alert two e (moves i lt m) a some_left paid = Move-Alert lt m a some_left paid
  Step-Alert two e (pushes x) a some_left paid = absurd (omega (arith, paid))
  Step-Alert two e passes a some_left paid = absurd (omega (arith, paid))
  Step-Alert {s = s} two e (notifies i lt owes at) a some_left paid = watches s.pc i awake lt refl
  Step-Alert {s = s} two e (notifies_none owes none_sleeps) a some_left paid =
      none_sleeps-Watched s.pc two e none_sleeps
  Step-Alert {s = s} two e (wakes i lt at) a some_left paid = watches s.pc i awake lt refl

  none_at_first : (capacity : ℕ) → empty (init t capacity).queue ≡ false → ⊥
  unfolding init empty CircleQueue.construct
  none_at_first capacity h = ground (arith, h)

  pub Reach-Alert : {n capacity : ℕ} {s : Workers T} → 2 ≤ n → Reach t n capacity s → Alert n s
  Reach-Alert {capacity = capacity} two start some_left paid =
      absurd (none_at_first capacity some_left)
  Reach-Alert two (later r st) some_left paid =
      Step-Alert two (Reach-Exclusive t r) st (Reach-Alert two r) some_left paid

  -- From a thread in the inner loop on, the queue is emptied.
  drains :
      {n : ℕ} (i left : ℕ) {s : Workers T}
      → i < n
      → s.pc i ≡ draining
      → size s.queue ≡ left
      → Ordered t s
      → (s' : Workers T) × Run t n s s' × (print t s'.queue ≡ []) × (s'.done ≡ s.accepted)
  drains i zero {s} lt at e o =
      let printed = print-nil t s.queue (ground (arith, e)) in
      (s, stop, printed, sym (append-nil s.done) ∙ ap (λ l. s.done ++ l) (sym printed) ∙ o.order)
  drains i (suc left) {s} lt at e o =
      let some_left : (size s.queue == 0) ≡ false = ground (arith, e) in
      let m = runs at (empty-eq t o.valid ∙ some_left) in
      let (s', r, empties, all_done) =
        drains i left lt at (omega (arith, e, size-pop t o.valid some_left)) (Move-Ordered t m o) in
      (s', go i lt m r, empties, all_done)

  -- All accepted jobs can be run by the job threads alone.
  abbrev Empties : ℕ → Workers T → Type 0
  Empties n s = (s' : Workers T) × Run t n s s' × (print t s'.queue ≡ []) × (s'.done ≡ s.accepted)

  from_draining :
      {n : ℕ} {s : Workers T} (i : ℕ) → i < n → s.pc i ≡ draining → Ordered t s → Empties n s
  from_draining {s = s} i lt at o = drains i (size s.queue) lt at refl o

  from_testing :
      {n : ℕ} {s : Workers T} (i : ℕ)
      → i < n
      → empty s.queue ≡ false
      → s.pc i ≡ testing
      → Ordered t s
      → Empties n s
  from_testing {s = s} i lt some_left at o =
      let m : Move t s i _ = finds at some_left in
      let (s', r, empties, all_done) =
        from_draining i lt (update_self s.pc i draining) (Move-Ordered t m o) in
      (s', go i lt m r, empties, all_done)

  from_free :
      {n : ℕ} {s : Workers T} (i : ℕ)
      → i < n
      → empty s.queue ≡ false
      → s.lock ≡ none
      → (s.pc i ≡ outside) ⊎ (s.pc i ≡ awake)
      → Ordered t s
      → Empties n s
  from_free {s = s} i lt some_left free (inl at) o =
      let m : Move t s i _ = locks at free in
      let (s', r, empties, all_done) =
        from_testing i lt some_left (update_self s.pc i testing) (Move-Ordered t m o) in
      (s', go i lt m r, empties, all_done)
  from_free {s = s} i lt some_left free (inr at) o =
      let m : Move t s i _ = relocks at free in
      let (s', r, empties, all_done) =
        from_testing i lt some_left (update_self s.pc i testing) (Move-Ordered t m o) in
      (s', go i lt m r, empties, all_done)

  from_owner :
      {n : ℕ} {s : Workers T} (i j : ℕ)
      → empty s.queue ≡ false
      → Exclusive n s.lock s.pc
      → i < n
      → active (s.pc i) ≡ true
      → s.lock ≡ some j
      → Ordered t s
      → Empties n s
  from_owner {s = s} i j some_left e lt looks locked o =
      let (lt_j, has) = e.owned j locked in
      elim (owner_cases (s.pc j) has) [
        | inl at ↦ from_testing j lt_j some_left at o
        | inr (inl at) ↦ from_draining j lt_j at o
        | inr (inr at) ↦
            let m : Move t s j _ = sleeps at in
            let (s', r, empties, all_done) =
              from_free i lt some_left refl (beside_refused s.pc i j e looks at)
                (Move-Ordered t m o) in
            (s', go j lt_j m r, empties, all_done)
      ]

  -- With two job threads or more, however they and the threads that queue jobs have taken turns: once
  -- each round that queued jobs has notified, the job threads can, by steps of their own and with no
  -- other notification, run every accepted job. So no wake-up is lost.
  pub Reach-drains :
      {n capacity : ℕ} {s : Workers T}
      → 2 ≤ n
      → Reach t n capacity s
      → s.owed ≡ 0
      → (s' : Workers T) × Run t n s s' × (print t s'.queue ≡ []) × (s'.done ≡ s.accepted)
  Reach-drains {n} {s = s} two r paid =
      let o = Reach-Ordered t r in
      let e = Reach-Exclusive t r in
      elim (Bool-cases (empty s.queue)) [
        | inl none_left ↦
            let printed = print-nil t s.queue (sym (empty-eq t o.valid) ∙ none_left) in
            (
              s,
              stop,
              printed,
              sym (append-nil s.done) ∙ ap (λ l. s.done ++ l) (sym printed) ∙ o.order,
            )
        | inr some_left ↦
            let (i, lt, looks) = Reach-Alert two r some_left paid in
            elim (Option-cases s.lock) [
              | inl free ↦
                  from_free i lt some_left free (free_watcher (s.pc i) looks (unowned i e free)) o
              | inr (j, locked) ↦ from_owner i j some_left e lt looks locked o
            ]
      ]
    where
      unowned : {l : Option ℕ} (i : ℕ) → Exclusive n l s.pc → l ≡ none → holds (s.pc i) ≡ false
      unowned i e free = elim (Bool-cases (holds (s.pc i))) [
        | inl has ↦ absurd (ground (arith, e.held i has, free))
        | inr free ↦ free
      ]
