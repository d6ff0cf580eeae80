-- ===== src/JobThreads/Exclusion.antt =====
-- Which job thread has the mutex, and which jobs have been run.
use iocp_j_server.Base.{
  update, ℕ, suc, ◌+◌, ◌<◌, ◌≡◌, refl, sym, ap, subst, ◌∙◌, arith, true, false, Option, none, some,
  [], ◌∷◌, ◌++◌, append_assoc, Bool-cases, inl, inr, ◌==◌, ==_comm, if◌then◌else◌,
}
use iocp_j_server.CircleQueue.{Queue, Slot, push, pop, empty, size, print}
use iocp_j_server.CircleQueue.Inv.{IsValid, push-IsValid, pop-IsValid, construct-IsValid}
use iocp_j_server.CircleQueue.Steps.{
  push-full, push-room, print-push_room, pop-some, print-cons, empty_test,
}
use iocp_j_server.CircleQueue.Refine.{print-construct}
use iocp_j_server.JobThreads.{
  Pc, outside, testing, refused, asleep, awake, draining, holds, Workers, init, Move, locks, finds,
  finds_none, sleeps, relocks, runs, leaves, Step, moves, pushes, passes, notifies, notifies_none,
  wakes, Reach, start, later,
}

-- The mutex's owner is the thread that stands where it is held.
pub record Exclusive (n : ℕ) (lock : Option ℕ) (pc : ℕ → Pc) : Type 0 where
  pub held : (i : ℕ) → holds (pc i) ≡ true → lock ≡ some i
  pub owned : (i : ℕ) → lock ≡ some i → (i < n) × (holds (pc i) ≡ true)

-- A thread that takes the free mutex, one that keeps it or stays without it, and one that gives it up.
takes :
    {n : ℕ} {pc : ℕ → Pc} (i : ℕ) (p : Pc)
    → i < n
    → holds p ≡ true
    → Exclusive n none pc
    → Exclusive n (some i) (update pc i p)
takes {pc = pc} i p lt has e = record {
  held = λ j h. ground (arith, e.held j);
  owned = λ j h. ground (arith, has);
}

keeps :
    {n : ℕ} {lock : Option ℕ} {pc : ℕ → Pc} (i : ℕ) (p : Pc)
    → holds (pc i) ≡ holds p
    → Exclusive n lock pc
    → Exclusive n lock (update pc i p)
keeps {pc = pc} i p same e = record {
  held = λ j h. ground (arith, e.held j, e.held i, same);
  owned = λ j h. ground (arith, e.owned j, same);
}

frees :
    {n : ℕ} {lock : Option ℕ} {pc : ℕ → Pc} (i : ℕ) (p : Pc)
    → holds (pc i) ≡ true
    → holds p ≡ false
    → Exclusive n lock pc
    → Exclusive n none (update pc i p)
frees {pc = pc} i p had without e = record {
  held = λ j h. ground (arith, e.held j, e.held i had);
  owned = λ j h. cc;
}

module _ {T : Type 0} (t : Slot T) where
  -- Each accepted job has been run or is in the queue, in order.
  pub record Ordered (s : Workers T) : Type 0 where
    pub valid : IsValid s.queue
    pub order : s.done ++ print t s.queue ≡ s.accepted

  pub empty-eq : {q : Queue T} → IsValid q → empty q ≡ (size q == 0)
  unfolding empty
  empty-eq v = ==_comm _ _ ∙ empty_test v

  pub print-pop :
      {q : Queue T} → IsValid q → empty q ≡ false → print t q ≡ (pop t q).0 ∷ print t (pop t q).1
  print-pop {q} v some_left =
      let left = sym (empty-eq v) ∙ some_left in
      print-cons t v left
      ∙ ap (λ x. x ∷ print t (pop t q).1) (sym (ap (λ r. r.0) (pop-some t v left)))

  push-Ordered :
      (x : T) {s : Workers T}
      → Ordered s
      → Ordered (record s {
        queue = (push x s.queue).1;
        owed = suc s.owed;
        accepted = if (push x s.queue).0 then s.accepted ++ x ∷ [] else s.accepted;
      })
  push-Ordered x {s} o = elim (Bool-cases (size s.queue + 1 == s.queue.queue_max_size)) [
    | inl full ↦ record {
      valid = push-IsValid x o.valid;
      order = simp (push-full x o.valid full) o.order;
    }
    | inr room ↦ record {
      valid = push-IsValid x o.valid;
      order =
          ap (λ l. s.done ++ l) (print-push_room t x o.valid room)
          ∙ sym (append_assoc s.done (print t s.queue) (x ∷ []))
          ∙ ap (λ l. l ++ x ∷ []) o.order
          ∙ rw (ap (λ r. r.0) (push-room x o.valid room)) refl;
    }
  ]

  pub Move-Ordered :
      {s : Workers T} {i : ℕ} {s' : Workers T} → Move t s i s' → Ordered s → Ordered s'
  Move-Ordered {s} (runs at some_left) o = record {
    valid = pop-IsValid t o.valid;
    order =
        append_assoc s.done _ _
        ∙ ap (λ l. s.done ++ l) (sym (print-pop o.valid some_left))
        ∙ o.order;
  }
  Move-Ordered (locks at free) o = record { valid = o.valid; order = o.order }
  Move-Ordered (finds at some_left) o = record { valid = o.valid; order = o.order }
  Move-Ordered (finds_none at none_left) o = record { valid = o.valid; order = o.order }
  Move-Ordered (sleeps at) o = record { valid = o.valid; order = o.order }
  Move-Ordered (relocks at free) o = record { valid = o.valid; order = o.order }
  Move-Ordered (leaves at none_left) o = record { valid = o.valid; order = o.order }

  pub Move-Exclusive :
      {n : ℕ} {s : Workers T} {i : ℕ} {s' : Workers T}
      → i < n
      → Move t s i s'
      → Exclusive n s.lock s.pc
      → Exclusive n s'.lock s'.pc
  Move-Exclusive {n} {s} {i} lt (locks at free) e =
      takes i testing lt refl (subst (λ l. Exclusive n l s.pc) free e)
  Move-Exclusive {n} {s} {i} lt (finds at some_left) e = keeps i draining (ap holds at) e
  Move-Exclusive {n} {s} {i} lt (finds_none at none_left) e = keeps i refused (ap holds at) e
  Move-Exclusive {n} {s} {i} lt (sleeps at) e = frees i asleep (ap holds at) refl e
  Move-Exclusive {n} {s} {i} lt (relocks at free) e =
      takes i testing lt refl (subst (λ l. Exclusive n l s.pc) free e)
  Move-Exclusive lt (runs at some_left) e = e
  Move-Exclusive {n} {s} {i} lt (leaves at none_left) e = frees i outside (ap holds at) refl e

  Step-Exclusive :
      {n : ℕ} {s s' : Workers T}
      → Step t n s s'
      → Exclusive n s.lock s.pc
      → Exclusive n s'.lock s'.pc
  Step-Exclusive (moves i lt m) e = Move-Exclusive lt m e
  Step-Exclusive (pushes x) e = e
  Step-Exclusive passes e = e
  Step-Exclusive (notifies i lt owes at) e = keeps i awake (ap holds at) e
  Step-Exclusive (notifies_none owes none_sleeps) e = e
  Step-Exclusive (wakes i lt at) e = keeps i awake (ap holds at) e

  Step-Ordered : {n : ℕ} {s s' : Workers T} → Step t n s s' → Ordered s → Ordered s'
  Step-Ordered (moves i lt m) o = Move-Ordered m o
  Step-Ordered (pushes x) o = push-Ordered x o
  Step-Ordered passes o = record { valid = o.valid; order = o.order }
  Step-Ordered (notifies i lt owes at) o = record { valid = o.valid; order = o.order }
  Step-Ordered (notifies_none owes none_sleeps) o = record { valid = o.valid; order = o.order }
  Step-Ordered (wakes i lt at) o = record { valid = o.valid; order = o.order }

  init-Ordered : (capacity : ℕ) → Ordered (init t capacity)
  unfolding init
  init-Ordered capacity = record {
    valid = construct-IsValid t capacity;
    order = print-construct t capacity;
  }

  init-Exclusive : (n capacity : ℕ) → Exclusive n (init t capacity).lock (init t capacity).pc
  unfolding init
  init-Exclusive n capacity = record { held = λ i h. cc; owned = λ i h. cc }

  pub Reach-Ordered : {n capacity : ℕ} {s : Workers T} → Reach t n capacity s → Ordered s
  Reach-Ordered {capacity = capacity} start = init-Ordered capacity
  Reach-Ordered (later r st) = Step-Ordered st (Reach-Ordered r)

  pub Reach-Exclusive :
      {n capacity : ℕ} {s : Workers T} → Reach t n capacity s → Exclusive n s.lock s.pc
  Reach-Exclusive {n} {capacity} start = init-Exclusive n capacity
  Reach-Exclusive (later r st) = Step-Exclusive st (Reach-Exclusive r)

  same_owner : {lock : Option ℕ} (i j : ℕ) → lock ≡ some i → lock ≡ some j → i ≡ j
  same_owner i j hi hj = cc

  -- However many job threads there are, and however they and the threads that queue jobs take turns:
  -- the jobs that have been run, followed by those in the queue, are the jobs that the queue has
  -- accepted, in order, so that each is run once; and no two job threads have the mutex at a time.
  pub Reach-order :
      {n capacity : ℕ} {s : Workers T}
      → Reach t n capacity s
      → (s.done ++ print t s.queue ≡ s.accepted)
        × ((i j : ℕ) → holds (s.pc i) ≡ true → holds (s.pc j) ≡ true → i ≡ j)
  Reach-order r =
      let e = Reach-Exclusive r in
      ((Reach-Ordered r).order, λ i j hi hj. same_owner i j (e.held i hi) (e.held j hj))
