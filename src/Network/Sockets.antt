-- ===== src/Network/Sockets.antt =====
-- The queue of prepared sockets: how many it holds, and that each is there.
use iocp_j_server.Base.{
  update, ℕ, zero, suc, ◌+◌, ◌≤◌, ◌<◌, ◌≡◌, refl, ap, sym, subst, ◌∙◌, arith, true, false,
  Bool-cases, inl, inr, Option, some, List, [], ◌∷◌, ◌++◌, length, length-append, ◌==◌,
}
use iocp_j_server.CircleQueue
use iocp_j_server.CircleQueue.{Queue, print, size}
use iocp_j_server.CircleQueue.Fifo
use iocp_j_server.CircleQueue.Inv.{
  IsValid, push-IsValid, pop-IsValid, max-push, max-pop, max-construct, construct-IsValid,
}
use iocp_j_server.CircleQueue.Steps.{length-print, print-push_room}
use iocp_j_server.CircleQueue.Refine.{print-construct}
use iocp_j_server.Network.{
  NetworkManager, pointers, new_socket, fill_socket_queue, setup_listen_socket,
}
use iocp_j_server.Network.Ownership.{List-cases, popped, left_over, update_self}

-- Each of these pointers leads to a socket.
abbrev pub AllLive : (ℕ → Option ℕ) → List ℕ → Type 0
AllLive sockets [] = Unit {0}
AllLive sockets (p ∷ ps) = ((handle : ℕ) × (sockets p ≡ some handle)) × AllLive sockets ps

live-update :
    (sockets : ℕ → Option ℕ) (a handle p : ℕ)
    → ((h : ℕ) × (sockets p ≡ some h))
    → (h : ℕ) × (update sockets a (some handle) p ≡ some h)
live-update sockets a handle p (h, e) = elim (Bool-cases (a == p)) [
  | inl same ↦ (handle, rw same refl)
  | inr other ↦ (h, rw other e)
]

AllLive-update :
    (sockets : ℕ → Option ℕ) (a handle : ℕ) (ps : List ℕ)
    → AllLive sockets ps
    → AllLive (update sockets a (some handle)) ps
AllLive-update sockets a handle [] live = tt
AllLive-update sockets a handle (p ∷ ps) (one, others) =
    (live-update sockets a handle p one, AllLive-update sockets a handle ps others)

AllLive-append :
    (sockets : ℕ → Option ℕ) (ps qs : List ℕ)
    → AllLive sockets ps
    → AllLive sockets qs
    → AllLive sockets (ps ++ qs)
AllLive-append sockets [] qs live live' = live'
AllLive-append sockets (p ∷ ps) qs (one, others) live' =
    (one, AllLive-append sockets ps qs others live')

-- So many sockets are prepared, of at most so many, and the listen socket is there.
pub record Prepares (most i listen : ℕ) (sockets : ℕ → Option ℕ) (q : Queue ℕ) : Type 0 where
  pub valid : IsValid q
  pub max : q.queue_max_size ≡ most + 1
  pub counted : length (print pointers q) ≡ i
  pub live : AllLive sockets (print pointers q)
  pub listening : (handle : ℕ) × (sockets listen ≡ some handle)

abbrev pub Sockets : ℕ → ℕ → NetworkManager → Type 0
Sockets most i w = Prepares most i w.listen_socket w.sockets w.prepared_socket_queue

push-Prepares :
    {most i listen : ℕ} {sockets : ℕ → Option ℕ} {q : Queue ℕ} (a handle : ℕ)
    → i < most
    → Prepares most i listen sockets q
    → Prepares most (suc i) listen (update sockets a (some handle)) (CircleQueue.push a q).1
push-Prepares {listen = listen} {sockets} {q} a handle room p = record {
  valid = push-IsValid a p.valid;
  max = max-push a q ∙ p.max;
  counted = rw printed (omega (arith, p.counted, length-append (print pointers q) (a ∷ [])));
  live = rw printed (
      AllLive-append _ _ (a ∷ []) (AllLive-update sockets a handle _ p.live)
        ((handle, update_self sockets a (some handle)), tt));
  listening = live-update sockets a handle listen p.listening;
}
  where
    not_full : (size q + 1 == q.queue_max_size) ≡ false
    not_full = ground (arith, room, p.counted, p.max, length-print pointers q)

    printed : print pointers (CircleQueue.push a q).1 ≡ print pointers q ++ a ∷ []
    printed = print-push_room pointers a p.valid not_full

fill_socket_queue-Sockets :
    (rounds most i : ℕ) (handles : ℕ → ℕ) (w : NetworkManager)
    → rounds + i ≤ most
    → Sockets most i w
    → Sockets most (rounds + i) (fill_socket_queue rounds handles w)
unfolding fill_socket_queue new_socket
fill_socket_queue-Sockets zero most i handles w room p =
    subst (λ j. Sockets most j w) (omega arith) p
fill_socket_queue-Sockets (suc rounds) most i handles w room p =
    let w' : NetworkManager = record w {
      sockets = update w.sockets w.next_address (some (handles w.next_address));
      next_address = w.next_address + 1;
      prepared_socket_queue = (CircleQueue.push w.next_address w.prepared_socket_queue).1;
    } in
    subst (λ j. Sockets most j (fill_socket_queue rounds handles w')) (omega arith)
      (fill_socket_queue-Sockets rounds most (suc i) handles w' (omega arith)
        (push-Prepares w.next_address (handles w.next_address) (omega arith) p))

-- With the listen socket, as many sockets are prepared as are asked for, where none were before.
pub setup_listen_socket-Sockets :
    (most : ℕ) (handles : ℕ → ℕ) (w : NetworkManager)
    → w.prepared_socket_queue ≡ CircleQueue.construct pointers 0
    → Sockets most most (setup_listen_socket most true handles w)
unfolding setup_listen_socket new_socket CircleQueue.construct CircleQueue.reconstruct
setup_listen_socket-Sockets most handles w none_before =
    let w' : NetworkManager = record w {
      listen_socket = w.next_address;
      sockets = update w.sockets w.next_address (some (handles w.next_address));
      next_address = w.next_address + 1;
      prepare_socket_max = most;
      prepared_socket_queue = CircleQueue.reconstruct pointers most w.prepared_socket_queue;
    } in
    let as_new : CircleQueue.construct pointers most ≡ w'.prepared_socket_queue =
      ap (CircleQueue.reconstruct pointers most) (sym none_before) in
    subst (λ j. Sockets most j (fill_socket_queue most handles w')) (omega arith)
      (fill_socket_queue-Sockets most most 0 handles w' (omega arith) (
        subst (Prepares most 0 w'.listen_socket w'.sockets) as_new (record {
          valid = construct-IsValid pointers most;
          max = max-construct pointers most;
          counted = ap length (print-construct pointers most);
          live = subst (AllLive w'.sockets) (sym (print-construct pointers most)) tt;
          listening = (
            handles w.next_address,
            update_self w.sockets w.next_address (some (handles w.next_address)),
          );
        })))

pub pop-Prepares :
    {most i listen : ℕ} {sockets : ℕ → Option ℕ} {q : Queue ℕ}
    → Prepares most (suc i) listen sockets q
    → ((handle : ℕ) × (sockets (CircleQueue.pop pointers q).0 ≡ some handle))
      × Prepares most i listen sockets (CircleQueue.pop pointers q).1
unfolding Fifo.take_first
pop-Prepares {most} {i} {listen} {sockets} {q} p = elim (List-cases (print pointers q)) [
  | inl e ↦ absurd (none_left (ap length e))
  | inr (s, ss, e) ↦
      let (one, others) = live_front e in
      (
        subst (λ t. (handle : ℕ) × (sockets t ≡ some handle)) (sym (popped (s ∷ ss) p.valid e)) one,
        record {
          valid = pop-IsValid pointers p.valid;
          max = max-pop pointers q ∙ p.max;
          counted = rw (left_over (s ∷ ss) p.valid e) (omega (arith, p.counted, counts e));
          live = rw (left_over (s ∷ ss) p.valid e) others;
          listening = p.listening;
        },
      )
]
  where
    none_left : length (print pointers q) ≡ 0 → ⊥
    none_left e = omega (arith, p.counted)

    live_front : {s : ℕ} {ss : List ℕ} → print pointers q ≡ s ∷ ss → AllLive sockets (s ∷ ss)
    live_front e = subst (AllLive sockets) e p.live

    counts :
        {s : ℕ} {ss : List ℕ}
        → print pointers q ≡ s ∷ ss
        → length (print pointers q) ≡ suc (length ss)
    counts e = ap length e

-- Preparing sockets moves no record and makes no connection.
fill_socket_queue-moves :
    (rounds : ℕ) (handles : ℕ → ℕ) (w : NetworkManager)
    → let w' = fill_socket_queue rounds handles w in
      (w'.posted ≡ w.posted)
      × (w'.dropped ≡ w.dropped)
      × (w'.connected_socket_map ≡ w.connected_socket_map)
unfolding fill_socket_queue new_socket
fill_socket_queue-moves zero handles w = (refl, refl, refl)
fill_socket_queue-moves (suc rounds) handles w = fill_socket_queue-moves rounds handles _

pub setup_listen_socket-moves :
    (most : ℕ) (handles : ℕ → ℕ) (w : NetworkManager)
    → let w' = setup_listen_socket most true handles w in
      (w'.posted ≡ w.posted)
      × (w'.dropped ≡ w.dropped)
      × (w'.connected_socket_map ≡ w.connected_socket_map)
unfolding setup_listen_socket
setup_listen_socket-moves most handles w = fill_socket_queue-moves most handles _
