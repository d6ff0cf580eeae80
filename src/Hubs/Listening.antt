-- ===== src/Hubs/Listening.antt =====
-- `Construct` of a hub: when its network manager comes up.
use iocp_j_server.Overlapped.{Fresh}
use iocp_j_server.Base.{
  some, ℕ, zero, suc, ◌+◌, ◌-◌, ◌≤◌, ◌<◌, ◌≡◌, refl, ap, ◌∙◌, arith, true, false, inl, inr, List,
  [], ◌∷◌, length, ok, fault, null_pointer, ltb,
}
use iocp_j_server.CircleQueue
use iocp_j_server.CircleQueue.{Queue, print, size}
use iocp_j_server.CircleQueue.Steps.{length-print}
use iocp_j_server.Wire.{SenderType}
use iocp_j_server.Overlapped.{accept_setting, buffer_size_max}
use iocp_j_server.Overlapped.Clean.{blank, blank-IsClearable, accept_setting-IsClearable}
use iocp_j_server.Hubs.{Roles, prepare_accept_sockets, construct_network}
use iocp_j_server.Network
use iocp_j_server.Network.{
  NetworkManager, Answer, pointers, new_socket, fill_socket_queue, setup_listen_socket, post_accept,
  prepare_accept_socket, hand_over,
}
use iocp_j_server.Network.Conserved.{keep, setup_listen_socket-Owns}
use iocp_j_server.Network.Filling.{construct-Owns, construct-prepared, construct-in_pool}
use iocp_j_server.Network.Ownership.{
  not_posted, update_self, accepts, accepts-update, count, Owns, pool, take_overlapped-Owns,
  take_overlapped-empty, hand_over-Owns, List-cases,
}
use iocp_j_server.Network.Sockets.{
  Sockets, setup_listen_socket-Sockets, setup_listen_socket-moves, pop-Prepares,
}

-- Every call of the loop is answered well.
abbrev pub AllFine : (ℕ → Answer) → Type 0
AllFine answers = (i : ℕ) → ((answers i).error_code ≡ 0) × ((answers i).taken ≡ true)

module _ (expected : SenderType) {n k most i : ℕ} {w : NetworkManager} (answer : Answer)
    (handles : ℕ → ℕ) (no_error : answer.error_code ≡ 0) (owns : Owns n k [] w)
    (ready : Sockets most (suc i) w) where
  some_size : ltb (size w.prepared_socket_queue) 1 ≡ false
  some_size = ground (arith, ready.counted, length-print pointers w.prepared_socket_queue)

  abbrev target : ℕ
  target = (CircleQueue.pop pointers w.prepared_socket_queue).0

  -- The manager without the oldest prepared socket.
  abbrev fetched : NetworkManager
  fetched = record w {
    prepared_socket_queue = (CircleQueue.pop pointers w.prepared_socket_queue).1;
  }

  fetched-Owns : Owns n k [] fetched
  fetched-Owns =
      keep w.listen_socket w.sockets w.next_address fetched.prepared_socket_queue
        w.connected_socket_map w.prepare_socket_max owns

  fetched-Sockets : Sockets most i fetched
  fetched-Sockets = (pop-Prepares ready).1

  -- With a record in the pool, an accept is posted on the oldest prepared socket.
  prepare_accept_socket-posts :
      answer.taken ≡ true
      → 0 < length (pool w)
      → (w' : NetworkManager) × (prepare_accept_socket expected answer handles w ≡ ok (true, w'))
        × Owns n (suc k) [] w'
        × Sockets most i w'
        × (length w'.posted ≡ suc (length w.posted))
        × (accepts w'.heap w'.posted ≡ suc (accepts w.heap w.posted))
        × (w'.dropped ≡ w.dropped)
        × (w'.connected_socket_map ≡ w.connected_socket_map)
  unfolding prepare_accept_socket post_accept hand_over accept_setting accepts count
  prepare_accept_socket-posts taken some_left =
      let ((handle, live), rest) = pop-Prepares ready in
      let (listen, listening) = ready.listening in
      elim (take_overlapped-Owns fetched-Owns) [
        | inl (e, stops) ↦ absurd (nothing_left (ap length e))
        | inr (q, m, takes, owns') ↦ (
          hand_over q (accept_setting target expected (blank m)) true (record fetched {
            overlapped_queue = (CircleQueue.pop pointers w.overlapped_queue).1;
          }),
          rw (some_size, live, no_error, listening, takes, taken) refl,
          hand_over-Owns (suc k) q (accept_setting target expected (blank m)) true (omega arith)
              (accept_setting-IsClearable target expected blank-IsClearable) owns',
          fetched-Sockets,
          refl,
          rw (update_self w.heap q) (
              omega (
                arith,
                accepts-update w.heap q (some (accept_setting target expected (blank m))) w.posted
                    (not_posted q owns'),
              )),
          refl,
          refl,
        )
      ]
    where
      nothing_left : length (pool w) ≡ 0 → ⊥
      nothing_left e = omega (arith, some_left)

  -- With none, the null pointer of the empty pool is followed.
  prepare_accept_socket-empty :
      pool w ≡ [] → prepare_accept_socket expected answer handles w ≡ fault null_pointer
  unfolding prepare_accept_socket post_accept
  prepare_accept_socket-empty e =
      let ((handle, live), rest) = pop-Prepares ready in
      let (listen, listening) = ready.listening in
      rw (some_size, live, no_error, listening, take_overlapped-empty fetched-Owns e) refl

-- A record that is posted is gone from the pool.
pool-less :
    {n k k' : ℕ} {w w' : NetworkManager}
    → Owns n k [] w
    → Owns n k' [] w'
    → length w'.posted ≡ suc (length w.posted)
    → w'.dropped ≡ w.dropped
    → suc (length (pool w')) ≡ length (pool w)
pool-less owns owns' posted dropped =
    omega (arith, owns.total, owns'.total, posted, ap length dropped)

module _ (expected : SenderType) {n most : ℕ} (answers : ℕ → Answer) (handles : ℕ → ℕ)
    (fine : AllFine answers) where
  prepare_accept_sockets-posts :
      (rounds : ℕ) {k : ℕ} {w : NetworkManager}
      → Owns n k [] w
      → Sockets most rounds w
      → rounds ≤ length (pool w)
      → (k' : ℕ) × (w' : NetworkManager) × (prepare_accept_sockets expected rounds answers handles w
          ≡ ok w')
        × Owns n k' [] w'
        × (length w'.posted ≡ rounds + length w.posted)
        × (accepts w'.heap w'.posted ≡ rounds + accepts w.heap w.posted)
        × (w'.dropped ≡ w.dropped)
        × (w'.connected_socket_map ≡ w.connected_socket_map)
  unfolding prepare_accept_sockets
  prepare_accept_sockets-posts zero {k} {w} owns ready enough =
      (k, w, refl, owns, omega arith, omega arith, refl, refl)
  prepare_accept_sockets-posts (suc rounds) {k} {w} owns ready enough =
      let (no_error, taken) = fine rounds in
      let (w1, prepares, owns1, ready1, posted1, accepting1, dropped1, known1) =
        prepare_accept_socket-posts expected (answers rounds) handles no_error owns ready taken
          (omega (arith, enough)) in
      let (k', w', goes_on, owns', posted', accepting', dropped', known') =
        prepare_accept_sockets-posts rounds owns1 ready1
          (omega (arith, enough, pool-less owns owns1 posted1 dropped1)) in
      (
        k',
        w',
        rw prepares goes_on,
        owns',
        omega (arith, posted', posted1),
        omega (arith, accepting', accepting1),
        dropped' ∙ dropped1,
        known' ∙ known1,
      )

  prepare_accept_sockets-exhausts :
      (rounds : ℕ) {k : ℕ} {w : NetworkManager}
      → Owns n k [] w
      → Sockets most rounds w
      → length (pool w) < rounds
      → prepare_accept_sockets expected rounds answers handles w ≡ fault null_pointer
  unfolding prepare_accept_sockets
  prepare_accept_sockets-exhausts zero owns ready few = absurd (omega (arith, few))
  prepare_accept_sockets-exhausts (suc rounds) {k} {w} owns ready few =
      let (no_error, taken) = fine rounds in
      elim (List-cases (pool w)) [
        | inl e ↦
            rw (prepare_accept_socket-empty expected (answers rounds) handles no_error owns ready e)
              refl
        | inr (p, ps, e) ↦
            let (w1, prepares, owns1, ready1, posted1, accepting1, dropped1, known1) =
              prepare_accept_socket-posts expected (answers rounds) handles no_error owns ready
                taken (some_left e) in
            rw prepares (
              prepare_accept_sockets-exhausts rounds owns1 ready1
                (omega (arith, few, pool-less owns owns1 posted1 dropped1)))
      ]
    where
      some_left : {p : ℕ} {ps : List ℕ} → pool w ≡ p ∷ ps → 0 < length (pool w)
      some_left e = let counts : length (pool w) ≡ _ = ap length e in omega (arith, counts)

module _ (roles : Roles) (overlapped_queue_max prepared_socket_max : ℕ) (memory : ℕ → Fresh)
    (handles : ℕ → ℕ) (answers : ℕ → Answer)
    (long : (a : ℕ) → length (memory a).1 ≡ buffer_size_max) (fine : AllFine answers) where
  -- The manager before the loop of PrepareAcceptSocket.
  abbrev set_up : NetworkManager
  set_up =
      setup_listen_socket prepared_socket_max true handles
        (Network.construct roles.own overlapped_queue_max memory)

  set_up-idle : (set_up.posted ≡ []) × (set_up.dropped ≡ []) × (set_up.connected_socket_map ≡ [])
  set_up-idle =
      let (posted, dropped, known) = setup_listen_socket-moves prepared_socket_max handles _ in
      let (none_posted, none_dropped, none_known) =
        construct-in_pool roles.own overlapped_queue_max memory long in
      (posted ∙ none_posted, dropped ∙ none_dropped, known ∙ none_known)

  set_up-Owns : Owns overlapped_queue_max 0 [] set_up
  set_up-Owns =
      setup_listen_socket-Owns prepared_socket_max true handles
        (construct-Owns roles.own overlapped_queue_max memory long)

  -- Where there are records enough, nothing is known of a connection yet.
  pub construct_network-comes_up :
      prepared_socket_max ≤ overlapped_queue_max
      → (k : ℕ) × (w : NetworkManager) × (construct_network roles overlapped_queue_max
            prepared_socket_max memory true handles answers
          ≡ ok w)
        × Owns overlapped_queue_max k [] w
        × (length w.posted ≡ prepared_socket_max)
        × (accepts w.heap w.posted ≡ prepared_socket_max)
        × (w.dropped ≡ [])
        × (w.connected_socket_map ≡ [])
  unfolding construct_network accepts
  construct_network-comes_up enough =
      let (none_posted, none_dropped, none_known) = set_up-idle in
      let (k, w, returns, owns', posted', accepting', dropped', known') =
        prepare_accept_sockets-posts roles.expected answers handles fine prepared_socket_max
          set_up-Owns
          (setup_listen_socket-Sockets prepared_socket_max handles _
            (construct-prepared roles.own overlapped_queue_max memory))
          (omega
            (arith, enough, set_up-Owns.total, ap length none_posted, ap length none_dropped)) in
      (
        k,
        w,
        returns,
        owns',
        omega (arith, posted', ap length none_posted),
        omega (arith, accepting', ap (accepts set_up.heap) none_posted),
        dropped' ∙ none_dropped,
        known' ∙ none_known,
      )

-- `Construct` of any of the hubs, with `answers` of the system that are all good and fresh memory as
-- large as the buffers. With no more prepared sockets than overlapped records it returns: as many
-- records are posted as there are prepared sockets, each for an accept, no record is lost, and the others are in the pool. With more
-- prepared sockets than records, it follows the null pointer of the empty pool.
pub construct_network-returns :
    (roles : Roles) (overlapped_queue_max prepared_socket_max : ℕ) (memory : ℕ → Fresh)
    (handles : ℕ → ℕ) (answers : ℕ → Answer)
    → ((a : ℕ) → length (memory a).1 ≡ buffer_size_max)
    → AllFine answers
    → (prepared_socket_max ≤ overlapped_queue_max
        → (w : NetworkManager) × (construct_network roles overlapped_queue_max prepared_socket_max
              memory true handles answers
            ≡ ok w)
          × (length w.posted ≡ prepared_socket_max)
          × (accepts w.heap w.posted ≡ prepared_socket_max)
          × (w.dropped ≡ [])
          × (length (pool w) ≡ overlapped_queue_max - prepared_socket_max))
      × (overlapped_queue_max < prepared_socket_max
          → construct_network roles overlapped_queue_max prepared_socket_max memory true handles
              answers
            ≡ fault null_pointer)
unfolding construct_network
construct_network-returns roles overlapped_queue_max prepared_socket_max memory handles answers long
      fine =
    (
      λ enough.
          let (k, w, returns, owns, posted, accepting, dropped, known) =
            construct_network-comes_up roles overlapped_queue_max prepared_socket_max memory handles
              answers long fine enough in
          (
            w,
            returns,
            posted,
            accepting,
            dropped,
            omega (arith, owns.total, posted, ap length dropped),
          ),
      λ few.
          let before =
            set_up-Owns roles overlapped_queue_max prepared_socket_max memory handles answers long
              fine in
          prepare_accept_sockets-exhausts roles.expected answers handles fine prepared_socket_max
            before
            (setup_listen_socket-Sockets prepared_socket_max handles _
              (construct-prepared roles.own overlapped_queue_max memory))
            (omega (arith, few, before.total)),
    )
