-- ===== src/Network/Reached.antt =====
-- No overlapped record is ever in two places, nor lost but by an operation that the system refuses.
use iocp_j_server.Overlapped.{Fresh}
use iocp_j_server.Base.{
  update, ℕ, suc, ◌+◌, ◌-◌, ◌≤◌, ◌≡◌, sym, subst, arith, Bool, true, false, some, List, [], ◌∷◌,
  length, ◌==◌, if◌then◌else◌, Option-cases, inl, inr, Outcome, ok, fault, ◌>>=◌, Bytes,
}
use iocp_j_server.CircleQueue.Inv.{IsValid}
use iocp_j_server.Wire.{
  OperationType, op_default, op_connect, op_accept, op_recv, op_send, SenderType, MessageHeader,
  HostOrder,
}
use iocp_j_server.Overlapped.{Overlapped, buffer_size_max}
use iocp_j_server.Overlapped.Clean.{IsClearable, received-IsClearable}
use iocp_j_server.Network.{
  NetworkManager, Answer, deref, find, unsafe_erase, insert, process_disconnect, call_receive_ready,
}
use iocp_j_server.Network.Completions.{
  SocketError, wsaeconnreset, wsaeconnaborted, wsaenetreset, wsaetimedout, wsaenotconn,
  wsaeshutdown, error_netname_deleted, other_error, Completion, completed, failed, dequeue,
  give_back, system_writes, handle_disconnect_complete, handle_accept_complete,
  handle_connect_complete, handle_receive_complete, handle_send_complete, on_completed, on_failed,
  process_completion,
}
use iocp_j_server.Network.Ownership.{
  Owns, count, one_each, pool, is_accept, cell, in_hand, write-Owns, dequeue-Owns, give_back-Owns,
}
use iocp_j_server.Network.Filling.{construct-Owns}
use iocp_j_server.Network.Conserved.{
  Leaves, Leaves-bind, Leaves-after, Leaves-if, keep, setup_listen_socket-Owns,
  prepare_accept_socket-Owns, setup_connect_socket-Owns, call_receive_ready-Owns,
  process_disconnect-Owns, send_request-Owns,
}
use iocp_j_server.Network.Calls.{
  Call, sets_up, prepares, connects, sends, completes, record_of, Fills, Possible, step, Reach,
  start, next,
}

system_writes-IsClearable :
    (op : OperationType) (head : MessageHeader) (body : Bytes) {o o' : Overlapped}
    → length body ≤ o.body_len
    → IsClearable o
    → system_writes op head body o ≡ ok o'
    → IsClearable o'
unfolding system_writes
system_writes-IsClearable op_recv head body {o} {o'} h c e =
    let (o'', e'', c'') = received-IsClearable head body h c in
    let eq : o'' ≡ o' = cc in subst IsClearable eq c''
system_writes-IsClearable op_connect head body {o} {o'} h c e =
    let eq : o ≡ o' = cc in subst IsClearable eq c
system_writes-IsClearable op_accept head body {o} {o'} h c e =
    let eq : o ≡ o' = cc in subst IsClearable eq c
system_writes-IsClearable op_send head body {o} {o'} h c e =
    let eq : o ≡ o' = cc in subst IsClearable eq c
system_writes-IsClearable op_default head body {o} {o'} h c e =
    let eq : o ≡ o' = cc in subst IsClearable eq c

-- The end of a round.
finish-Owns :
    (n k : ℕ) {H : Type 0} (p : ℕ) (r : Outcome (H × NetworkManager))
    → Leaves (Owns n k (p ∷ [])) r
    → Leaves (Owns n k []) (r >>= λ s. give_back p s.1 >>= λ w. ok (s.0, w))
finish-Owns n k p (ok (h, w)) owns =
    let (w', gives, owns') = give_back-Owns p owns in rw gives owns'
finish-Owns n k p (fault e) owns = tt

-- How many accepts may be pending after a call, if `k` were before.
abbrev pub after : Call → NetworkManager → ℕ → ℕ
after (completes c) w k = k - is_accept (w.heap (record_of c))
after (prepares sender answer handles) w k = suc k
after (sets_up most found handles) w k = k
after (connects sender handle bound found taken) w k = k
after (sends target content_type buffer size taken) w k = k

module _ {n : ℕ} {H : Type 0} (iocp_callback : ℕ → Overlapped → H → Outcome H)
    (disconnect_callback : ℕ → H → H) where
  module _ {k : ℕ} {extra : List ℕ} where
    handle_disconnect_complete-Owns :
        (key : ℕ) (h : H) {w : NetworkManager}
        → Owns n k extra w
        → Leaves
            (Owns n k extra)
            (handle_disconnect_complete iocp_callback disconnect_callback key h w)
    unfolding handle_disconnect_complete
    handle_disconnect_complete-Owns key h {w} owns =
        elim (Option-cases (find key w.connected_socket_map)) [
          | inl e ↦ rw (e, handle_disconnect_complete) owns
          | inr (target, e) ↦
              rw (e, handle_disconnect_complete)
                (Leaves-bind (Owns n k extra) (Owns n k extra) (process_disconnect target w) _
                  (process_disconnect-Owns target owns) (λ closed w' owns'. if_closed closed owns'))
        ]
      where
        if_closed :
            (closed : Bool) {w' : NetworkManager}
            → Owns n k extra w'
            → Owns n k extra (
                if closed
                then record w' { connected_socket_map = unsafe_erase key w'.connected_socket_map }
                else w')
        if_closed true owns' = keep _ _ _ _ _ _ owns'
        if_closed false owns' = owns'

    -- A new connection is entered, the hub called, and a receive posted.
    connected-Owns :
        (o : Overlapped) (answer : Answer) (h : H) {w : NetworkManager}
        → Owns n k extra w
        → Leaves
            (Owns n k extra)
            (handle_accept_complete iocp_callback disconnect_callback o answer h w)
    unfolding handle_accept_complete
    connected-Owns o answer h {w} owns =
        Leaves-after (Owns n k extra) (iocp_callback o.socket o h) _ (λ h' e.
          Leaves-bind (Owns n k extra) (Owns n k extra) (call_receive_ready o.socket answer _) _
            (call_receive_ready-Owns o.socket answer
              (keep _ _ _ _ (insert o.socket o.socket w.connected_socket_map) _ owns))
            (λ result w' owns'. owns'))

    handle_receive_complete-Owns :
        (key bytes : ℕ) (o : Overlapped) (answer : Answer) (h : H) {w : NetworkManager}
        → Owns n k extra w
        → Leaves
            (Owns n k extra)
            (handle_receive_complete iocp_callback disconnect_callback key bytes o answer h w)
    unfolding handle_receive_complete
    handle_receive_complete-Owns key bytes o answer h {w} owns =
        Leaves-if (Owns n k extra) (bytes == 0) _ _ (handle_disconnect_complete-Owns key h owns) (
          Leaves-after (Owns n k extra) (iocp_callback key o h) _ (λ h' e.
            Leaves-bind (Owns n k extra) (Owns n k extra) (call_receive_ready o.socket answer w) _
              (call_receive_ready-Owns o.socket answer owns) (λ result w' owns'. owns')))

    on_completed-Owns :
        (op : OperationType) (key bytes : ℕ) (o : Overlapped) (answer : Answer) (h : H)
        {w : NetworkManager}
        → Owns n k extra w
        → Leaves
            (Owns n k extra)
            (on_completed iocp_callback disconnect_callback op key bytes o answer h w)
    unfolding on_completed handle_connect_complete handle_accept_complete handle_send_complete
    on_completed-Owns op_connect key bytes o answer h owns = connected-Owns o answer h owns
    on_completed-Owns op_accept key bytes o answer h owns = connected-Owns o answer h owns
    on_completed-Owns op_recv key bytes o answer h owns =
        handle_receive_complete-Owns key bytes o answer h owns
    on_completed-Owns op_send key bytes o answer h owns =
        Leaves-after (Owns n k extra) (iocp_callback key o h) _ (λ h' e. owns)
    on_completed-Owns op_default key bytes o answer h owns = owns

    on_failed-Owns :
        (error : SocketError) (key : ℕ) (h : H) {w : NetworkManager}
        → Owns n k extra w
        → Leaves (Owns n k extra) (on_failed iocp_callback disconnect_callback error key h w)
    unfolding on_failed
    on_failed-Owns wsaeconnreset key h owns = handle_disconnect_complete-Owns key h owns
    on_failed-Owns wsaeconnaborted key h owns = handle_disconnect_complete-Owns key h owns
    on_failed-Owns wsaenetreset key h owns = handle_disconnect_complete-Owns key h owns
    on_failed-Owns wsaetimedout key h owns = handle_disconnect_complete-Owns key h owns
    on_failed-Owns wsaenotconn key h owns = handle_disconnect_complete-Owns key h owns
    on_failed-Owns wsaeshutdown key h owns = handle_disconnect_complete-Owns key h owns
    on_failed-Owns error_netname_deleted key h owns = handle_disconnect_complete-Owns key h owns
    on_failed-Owns (other_error e) key h owns = owns

  process_completion-Owns :
      {k : ℕ} (c : Completion) (h : H) {w : NetworkManager}
      → (1 ≤ count (record_of c) w.posted) × Fills c (w.heap (record_of c))
      → Owns n k [] w
      → Leaves
          (Owns n (after (completes c) w k) [])
          (process_completion iocp_callback disconnect_callback c h w)
  unfolding process_completion dequeue
  process_completion-Owns {k} (failed key p error) h {w} possible owns =
      finish-Owns n (after (completes (failed key p error)) w k) p
        (on_failed iocp_callback disconnect_callback error key h (dequeue p w))
        (on_failed-Owns error key h (dequeue-Owns p possible.0 owns))
  process_completion-Owns {k} (completed key p bytes head body answer) h {w} possible owns =
      let c = completed key p bytes head body answer in
      let left = after (completes c) w k in
      let held = dequeue-Owns p possible.0 owns in
      let (o, there, clean) = cell p held (in_hand p held) in
      let fills : length body ≤ o.body_len = subst (Fills c) there possible.1 in
      subst
        (λ m. Leaves (Owns n left []) (
          deref m >>= λ o. system_writes o.operation head body o >>= λ written.
          on_completed iocp_callback disconnect_callback o.operation key bytes written answer h
            (record (dequeue p w) { heap = update w.heap p (some written) })
          >>= λ s. give_back p s.1 >>= λ w'. ok (s.0, w')))
        (sym there)
        (Leaves-after (Owns n left []) (system_writes o.operation head body o) _ (λ written e.
          finish-Owns n left p _ (
            on_completed-Owns o.operation key bytes written answer h (
              write-Owns p written (system_writes-IsClearable o.operation head body fills clean e)
                held))))

  module _ (order : HostOrder) where
    pub step-Owns :
        {k : ℕ} (c : Call) (h : H) {w : NetworkManager}
        → Possible c w
        → Owns n k [] w
        → Leaves (Owns n (after c w k) []) (step order iocp_callback disconnect_callback c h w)
    unfolding step
    step-Owns {k} (sets_up most found handles) h possible owns =
        setup_listen_socket-Owns most found handles owns
    step-Owns {k} (prepares sender answer handles) h possible owns =
        Leaves-bind (Owns n (suc k) []) (Owns n (suc k) []) _ _
          (prepare_accept_socket-Owns sender answer handles owns) (λ a w' owns'. owns')
    step-Owns {k} (connects sender handle bound found taken) h possible owns =
        Leaves-bind (Owns n k []) (Owns n k []) _ _
          (setup_connect_socket-Owns sender handle bound found taken owns) (λ a w' owns'. owns')
    step-Owns {k} (sends target content_type buffer size taken) h possible owns =
        Leaves-bind (Owns n k []) (Owns n k []) _ _
          (send_request-Owns order target content_type buffer size taken owns) (λ a w' owns'. owns')
    step-Owns (completes c) h possible owns = process_completion-Owns c h possible owns

    -- Some bound on the pending accepts comes with the places.
    pub reached :
        (sender : SenderType) (memory : ℕ → Fresh) (h : H) {h' : H} {w : NetworkManager}
        → ((a : ℕ) → length (memory a).1 ≡ buffer_size_max)
        → Reach order iocp_callback disconnect_callback sender n memory h h' w
        → (k : ℕ) × Owns n k [] w
    reached sender memory h long start = (0, construct-Owns sender n memory long)
    reached sender memory h long (next {h' = h'} {w = w} c r possible steps) =
        let (k, owns) = reached sender memory h long r in
        (after c w k, subst (Leaves (Owns n (after c w k) [])) steps (step-Owns c h' possible owns))

    -- Whatever calls are made and completions arrive, of records that the system holds: each of the
    -- n overlapped records that Construct has made is in exactly one place, in the pool, with the
    -- system or refused by it; and the pool's indices are in range.
    pub Reach-places :
        (sender : SenderType) (memory : ℕ → Fresh) (h : H) {h' : H} {w : NetworkManager}
        → ((a : ℕ) → length (memory a).1 ≡ buffer_size_max)
        → Reach order iocp_callback disconnect_callback sender n memory h h' w
        → IsValid w.overlapped_queue
          × ((a : ℕ) → count a (pool w) + count a w.posted + count a w.dropped ≡ one_each n a)
    unfolding count
    Reach-places sender memory h long r =
        let (k, owns) = reached sender memory h long r in
        (owns.valid, λ a. omega (arith, owns.counts a))
