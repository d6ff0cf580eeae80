-- ===== src/Network/Accepts.antt =====
-- No accept is posted but by PrepareAcceptSocket, which only the hubs' `Construct` calls.
use iocp_j_server.Overlapped.{Fresh}
use iocp_j_server.Base.{
  ℕ, ◌+◌, ◌≤◌, ◌≡◌, refl, sym, ap, subst, arith, Bool, true, false, Option, none, some, [], length,
  ◌==◌, if◌then◌else◌, Option-cases, inl, inr, Outcome, ok, fault, ◌>>=◌, Bytes,
}
use iocp_j_server.Wire.{
  OperationType, op_default, op_connect, op_accept, op_recv, op_send, SenderType, MessageHeader,
  HostOrder,
}
use iocp_j_server.Overlapped.{Overlapped, buffer_size_max, received, memcpy}
use iocp_j_server.Network.{
  NetworkManager, Answer, deref, find, process_disconnect, call_receive_ready,
  prepare_accept_socket, setup_connect_socket, send_request,
}
use iocp_j_server.Network.Completions.{
  SocketError, wsaeconnreset, wsaeconnaborted, wsaenetreset, wsaetimedout, wsaenotconn,
  wsaeshutdown, error_netname_deleted, other_error, Completion, completed, failed, dequeue,
  give_back, system_writes, handle_disconnect_complete, handle_accept_complete,
  handle_connect_complete, handle_receive_complete, handle_send_complete, on_completed, on_failed,
  process_completion,
}
use iocp_j_server.Network.Ownership.{Owns, accept_operation, is_accept, accepts, accepts-remove}
use iocp_j_server.Network.Filling.{construct-Owns}
use iocp_j_server.Network.Conserved.{Leaves}
use iocp_j_server.Network.Reached.{after, step-Owns}
use iocp_j_server.Network.Calls.{
  Call, sets_up, prepares, connects, sends, completes, record_of, prepares_of, prepared, Possible,
  step, Reach, start, next,
}

-- A number that a hub keeps, and that grows by at most one at an accept, and not otherwise.
pub record AcceptCounter {H : Type 0} (iocp_callback : ℕ → Overlapped → H → Outcome H)
    (disconnect_callback : ℕ → H → H) : Type 0 where
  pub count_of : H → ℕ
  pub callback_counts :
      (key : ℕ) (o : Overlapped) (h h' : H)
      → iocp_callback key o h ≡ ok h'
      → count_of h' ≤ count_of h + accept_operation o.operation
  pub disconnect_counts : (key : ℕ) (h : H) → count_of (disconnect_callback key h) ≤ count_of h

pub first_of_bind {ℓ κ} :
    {A : Type ℓ} {B : Type κ} (P : B → Type 0) (m : Outcome A) (f : A → Outcome B) {b : B}
    → ((a : A) → m ≡ ok a → f a ≡ ok b → P b)
    → (m >>= f) ≡ ok b
    → P b
first_of_bind P (ok a) f k e = k a refl e
first_of_bind P (fault x) f k e = cc

-- A receive does not change what the record is for.
system_writes-operation :
    (op : OperationType) (head : MessageHeader) (body : Bytes) (o : Overlapped) {o' : Overlapped}
    → system_writes op head body o ≡ ok o'
    → o'.operation ≡ o.operation
unfolding system_writes received
system_writes-operation op_recv head body o {o'} e =
    first_of_bind (λ r. r.operation ≡ o.operation) (memcpy o.body body) _
      (λ filled e' e''. ap (λ (r : Overlapped). r.operation) (same _ _ (sym e''))) e
  where
    same : (a b : Overlapped) → ok a ≡ ok b → a ≡ b
    same a b h = cc
system_writes-operation op_connect head body o {o'} e =
    let eq : o' ≡ o = cc in ap (λ (r : Overlapped). r.operation) eq
system_writes-operation op_accept head body o {o'} e =
    let eq : o' ≡ o = cc in ap (λ (r : Overlapped). r.operation) eq
system_writes-operation op_send head body o {o'} e =
    let eq : o' ≡ o = cc in ap (λ (r : Overlapped). r.operation) eq
system_writes-operation op_default head body o {o'} e =
    let eq : o' ≡ o = cc in ap (λ (r : Overlapped). r.operation) eq

module _ {H : Type 0} {iocp_callback : ℕ → Overlapped → H → Outcome H}
    {disconnect_callback : ℕ → H → H}
    (counter : AcceptCounter iocp_callback disconnect_callback) where
  open counter use {count_of, callback_counts, disconnect_counts}

  abbrev AtMost : ℕ → Outcome (H × NetworkManager) → Type 0
  AtMost m (ok (h, w)) = count_of h ≤ m
  AtMost m (fault e) = Unit

  AtMost-after {ℓ} :
      {A : Type ℓ} (m : ℕ) (r : Outcome A) (f : A → Outcome (H × NetworkManager))
      → ((a : A) → r ≡ ok a → AtMost m (f a))
      → AtMost m (r >>= f)
  AtMost-after m (ok a) f k = k a refl
  AtMost-after m (fault e) f k = tt

  AtMost-if :
      (m : ℕ) (b : Bool) (x y : Outcome (H × NetworkManager))
      → AtMost m x
      → AtMost m y
      → AtMost m (if b then x else y)
  AtMost-if m true x y h k = h
  AtMost-if m false x y h k = k

  handle_disconnect_complete-AtMost :
      (m key : ℕ) (h : H) (w : NetworkManager)
      → count_of h ≤ m
      → AtMost m (handle_disconnect_complete iocp_callback disconnect_callback key h w)
  unfolding handle_disconnect_complete
  handle_disconnect_complete-AtMost m key h w few =
      elim (Option-cases (find key w.connected_socket_map)) [
        | inl e ↦ rw (e, handle_disconnect_complete) few
        | inr (target, e) ↦
            rw (e, handle_disconnect_complete)
              (AtMost-after m (process_disconnect target w) _
                (λ closed e'. omega (arith, disconnect_counts key h)))
      ]

  on_completed-AtMost :
      (op : OperationType) (key bytes : ℕ) (o : Overlapped) (answer : Answer) (h : H)
      (w : NetworkManager)
      → o.operation ≡ op
      → AtMost
          (count_of h + accept_operation o.operation)
          (on_completed iocp_callback disconnect_callback op key bytes o answer h w)
  unfolding on_completed handle_connect_complete handle_accept_complete handle_receive_complete
      handle_send_complete
  on_completed-AtMost op_connect key bytes o answer h w e =
      AtMost-after _ (iocp_callback o.socket o h) _ (λ h' e'.
        AtMost-after _ (call_receive_ready o.socket answer _) _
          (λ r e''. callback_counts _ o h h' e'))
  on_completed-AtMost op_accept key bytes o answer h w e =
      AtMost-after _ (iocp_callback o.socket o h) _ (λ h' e'.
        AtMost-after _ (call_receive_ready o.socket answer _) _
          (λ r e''. callback_counts _ o h h' e'))
  on_completed-AtMost op_recv key bytes o answer h w e =
      AtMost-if _ (bytes == 0) _ _ (handle_disconnect_complete-AtMost _ key h w (omega arith)) (
        AtMost-after _ (iocp_callback key o h) _ (λ h' e'.
          AtMost-after _ (call_receive_ready o.socket answer _) _
            (λ r e''. callback_counts _ o h h' e')))
  on_completed-AtMost op_send key bytes o answer h w e =
      AtMost-after _ (iocp_callback key o h) _ (λ h' e'. callback_counts _ o h h' e')
  on_completed-AtMost op_default key bytes o answer h w e = omega arith

  on_failed-AtMost :
      (error : SocketError) (key : ℕ) (h : H) (w : NetworkManager)
      → AtMost (count_of h) (on_failed iocp_callback disconnect_callback error key h w)
  unfolding on_failed
  on_failed-AtMost wsaeconnreset key h w = handle_disconnect_complete-AtMost _ key h w (omega arith)
  on_failed-AtMost wsaeconnaborted key h w =
      handle_disconnect_complete-AtMost _ key h w (omega arith)
  on_failed-AtMost wsaenetreset key h w = handle_disconnect_complete-AtMost _ key h w (omega arith)
  on_failed-AtMost wsaetimedout key h w = handle_disconnect_complete-AtMost _ key h w (omega arith)
  on_failed-AtMost wsaenotconn key h w = handle_disconnect_complete-AtMost _ key h w (omega arith)
  on_failed-AtMost wsaeshutdown key h w = handle_disconnect_complete-AtMost _ key h w (omega arith)
  on_failed-AtMost error_netname_deleted key h w =
      handle_disconnect_complete-AtMost _ key h w (omega arith)
  on_failed-AtMost (other_error e) key h w = omega arith

  finish-AtMost :
      (m p : ℕ) (r : Outcome (H × NetworkManager))
      → AtMost m r
      → AtMost m (r >>= λ s. give_back p s.1 >>= λ w. ok (s.0, w))
  finish-AtMost m p (ok (h, w)) few = AtMost-after m (give_back p w) _ (λ w' e. few)
  finish-AtMost m p (fault e) few = tt

  AtMost-weaken : (m m' : ℕ) (r : Outcome (H × NetworkManager)) → m ≤ m' → AtMost m r → AtMost m' r
  AtMost-weaken m m' (ok (h, w)) le few = omega arith
  AtMost-weaken m m' (fault e) le few = tt

  process_completion-AtMost :
      (c : Completion) (h : H) (w : NetworkManager)
      → AtMost
          (count_of h + is_accept (w.heap (record_of c)))
          (process_completion iocp_callback disconnect_callback c h w)
  unfolding process_completion
  process_completion-AtMost (failed key p error) h w =
      finish-AtMost _ p (on_failed iocp_callback disconnect_callback error key h (dequeue p w))
        (AtMost-weaken _ _ _ (omega arith) (on_failed-AtMost error key h (dequeue p w)))
  process_completion-AtMost (completed key p bytes head body answer) h w =
      AtMost-after most (deref (w.heap p)) _ (λ o found.
        AtMost-after most (system_writes o.operation head body o) _ (λ written e.
          finish-AtMost most p _ (
            AtMost-weaken _ most _
              (enough o written found (system_writes-operation o.operation head body o e))
              (on_completed-AtMost o.operation key bytes written answer h _
                (system_writes-operation o.operation head body o e)))))
    where
      most : ℕ
      most = count_of h + is_accept (w.heap p)

      deref-ok :
          (m : Option Overlapped) (o : Overlapped)
          → deref m ≡ ok o
          → is_accept m ≡ accept_operation o.operation
      deref-ok none o e = cc
      deref-ok (some o') o e =
          let eq : o' ≡ o = cc in ap (λ (r : Overlapped). accept_operation r.operation) eq

      enough :
          (o written : Overlapped)
          → deref (w.heap p) ≡ ok o
          → written.operation ≡ o.operation
          → count_of h + accept_operation written.operation ≤ most
      enough o written found e = omega (arith, ap accept_operation e, deref-ok (w.heap p) o found)

  module _ (order : HostOrder) where
    -- What completions may add to the count by a call.
    abbrev completed_accept : Call → NetworkManager → ℕ
    completed_accept (completes c) w = is_accept (w.heap (record_of c))
    completed_accept (sets_up n found handles) w = 0
    completed_accept (prepares sender answer handles) w = 0
    completed_accept (connects sender handle bound found taken) w = 0
    completed_accept (sends target content_type buffer size taken) w = 0

    step-AtMost :
        (c : Call) (h : H) (w : NetworkManager)
        → AtMost
            (count_of h + completed_accept c w)
            (step order iocp_callback disconnect_callback c h w)
    unfolding step
    step-AtMost (sets_up n found handles) h w = omega arith
    step-AtMost (prepares sender answer handles) h w =
        AtMost-after _ (prepare_accept_socket sender answer handles w) _ (λ r e. omega arith)
    step-AtMost (connects sender handle bound found taken) h w =
        AtMost-after _ (setup_connect_socket sender handle bound found taken w) _
          (λ r e. omega arith)
    step-AtMost (sends target content_type buffer size taken) h w =
        AtMost-after _ (send_request order target content_type buffer size taken w) _
          (λ r e. omega arith)
    step-AtMost (completes c) h w = process_completion-AtMost c h w

    -- The bound that a call leaves, and what it may add to the count.
    after_lem :
        {n k : ℕ} (c : Call) {w : NetworkManager}
        → Possible c w
        → Owns n k [] w
        → completed_accept c w + after c w k ≤ k + prepares_of c
    after_lem (completes c) {w} possible owns =
        omega (arith, accepts-remove w.heap (record_of c) w.posted possible.0, owns.accepting)
    after_lem (prepares sender answer handles) possible owns = omega arith
    after_lem (sets_up most found handles) possible owns = omega arith
    after_lem (connects sender handle bound found taken) possible owns = omega arith
    after_lem (sends target content_type buffer size taken) possible owns = omega arith

    bounded :
        {n : ℕ} (sender : SenderType) (memory : ℕ → Fresh) (h : H) {h' : H} {w : NetworkManager}
        → ((a : ℕ) → length (memory a).1 ≡ buffer_size_max)
        → (r : Reach order iocp_callback disconnect_callback sender n memory h h' w)
        → (k : ℕ) × Owns n k [] w
          × (count_of h' + k ≤ count_of h + prepared order iocp_callback disconnect_callback r)
    bounded {n} sender memory h long start = (0, construct-Owns sender n memory long, omega arith)
    bounded {n} sender memory h {h' = h''} {w = w'} long
          (next {h' = h'} {w = w} c r possible steps) =
        let (k, owns, few) = bounded sender memory h long r in
        let left =
          subst (Leaves (Owns n (after c w k) [])) steps
            (step-Owns iocp_callback disconnect_callback order c h' possible owns) in
        let more : count_of h'' ≤ count_of h' + completed_accept c w =
          subst (AtMost (count_of h' + completed_accept c w)) steps (step-AtMost c h' w) in
        (after c w k, left, omega (arith, after_lem c possible owns))

    -- Whatever calls are made and completions arrive, of records that the system holds: the count
    -- of the hub, which grows by one at most at an accept and not otherwise, has grown by no more
    -- than the calls of PrepareAcceptSocket, less the accepts that the system still holds.
    pub Reach-accepts :
        {n : ℕ} (sender : SenderType) (memory : ℕ → Fresh) (h : H) {h' : H} {w : NetworkManager}
        → ((a : ℕ) → length (memory a).1 ≡ buffer_size_max)
        → (r : Reach order iocp_callback disconnect_callback sender n memory h h' w)
        → count_of h' + accepts w.heap w.posted
          ≤ count_of h + prepared order iocp_callback disconnect_callback r
    Reach-accepts sender memory h long r =
        let (k, owns, few) = bounded sender memory h long r in omega (arith, owns.accepting)
