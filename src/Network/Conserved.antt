-- ===== src/Network/Conserved.antt =====
-- What each call of the manager does to the places of the overlapped records.
use iocp_j_server.Base.{
  ℕ, zero, suc, ◌+◌, ◌≤◌, ◌≡◌, refl, arith, Bool, true, false, Option, List, ◌==◌, ltb,
  if◌then◌else◌, Bool-cases, Option-cases, inl, inr, Outcome, ok, fault, ◌>>=◌, Bytes,
}
use iocp_j_server.CircleQueue
use iocp_j_server.CircleQueue.{Queue, print, size}
use iocp_j_server.Wire.{SenderType, HostOrder, send_header, string_of}
use iocp_j_server.Overlapped.{
  SystemMembers, Overlapped, accept_setting, connect_setting, receive_setting, send_setting,
}
use iocp_j_server.Overlapped.Clean.{
  IsClearable, blank, blank-IsClearable, connect_setting-IsClearable, accept_setting-IsClearable,
  receive_setting-IsClearable, send_setting-IsClearable, send_setting-operation,
}
use iocp_j_server.Network.{
  NetworkManager, Answer, post_accept, find, invalid_socket, pointers, deref, new_socket,
  fill_socket_queue, setup_listen_socket, take_overlapped, hand_over, prepare_accept_socket,
  setup_connect_socket, call_receive_ready, process_disconnect, send_request,
}
use iocp_j_server.Network.Ownership.{accept_operation, Owns, take_overlapped-Owns, hand_over-Owns}

-- What a call that returns leaves.
abbrev pub Leaves {ℓ κ} :
    {A : Type ℓ} → (NetworkManager → Type κ) → Outcome (A × NetworkManager) → Type κ
Leaves P (ok (a, w)) = P w
Leaves P (fault e) = Unit

pub Leaves-bind {ℓ κ μ ν} :
    {A : Type ℓ} {B : Type κ} (P : NetworkManager → Type μ) (Q : NetworkManager → Type ν)
    (m : Outcome (A × NetworkManager)) (f : A × NetworkManager → Outcome (B × NetworkManager))
    → Leaves P m
    → ((a : A) (w : NetworkManager) → P w → Leaves Q (f (a, w)))
    → Leaves Q (m >>= f)
Leaves-bind P Q (ok (a, w)) f p k = k a w p
Leaves-bind P Q (fault e) f p k = tt

-- What follows a step that does not touch the manager.
pub Leaves-after {ℓ κ μ} :
    {A : Type ℓ} {B : Type κ} (Q : NetworkManager → Type μ) (m : Outcome A)
    (f : A → Outcome (B × NetworkManager))
    → ((a : A) → m ≡ ok a → Leaves Q (f a))
    → Leaves Q (m >>= f)
Leaves-after Q (ok a) f k = k a refl
Leaves-after Q (fault e) f k = tt

pub Leaves-if {ℓ κ} :
    {A : Type ℓ} (Q : NetworkManager → Type κ) (b : Bool) (x y : Outcome (A × NetworkManager))
    → Leaves Q x
    → Leaves Q y
    → Leaves Q (if b then x else y)
Leaves-if Q true x y h k = h
Leaves-if Q false x y h k = k

module _ {n k : ℕ} {extra : List ℕ} where
  -- The other fields do not matter.
  pub keep :
      {w : NetworkManager} (listen : ℕ) (sockets : ℕ → Option ℕ) (address : ℕ) (prepared : Queue ℕ)
      (connected : List (ℕ × ℕ)) (most : ℕ)
      → Owns n k extra w
      → Owns n k extra (record w {
        listen_socket = listen;
        sockets = sockets;
        next_address = address;
        prepared_socket_queue = prepared;
        connected_socket_map = connected;
        prepare_socket_max = most;
      })
  keep listen sockets address prepared connected most owns = record {
    valid = owns.valid;
    max = owns.max;
    total = owns.total;
    counts = owns.counts;
    cells = owns.cells;
    accepting = owns.accepting;
  }

  -- A record is taken, set up and handed over.
  submit-Owns :
      {w : NetworkManager} (k' : ℕ) (set : Overlapped → Overlapped) (taken : Bool)
      → ((m : SystemMembers) → k + accept_operation (set (blank m)).operation ≤ k')
      → ((m : SystemMembers) → IsClearable (set (blank m)))
      → Owns n k extra w
      → Leaves
          (Owns n k' extra)
          (take_overlapped w >>= λ r. ok (taken, hand_over r.0.0 (set r.0.1) taken r.1))
  submit-Owns {w} k' set taken more clean owns = elim (take_overlapped-Owns owns) [
    | inl (e, stops) ↦ rw stops tt
    | inr (p, m, takes, owns') ↦
        rw takes (hand_over-Owns k' p (set (blank m)) taken (more m) (clean m) owns')
  ]

  fill_socket_queue-Owns :
      (rounds : ℕ) (handles : ℕ → ℕ) {w : NetworkManager}
      → Owns n k extra w
      → Owns n k extra (fill_socket_queue rounds handles w)
  unfolding fill_socket_queue new_socket
  fill_socket_queue-Owns zero handles owns = owns
  fill_socket_queue-Owns (suc rounds) handles owns =
      fill_socket_queue-Owns rounds handles (keep _ _ _ _ _ _ owns)

  pub setup_listen_socket-Owns :
      (most : ℕ) (found : Bool) (handles : ℕ → ℕ) {w : NetworkManager}
      → Owns n k extra w
      → Owns n k extra (setup_listen_socket most found handles w)
  unfolding setup_listen_socket new_socket
  setup_listen_socket-Owns most true handles owns =
      fill_socket_queue-Owns most handles (keep _ _ _ _ _ _ owns)
  setup_listen_socket-Owns most false handles owns = keep _ _ _ _ _ _ owns

  -- A weaker bound.
  grow : {w : NetworkManager} → Owns n k extra w → Owns n (suc k) extra w
  grow owns = record {
    valid = owns.valid;
    max = owns.max;
    total = owns.total;
    counts = owns.counts;
    cells = owns.cells;
    accepting = omega (arith, owns.accepting);
  }

  post_accept-Owns :
      (sender : SenderType) (answer : Answer) {w : NetworkManager}
      → Owns n k extra w
      → Leaves (Owns n (suc k) extra) (post_accept sender answer w)
  unfolding post_accept accept_setting
  post_accept-Owns sender answer {w} owns =
      let s = (CircleQueue.pop pointers w.prepared_socket_queue).0 in
      Leaves-after (Owns n (suc k) extra) (deref (w.sockets s)) _ (λ handle e.
        Leaves-if (Owns n (suc k) extra) (answer.error_code == 0) _ _
          (Leaves-after (Owns n (suc k) extra) (deref (w.sockets w.listen_socket)) _ (λ listen e'.
            submit-Owns (suc k) (accept_setting s sender) answer.taken (λ m. omega arith)
              (λ m. accept_setting-IsClearable s sender blank-IsClearable) (keep _ _ _ _ _ _ owns)))
          (grow (keep _ _ _ _ _ _ owns)))

  pub prepare_accept_socket-Owns :
      (sender : SenderType) (answer : Answer) (handles : ℕ → ℕ) {w : NetworkManager}
      → Owns n k extra w
      → Leaves (Owns n (suc k) extra) (prepare_accept_socket sender answer handles w)
  unfolding prepare_accept_socket
  prepare_accept_socket-Owns sender answer handles {w} owns =
      Leaves-if (Owns n (suc k) extra) (ltb (size w.prepared_socket_queue) 1) _ _
        (post_accept-Owns sender answer (fill_socket_queue-Owns w.prepare_socket_max handles owns))
        (post_accept-Owns sender answer owns)

  pub setup_connect_socket-Owns :
      (sender : SenderType) (handle : ℕ) (bound found taken : Bool) {w : NetworkManager}
      → Owns n k extra w
      → Leaves (Owns n k extra) (setup_connect_socket sender handle bound found taken w)
  unfolding setup_connect_socket new_socket connect_setting
  setup_connect_socket-Owns sender handle true true taken {w} owns =
      submit-Owns k (connect_setting w.next_address sender) taken (λ m. omega arith)
        (λ m. connect_setting-IsClearable _ sender blank-IsClearable) (keep _ _ _ _ _ _ owns)
  setup_connect_socket-Owns sender handle true false taken owns = keep _ _ _ _ _ _ owns
  setup_connect_socket-Owns sender handle false found taken owns = owns

  pub call_receive_ready-Owns :
      (target : ℕ) (answer : Answer) {w : NetworkManager}
      → Owns n k extra w
      → Leaves (Owns n k extra) (call_receive_ready target answer w)
  unfolding call_receive_ready receive_setting
  call_receive_ready-Owns target answer {w} owns =
      Leaves-after (Owns n k extra) (deref (w.sockets target)) _ (λ handle e.
        Leaves-if (Owns n k extra) (answer.error_code == 0) _ _
          (submit-Owns k (receive_setting target) answer.taken (λ m. omega arith)
            (λ m. receive_setting-IsClearable target blank-IsClearable) owns)
          owns)

  pub process_disconnect-Owns :
      (target : ℕ) {w : NetworkManager}
      → Owns n k extra w
      → Leaves (Owns n k extra) (process_disconnect target w)
  unfolding process_disconnect
  process_disconnect-Owns target {w} owns = Leaves-if (Owns n k extra) (target == 0) _ _ owns (
      Leaves-after (Owns n k extra) (deref (w.sockets target)) _ (λ handle e.
        elim (Bool-cases (handle == invalid_socket)) [
          | inl bad ↦ rw bad owns
          | inr good ↦ rw good (keep _ _ _ _ _ _ owns)
        ]))

  pub send_request-Owns :
      (order : HostOrder) (target content_type : ℕ) (buffer : Bytes) (size : ℕ) (taken : Bool)
      {w : NetworkManager}
      → Owns n k extra w
      → Leaves (Owns n k extra) (send_request order target content_type buffer size taken w)
  unfolding send_request
  send_request-Owns order target content_type buffer size taken {w} owns =
      elim (Option-cases (find target w.connected_socket_map)) [
        | inl e ↦ rw (e, send_request) owns
        | inr (socket, e) ↦
            rw (e, send_request)
              (elim (take_overlapped-Owns owns) [
                | inl (_, stops) ↦ rw stops tt
                | inr (p, m, takes, owns') ↦ rw takes (
                    Leaves-after (Owns n k extra) (string_of buffer size) _ (λ body eb.
                      Leaves-after (Owns n k extra)
                        (send_setting socket (send_header order w.sender_type content_type size)
                          body (blank m))
                        _
                        (λ o eo.
                          Leaves-after (Owns n k extra) (deref (w.sockets socket)) _ (λ handle eh.
                            hand_over-Owns k p o taken
                              (rw (send_setting-operation _ _ body m eo) (omega arith))
                              (send_setting-IsClearable _ _ body m eo) owns'))))
              ])
      ]
