-- ===== src/Network/Connecting.antt =====
-- A connection that is asked for and completes.
use iocp_j_server.Base.{
  update, ℕ, ◌-◌, ◌≤◌, ◌≡◌, ◌≢◌, refl, sym, subst, ◌∙◌, arith, true, none, some, List, [], ◌∷◌,
  ◌==◌, ==_refl, Outcome, ok, inl, inr, Bytes,
}
use iocp_j_server.Wire.{SenderType, MessageHeader}
use iocp_j_server.Overlapped.{Overlapped, SystemMembers, connect_setting, receive_setting}
use iocp_j_server.Overlapped.Clean.{
  blank, blank-IsClearable, connect_setting-IsClearable, receive_setting-IsClearable,
}
use iocp_j_server.Network.{
  NetworkManager, Answer, remove, insert, find, new_socket, hand_over, setup_connect_socket,
  call_receive_ready,
}
use iocp_j_server.Network.Completions.{
  completed, dequeue, give_back, system_writes, on_completed, handle_connect_complete,
  process_completion,
}
use iocp_j_server.Network.Conserved.{keep}
use iocp_j_server.Network.Ownership.{
  Owns, pool, count, is_accept, update_self, write-Owns, dequeue-Owns, take_overlapped-Owns,
  hand_over-Owns, give_back-Owns, give_back-blank,
}
use iocp_j_server.Network.Posting.{popped, reposted, regained, call_receive_ready-posts}

-- The record of a connection that is asked for.
abbrev pub connection : SystemMembers → ℕ → SenderType → Overlapped
connection m target sender = connect_setting target sender (blank m)

module _ {n k : ℕ} {w : NetworkManager} (owns : Owns n k [] w) (sender : SenderType) (handle : ℕ)
    (some_left : pool w ≢ []) where
  -- The manager with the new socket.
  abbrev with_socket : NetworkManager
  unfolding new_socket
  with_socket = (new_socket handle w).1

  pub setup_connect_socket-posts :
      (p : ℕ) × (m : SystemMembers) × (w' : NetworkManager) × (setup_connect_socket sender handle
          true true true w
        ≡ ok (true, w'))
      × Owns n k [] w'
      × (w'.posted ≡ p ∷ w.posted)
      × (w'.dropped ≡ w.dropped)
      × (w'.heap p ≡ some (connection m w.next_address sender))
      × (w'.sockets w.next_address ≡ some handle)
      × (w'.connected_socket_map ≡ w.connected_socket_map)
  unfolding setup_connect_socket new_socket hand_over connect_setting
  setup_connect_socket-posts =
      let fresh : Owns n k [] with_socket = keep _ _ _ _ _ _ owns in
      elim (take_overlapped-Owns fresh) [
        | inl (e, stops) ↦ absurd (some_left e)
        | inr (p, m, takes, owns') ↦ (
          p,
          m,
          hand_over p (connection m w.next_address sender) true (popped with_socket),
          rw takes refl,
          hand_over-Owns k p (connection m w.next_address sender) true (omega arith)
              (connect_setting-IsClearable w.next_address sender blank-IsClearable) owns',
          refl,
          refl,
          update_self w.heap p (some (connection m w.next_address sender)),
          update_self w.sockets w.next_address (some handle),
          refl,
        )
      ]

ok_injective {ℓ} : {A : Type ℓ} {a b : A} → ok a ≡ ok b → a ≡ b
ok_injective h = cc

find-insert :
    (key socket : ℕ) (m : List (ℕ × ℕ))
    → find key m ≡ none
    → find key (insert key socket m) ≡ some socket
unfolding find insert
find-insert key socket m unknown = rw (unknown, insert) (rw (==_refl key, find) refl)

module _ {H : Type 0} (iocp_callback : ℕ → Overlapped → H → Outcome H)
    (disconnect_callback : ℕ → H → H) {n k : ℕ} {w : NetworkManager} (owns : Owns n k [] w)
    (key p bytes target handle : ℕ) (sender : SenderType) (m : SystemMembers) (head : MessageHeader)
    (body : Bytes) (answer : Answer) (h h' : H) (held : 1 ≤ count p w.posted)
    (there : w.heap p ≡ some (connection m target sender)) (live : w.sockets target ≡ some handle)
    (works : (answer.error_code == 0) ≡ true) (taken : answer.taken ≡ true)
    (some_left : pool w ≢ []) (unknown : find target w.connected_socket_map ≡ none)
    (returns : iocp_callback target (connection m target sender) h ≡ ok h') where
  abbrev known : NetworkManager
  unfolding dequeue
  known = record (dequeue p w) {
    heap = update w.heap p (some (connection m target sender));
    connected_socket_map = insert target target w.connected_socket_map;
  }

  known-Owns : Owns n (k - is_accept (w.heap p)) (p ∷ []) known
  unfolding dequeue
  known-Owns = keep _ _ _ _ _ _ (
      write-Owns p (connection m target sender)
        (connect_setting-IsClearable target sender blank-IsClearable) (dequeue-Owns p held owns))

  round :
      (q : ℕ) (m' : SystemMembers) (w2 : NetworkManager)
      → call_receive_ready target answer known ≡ ok (true, reposted q m' target known)
      → give_back p (reposted q m' target known) ≡ ok w2
      → process_completion iocp_callback disconnect_callback
          (completed key p bytes head body answer)
          h
          w
        ≡ ok (h', w2)
  unfolding process_completion handle_connect_complete on_completed system_writes dequeue
      connect_setting
  round q m' w2 posts gives = rw (there, returns, posts, gives) refl

  -- The round: the hub is called, the connection entered, and a receive posted.
  pub process_completion-connects :
      (q : ℕ) × (w' : NetworkManager) × (process_completion iocp_callback disconnect_callback
          (completed key p bytes head body answer)
          h
          w
        ≡ ok (h', w'))
      × Owns n (k - is_accept (w.heap p)) [] w'
      × (w'.posted ≡ q ∷ remove p w.posted)
      × (w'.dropped ≡ w.dropped)
      × (w'.sockets target ≡ some handle)
      × (find target w'.connected_socket_map ≡ some target)
  unfolding dequeue hand_over receive_setting
  process_completion-connects =
      let (q, m', posts, owns1) =
        call_receive_ready-posts known-Owns target handle answer live works some_left taken in
      let w1 = reposted q m' target known in
      let owns2 : Owns n (k - is_accept (w.heap p)) (p ∷ []) w1 =
        hand_over-Owns (k - is_accept (w.heap p)) q (receive_setting target (blank m')) true
          (omega arith) (receive_setting-IsClearable target blank-IsClearable) owns1 in
      let (w', gives, owns') = give_back-Owns p owns2 in
      let (back, regains) = give_back-blank p owns2 in
      let same : w' ≡ regained p back w1 = ok_injective (sym gives ∙ regains) in
      (
        q,
        regained p back w1,
        round q m' (regained p back w1) posts regains,
        subst (Owns n (k - is_accept (w.heap p)) []) same owns',
        refl,
        refl,
        live,
        find-insert target target w.connected_socket_map unknown,
      )
