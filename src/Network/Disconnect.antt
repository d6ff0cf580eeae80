-- ===== src/Network/Disconnect.antt =====
-- What a lost connection leaves.
use iocp_j_server.Base.{
  zero, suc, ◌≤◌, ◌++◌, length, drop, arith, ◌>>=◌, update, ℕ, ◌≡◌, refl, Bool, false, none, some,
  List, [], ◌∷◌, ◌==◌, ==_refl, Bool-cases, inl, inr, Bytes, null_pointer, Outcome, ok, fault,
}
use iocp_j_server.Wire.{HostOrder, MessageHeader}
use iocp_j_server.Overlapped.{Overlapped, SystemMembers, receive_setting, buffer_size_max}
use iocp_j_server.Overlapped.Clean.{blank, length-blank, received-fits}
use iocp_j_server.Network.{
  NetworkManager, Answer, invalid_socket, find, unsafe_erase, process_disconnect,
  call_receive_ready, send_request,
}
use iocp_j_server.Network.Completions.{
  completed, dequeue, on_completed, system_writes, process_completion, handle_receive_complete,
  handle_disconnect_complete,
}

find-unsafe_erase : (k : ℕ) (m : List (ℕ × ℕ)) → find k (unsafe_erase k m) ≡ none
unfolding find unsafe_erase
find-unsafe_erase k [] = refl
find-unsafe_erase k ((j, s) ∷ m) = elim (Bool-cases (k == j)) [
  | inl same ↦ rw same (find-unsafe_erase k m)
  | inr other ↦ rw (other, other) (find-unsafe_erase k m)
]

-- The manager without the connection.
abbrev pub without : ℕ → ℕ → NetworkManager → NetworkManager
without key target w = record w {
  sockets = update w.sockets target none;
  connected_socket_map = unsafe_erase key w.connected_socket_map;
}

-- A receive record with what has arrived in it.
abbrev pub arrived : ℕ → SystemMembers → MessageHeader → Bytes → Overlapped
unfolding receive_setting
arrived target m head body = record (receive_setting target (blank m)) {
  head = head;
  body = body ++ drop (length body) (blank m).body;
}

module _ {H : Type 0} (iocp_callback : ℕ → Overlapped → H → Outcome H)
    (disconnect_callback : ℕ → H → H) (key : ℕ) where
  -- The same connection, reported as lost so many times.
  unfoldable pub reports : ℕ → H → NetworkManager → Outcome (H × NetworkManager)
  reports zero h w = ok (h, w)
  reports (suc n) h w =
      handle_disconnect_complete iocp_callback disconnect_callback key h w >>= λ s.
      reports n s.0 s.1

module _ {H : Type 0} (iocp_callback : ℕ → Overlapped → H → Outcome H)
    (disconnect_callback : ℕ → H → H) (key target : ℕ) (w : NetworkManager) where
  -- Where the connection is not known any more, more reports change nothing.
  reports-ignored :
      (n : ℕ) (h : H)
      → reports iocp_callback disconnect_callback key n h (without key target w)
        ≡ ok (h, without key target w)
  unfolding reports handle_disconnect_complete
  reports-ignored zero h = refl
  reports-ignored (suc n) h =
      rw (find-unsafe_erase key w.connected_socket_map, handle_disconnect_complete)
        (reports-ignored n h)

  -- A receive of some bytes that was posted on the socket completes after it was deleted.
  receive-faults :
      (p bytes : ℕ) (m : SystemMembers) (head : MessageHeader) (body : Bytes) (answer : Answer)
      (h h' : H)
      → w.heap p ≡ some (receive_setting target (blank m))
      → length body ≤ buffer_size_max
      → (bytes == 0) ≡ false
      → iocp_callback key (arrived target m head body) h ≡ ok h'
      → process_completion iocp_callback disconnect_callback
          (completed key p bytes head body answer)
          h
          (without key target w)
        ≡ fault null_pointer
  unfolding process_completion dequeue on_completed system_writes handle_receive_complete
      call_receive_ready receive_setting
  receive-faults p bytes m head body answer h h' there fits some_bytes returns =
      rw
        (
          there,
          received-fits head body (receive_setting target (blank m))
              (omega (arith, fits, length-blank m)),
          some_bytes,
          returns,
          ==_refl target,
        )
        refl

  -- A known connection, its socket open, that is reported as lost once or more often: the hub's
  -- ProcessDisconnect is called just once, the socket is deleted, the connection is out of the map,
  -- and a send to it does nothing. If then a receive of some bytes completes that was posted on the
  -- socket before, and the hub's callback returns, the round follows the deleted pointer.
  pub reports-lost :
      (handle p bytes : ℕ) (m : SystemMembers) (head : MessageHeader) (body : Bytes)
      (answer : Answer) (h h1 h2 : H)
      → find key w.connected_socket_map ≡ some target
      → w.sockets target ≡ some handle
      → (target == 0) ≡ false
      → (handle == invalid_socket) ≡ false
      → w.heap p ≡ some (receive_setting target (blank m))
      → length body ≤ buffer_size_max
      → (bytes == 0) ≡ false
      → iocp_callback key (arrived target m head body) h1 ≡ ok h2
      → ((n : ℕ)
          → reports iocp_callback disconnect_callback key (suc n) h w
            ≡ ok (disconnect_callback key h, without key target w))
        × ((order : HostOrder) (content_type : ℕ) (buffer : Bytes) (size : ℕ) (taken : Bool)
            → send_request order key content_type buffer size taken (without key target w)
              ≡ ok (false, without key target w))
        × (process_completion iocp_callback disconnect_callback
              (completed key p bytes head body answer)
              h1
              (without key target w)
            ≡ fault null_pointer)
  unfolding reports handle_disconnect_complete send_request process_disconnect
  reports-lost handle p bytes m head body answer h h1 h2 known live not_null not_closed there fits
        some_bytes returns =
      (
        λ n.
            rw (known, handle_disconnect_complete)
              (rw (not_null, live, not_closed) (reports-ignored n (disconnect_callback key h))),
        λ order content_type buffer size taken.
            rw (find-unsafe_erase key w.connected_socket_map, send_request),
        receive-faults p bytes m head body answer h1 h2 there fits some_bytes returns,
      )
