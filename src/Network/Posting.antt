-- ===== src/Network/Posting.antt =====
-- When a receive is posted again, and when the pool has no record for it.
use iocp_j_server.Base.{
  update, ℕ, ◌-◌, ◌≤◌, ◌≡◌, ◌≢◌, refl, sym, subst, ◌∙◌, arith, true, false, some, List, [], ◌∷◌,
  ◌++◌, drop, ◌==◌, null_pointer, Outcome, ok, fault, ◌>>=◌, inl, inr, length, Bytes,
}
use iocp_j_server.CircleQueue
use iocp_j_server.Wire.{MessageHeader, op_recv}
use iocp_j_server.Overlapped.{Overlapped, SystemMembers, receive_setting}
use iocp_j_server.Overlapped.Clean.{
  IsClearable, blank, blank-IsClearable, received-fits, filled-IsClearable,
  receive_setting-IsClearable,
}
use iocp_j_server.Network.{NetworkManager, Answer, pointers, remove, hand_over, call_receive_ready}
use iocp_j_server.Network.Completions.{
  completed, dequeue, give_back, system_writes, on_completed, handle_receive_complete,
  process_completion,
}
use iocp_j_server.Network.Ownership.{
  Owns, apart, GoodCell, pool, count, is_accept, update_self, write-Owns, dequeue-Owns,
  take_overlapped-Owns, take_overlapped-empty, hand_over-Owns, give_back-blank,
}

-- The pool without its oldest record, and the manager that has posted a receive with that record.
abbrev pub popped : NetworkManager → NetworkManager
popped w = record w { overlapped_queue = (CircleQueue.pop pointers w.overlapped_queue).1 }

abbrev pub reposted : ℕ → SystemMembers → ℕ → NetworkManager → NetworkManager
reposted q m target w = record (popped w) {
  heap = update w.heap q (some (receive_setting target (blank m)));
  posted = q ∷ w.posted;
}

-- The manager that has taken a record back.
abbrev pub regained : ℕ → SystemMembers → NetworkManager → NetworkManager
regained p m w = record w {
  heap = update w.heap p (some (blank m));
  overlapped_queue = (CircleQueue.push p w.overlapped_queue).1;
}

update-other {ℓ} :
    {A : Type ℓ} (f : ℕ → A) (p q : ℕ) (a : A) → (p == q) ≡ false → update f p a q ≡ f q
update-other f p q a h = rw h

module _ {n k : ℕ} {extra : List ℕ} {w : NetworkManager} (owns : Owns n k extra w)
    (target handle : ℕ) (answer : Answer) (live : w.sockets target ≡ some handle)
    (works : (answer.error_code == 0) ≡ true) where
  -- With a record in the pool, a receive is set up on the socket and handed over.
  pub call_receive_ready-posts :
      pool w ≢ []
      → answer.taken ≡ true
      → (q : ℕ) × (m : SystemMembers) × (call_receive_ready target answer w
          ≡ ok (true, reposted q m target w))
        × Owns n k (q ∷ extra) (popped w)
  unfolding call_receive_ready hand_over
  call_receive_ready-posts some_left taken = elim (take_overlapped-Owns owns) [
    | inl (e, stops) ↦ absurd (some_left e)
    | inr (q, m, takes, owns') ↦ (q, m, rw (live, works, takes, taken), owns')
  ]

  -- With none, the null pointer of the empty pool is followed.
  call_receive_ready-empty : pool w ≡ [] → call_receive_ready target answer w ≡ fault null_pointer
  unfolding call_receive_ready
  call_receive_ready-empty e = rw (live, works, take_overlapped-empty owns e)

module _ {H : Type 0} (iocp_callback : ℕ → Overlapped → H → Outcome H)
    (disconnect_callback : ℕ → H → H) {n k : ℕ} {w : NetworkManager} (owns : Owns n k [] w)
    (key p bytes handle : ℕ) (head : MessageHeader) (body : Bytes) (answer : Answer)
    (o : Overlapped) (h h' : H) (held : 1 ≤ count p w.posted) (there : w.heap p ≡ some o)
    (receives : o.operation ≡ op_recv) (fits : length body ≤ o.body_len)
    (some_bytes : (bytes == 0) ≡ false) (live : w.sockets o.socket ≡ some handle)
    (works : (answer.error_code == 0) ≡ true)
    (returns : iocp_callback key
        (record o { head = head; body = body ++ drop (length body) o.body })
        h
      ≡ ok h') where
  abbrev written : Overlapped
  written = record o { head = head; body = body ++ drop (length body) o.body }

  abbrev given : NetworkManager
  unfolding dequeue
  given = record (dequeue p w) { heap = update w.heap p (some written) }

  clean : IsClearable o
  clean = let c : GoodCell n p (some o) = subst (GoodCell n p) there (owns.cells p) in c.1

  given-Owns : Owns n (k - is_accept (w.heap p)) (p ∷ []) given
  unfolding dequeue
  given-Owns =
      write-Owns p written (filled-IsClearable head body fits clean) (dequeue-Owns p held owns)

  -- The round, as far as the handler.
  abbrev finish : Outcome (H × NetworkManager) → Outcome (H × NetworkManager)
  finish r = r >>= λ s. give_back p s.1 >>= λ w'. ok (s.0, w')

  round_lem :
      process_completion iocp_callback disconnect_callback
        (completed key p bytes head body answer)
        h
        w
      ≡ finish (
          handle_receive_complete iocp_callback disconnect_callback key bytes written answer h
            given)
  unfolding process_completion dequeue on_completed system_writes
  round_lem = rw there (
      subst
        (λ op.
          (system_writes op head body o >>= λ wr. finish (
            on_completed iocp_callback disconnect_callback op key bytes wr answer h
              (record (dequeue p w) { heap = update w.heap p (some wr) })))
          ≡ finish (
              handle_receive_complete iocp_callback disconnect_callback key bytes written answer h
                given))
        (sym receives) (rw (received-fits head body o (omega (arith, clean.room, clean.within)))))

  -- A receive of some bytes completes, of a record that the system holds; the socket is live and has
  -- no error, and the hub's callback returns. With no record in the pool, the round ends in a fault:
  -- the null pointer of the empty pool is followed.
  pub process_completion-exhausted :
      pool w ≡ []
      → process_completion iocp_callback disconnect_callback
          (completed key p bytes head body answer)
          h
          w
        ≡ fault null_pointer
  unfolding handle_receive_complete dequeue
  process_completion-exhausted e =
      round_lem
      ∙ rw (
        some_bytes,
        returns,
        call_receive_ready-empty given-Owns o.socket handle answer live works e,
      )

  -- A receive of some bytes completes, of a record that the system holds; the socket is live and
  -- has no error, and the hub's callback returns. With a record in the pool, and if the system
  -- takes the next receive, the round returns: the next receive on that socket is with the system,
  -- in place of the record that came back, which is blank again but for the members that OVERLAPPED
  -- has itself.
  pub process_completion-posts :
      pool w ≢ []
      → answer.taken ≡ true
      → (q : ℕ) × (m m' : SystemMembers) × (w' : NetworkManager) × (process_completion iocp_callback
            disconnect_callback
            (completed key p bytes head body answer)
            h
            w
          ≡ ok (h', w'))
        × (w'.posted ≡ q ∷ remove p w.posted)
        × (w'.heap q ≡ some (receive_setting o.socket (blank m)))
        × (w'.heap p ≡ some (blank m'))
  unfolding handle_receive_complete dequeue receive_setting hand_over
  process_completion-posts some_left taken =
      let (q, m, posts, owns1) =
        call_receive_ready-posts given-Owns o.socket handle answer live works some_left taken in
      let w1 = reposted q m o.socket given in
      let (m', gives) = give_back-blank p (
        hand_over-Owns (k - is_accept (w.heap p)) q (receive_setting o.socket (blank m)) true
          (omega arith) (receive_setting-IsClearable o.socket blank-IsClearable) owns1) in
      (
        q,
        m,
        m',
        regained p m' w1,
        round_lem ∙ rw (some_bytes, returns, posts, gives),
        refl,
        update-other w1.heap p q (some (blank m')) (apart p q owns1) ∙ update_self given.heap q _,
        update_self w1.heap p (some (blank m')),
      )
