-- ===== src/AuthHub/Alike.antt =====
-- The auth server beside a lobby server, under the same reports of the network.
use iocp_j_server.Base.{
  ℕ, ◌≡◌, refl, ap, sym, ◌∙◌, Option, some, Bool-cases, inl, inr, Option-cases, List, [], ◌∷◌,
  Bytes, Outcome, ok, fault, ◌>>=◌,
}
use iocp_j_server.CircleQueue
use iocp_j_server.CircleQueue.{Queue}
use iocp_j_server.Wire.{
  SenderType, unset, control_server, auth_server, lobby_server, client, OperationType, op_default,
  op_connect, op_accept, op_recv, op_send, HostOrder, receive_packet, Packet,
}
use iocp_j_server.Overlapped.{Overlapped}
use iocp_j_server.LobbyJobs.{LobbyJob}
use iocp_j_server.LobbyHub
use iocp_j_server.LobbyHub.{
  LobbyHub, shared, on_accept, on_connect, client_accepted, control_connected,
}
use iocp_j_server.AuthHub
use iocp_j_server.AuthHub.{AuthHub}

-- A report of the network, or a round of the receive thread.
pub data Round : Type 0 where
  completes : ℕ → Overlapped → Round
  disconnects : ℕ → Round
  receives : Round

module _ (order : HostOrder) where
  abbrev pub lobby_round : Round → LobbyHub → Outcome LobbyHub
  lobby_round (completes key o) h = LobbyHub.process_iocp order key o h
  lobby_round (disconnects key) h = ok (LobbyHub.process_disconnect key h)
  lobby_round receives h = LobbyHub.receive_round h

  abbrev pub auth_round : Round → AuthHub → Outcome AuthHub
  auth_round (completes key o) h = AuthHub.process_iocp order key o h
  auth_round (disconnects key) h = ok (AuthHub.process_disconnect key h)
  auth_round receives h = AuthHub.receive_round h

  abbrev pub lobby_rounds : List Round → LobbyHub → Outcome LobbyHub
  lobby_rounds [] h = ok h
  lobby_rounds (r ∷ rs) h = lobby_round r h >>= λ h'. lobby_rounds rs h'

  abbrev pub auth_rounds : List Round → AuthHub → Outcome AuthHub
  auth_rounds [] h = ok h
  auth_rounds (r ∷ rs) h = auth_round r h >>= λ h'. auth_rounds rs h'

module _ (jobs : Queue (Option LobbyJob)) where
  -- Both return, with the same packets and those jobs, or both end in the same fault.
  abbrev pub Alike : Outcome AuthHub → Outcome LobbyHub → Type 0
  Alike (ok a) (ok l) = (a.packet_queue ≡ l.packet_queue) × (a.job_queue ≡ jobs)
  Alike (fault e) (fault e') = e ≡ e'
  Alike (ok a) (fault e') = ⊥
  Alike (fault e) (ok l) = ⊥

  Alike-bind :
      (m : Outcome AuthHub) (n : Outcome LobbyHub) (f : AuthHub → Outcome AuthHub)
      (g : LobbyHub → Outcome LobbyHub)
      → Alike m n
      → ((a : AuthHub) (l : LobbyHub) → Alike (ok a) (ok l) → Alike (f a) (g l))
      → Alike (m >>= f) (n >>= g)
  Alike-bind (ok a) (ok l) f g same next = next a l same
  Alike-bind (fault e) (fault e') f g same next = same
  Alike-bind (ok a) (fault e') f g same next = absurd same
  Alike-bind (fault e) (ok l) f g same next = absurd same

  on_accept-packets :
      (s : SenderType) (key : ℕ) (l : LobbyHub) → (on_accept s key l).packet_queue ≡ l.packet_queue
  unfolding client_accepted
  on_accept-packets unset key l = refl
  on_accept-packets control_server key l = refl
  on_accept-packets auth_server key l = refl
  on_accept-packets lobby_server key l = refl
  on_accept-packets client key l = refl

  on_connect-packets :
      (s : SenderType) (key : ℕ) (l : LobbyHub) → (on_connect s key l).packet_queue ≡ l.packet_queue
  unfolding control_connected
  on_connect-packets unset key l = refl
  on_connect-packets control_server key l = refl
  on_connect-packets auth_server key l = refl
  on_connect-packets lobby_server key l = refl
  on_connect-packets client key l = refl

  packet-Alike :
      (packet : Outcome Packet) (a : AuthHub) (l : LobbyHub)
      → Alike (ok a) (ok l)
      → Alike
          (packet >>= λ p.
            ok (record a { packet_queue = (CircleQueue.push (some p) a.packet_queue).1 }))
          (packet >>= λ p.
            ok (record l { packet_queue = (CircleQueue.push (some p) l.packet_queue).1 }))
  packet-Alike (ok p) a l (same, none_new) =
      (ap (λ q. (CircleQueue.push (some p) q).1) same, none_new)
  packet-Alike (fault e) a l same = refl

  receive_round-Alike :
      (a : AuthHub) (l : LobbyHub)
      → Alike (ok a) (ok l)
      → Alike (AuthHub.receive_round a) (LobbyHub.receive_round l)
  unfolding AuthHub.receive_round LobbyHub.receive_round
  receive_round-Alike a l (same, none_new) =
      let same_empty = ap CircleQueue.empty same in
      let same_pop = ap (CircleQueue.pop shared) same in
      elim (Bool-cases (CircleQueue.empty l.packet_queue)) [
        | inl nothing ↦ rw (same_empty ∙ nothing, nothing) (same, none_new)
        | inr something ↦
            rw (same_empty ∙ something, something)
              (elim (Option-cases (CircleQueue.pop shared l.packet_queue).0) [
                | inl null ↦ rw (ap (λ r. r.0) same_pop ∙ null, null) refl
                | inr (p, there) ↦
                    rw (ap (λ r. r.0) same_pop ∙ there, there) (ap (λ r. r.1) same_pop, none_new)
              ])
      ]

  module _ (order : HostOrder) where
    on_completion-Alike :
        (op : OperationType) (key : ℕ) (o : Overlapped) (a : AuthHub) (l : LobbyHub)
        → Alike (ok a) (ok l)
        → Alike (AuthHub.on_completion order op key o a) (LobbyHub.on_completion order op key o l)
    unfolding AuthHub.packet_received LobbyHub.packet_received
    on_completion-Alike op_recv key o a l same =
        packet-Alike (receive_packet order key o.head o.body) a l same
    on_completion-Alike op_accept key o a l (same, none_new) =
        (same ∙ sym (on_accept-packets o.sender key l), none_new)
    on_completion-Alike op_connect key o a l (same, none_new) =
        (same ∙ sym (on_connect-packets o.sender key l), none_new)
    on_completion-Alike op_send key o a l same = same
    on_completion-Alike op_default key o a l same = same

    round-Alike :
        (r : Round) (a : AuthHub) (l : LobbyHub)
        → Alike (ok a) (ok l)
        → Alike (auth_round order r a) (lobby_round order r l)
    unfolding AuthHub.process_iocp LobbyHub.process_iocp AuthHub.process_disconnect
        LobbyHub.process_disconnect
    round-Alike (completes key o) a l same = on_completion-Alike o.operation key o a l same
    round-Alike (disconnects key) a l same = same
    round-Alike receives a l same = receive_round-Alike a l same

    rounds-Alike :
        (rs : List Round) (a : AuthHub) (l : LobbyHub)
        → Alike (ok a) (ok l)
        → Alike (auth_rounds order rs a) (lobby_rounds order rs l)
    rounds-Alike [] a l same = same
    rounds-Alike (r ∷ rs) a l same =
        Alike-bind (auth_round order r a) (lobby_round order r l) (auth_rounds order rs)
          (lobby_rounds order rs) (round-Alike r a l same)
          (λ a' l' same'. rounds-Alike rs a' l' same')

-- From Construct on, with queues of the same capacity, under any reports of the network and rounds of
-- the receive thread, in any order: the auth server returns or faults as a lobby server does, and it
-- keeps the same packets; but whatever it receives, no job is ever queued.
pub auth_rounds-construct :
    (order : HostOrder) (rs : List Round) (key key' : Bytes)
    (port port' jobs jobs' packets capacity : ℕ)
    → Alike
        (CircleQueue.construct shared jobs)
        (auth_rounds order rs (AuthHub.construct key port jobs packets))
        (lobby_rounds order rs (LobbyHub.construct key' port' jobs' packets capacity))
unfolding AuthHub.construct LobbyHub.construct
auth_rounds-construct order rs key key' port port' jobs jobs' packets capacity =
    rounds-Alike (CircleQueue.construct shared jobs) order rs _ _ (refl, refl)
