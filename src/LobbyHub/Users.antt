-- ===== src/LobbyHub/Users.antt =====
-- How a lobby server counts its users, and whom it tells.
use native.Mathlib.Nat.{add-zero, zero-add}
use iocp_j_server.CircleQueue.Steps.{print-push_room}
use iocp_j_server.LobbyJobs.{job_notice_lobby_ready}
use iocp_j_server.Base.{
  Outcome-cases, inl, inr, ap, ◌∙◌, subst, ◌==◌, suc-add, ℕ, zero, suc, ◌+◌, ◌-◌, ◌%◌, ◌^◌, ◌<◌,
  ◌≡◌, refl, arith, false, some, List, [], ◌∷◌, Bytes, Outcome, ok, fault, ◌>>=◌, ◌++◌,
}
use iocp_j_server.CircleQueue.{print, size}
use iocp_j_server.CircleQueue.Inv.{IsValid}
use iocp_j_server.Wire.{
  SenderType, unset, control_server, auth_server, lobby_server, client, OperationType, op_default,
  op_connect, op_accept, op_recv, op_send, HostOrder, receive_packet,
}
use iocp_j_server.Overlapped.{Overlapped}
use iocp_j_server.LobbyMonitor
use iocp_j_server.LobbyMonitor.{entries}
use iocp_j_server.LobbyHub.{
  LobbyHub, construct, client_accepted, control_connected, process_iocp, process_disconnect,
  packet_received, on_accept, on_connect, on_completion, shared,
}

-- What the network manager reports to a hub: a completed operation, or a disconnect.
pub data Event : Type 0 where
  completes : ℕ → Overlapped → Event
  disconnects : ℕ → Event

-- The accepts of clients among the events.
abbrev pub client_accept : OperationType → SenderType → ℕ
client_accept op_accept client = 1
client_accept _ _ = 0

abbrev pub client_accepts : List Event → ℕ
client_accepts [] = 0
client_accepts (completes key o ∷ es) = client_accept o.operation o.sender + client_accepts es
client_accepts (disconnects key ∷ es) = client_accepts es

module _ (order : HostOrder) where
  unfoldable pub react : Event → LobbyHub → Outcome LobbyHub
  react (completes key o) h = process_iocp order key o h
  react (disconnects key) h = ok (process_disconnect key h)

  unfoldable pub reacts : List Event → LobbyHub → Outcome LobbyHub
  reacts [] h = ok h
  reacts (e ∷ es) h = react e h >>= λ h'. reacts es h'

-- Where a hub's monitor stands after `n` more accepts, if the call returns.
abbrev Counts : ℕ → LobbyHub → Outcome LobbyHub → Type 0
Counts n h (ok h') = h'.monitor ≡ entries n h.monitor
Counts n h (fault e) = Unit {0}

on_accept-Counts :
    (s : SenderType) (key : ℕ) (h : LobbyHub)
    → Counts (client_accept op_accept s) h (ok (on_accept s key h))
unfolding client_accepted entries
on_accept-Counts client key h = refl
on_accept-Counts unset key h = refl
on_accept-Counts control_server key h = refl
on_accept-Counts auth_server key h = refl
on_accept-Counts lobby_server key h = refl

on_connect-Counts : (s : SenderType) (key : ℕ) (h : LobbyHub) → Counts 0 h (ok (on_connect s key h))
unfolding control_connected entries
on_connect-Counts client key h = refl
on_connect-Counts unset key h = refl
on_connect-Counts control_server key h = refl
on_connect-Counts auth_server key h = refl
on_connect-Counts lobby_server key h = refl

module _ (order : HostOrder) where
  packet_received-Counts :
      (key : ℕ) (o : Overlapped) (h : LobbyHub) → Counts 0 h (packet_received order key o h)
  unfolding packet_received entries
  packet_received-Counts key o h = elim (Outcome-cases (receive_packet order key o.head o.body)) [
    | inl (p, e) ↦ rw e refl
    | inr (x, e) ↦ rw e tt
  ]

  on_completion-Counts :
      (op : OperationType) (key : ℕ) (o : Overlapped) (h : LobbyHub)
      → Counts (client_accept op o.sender) h (on_completion order op key o h)
  unfolding entries
  on_completion-Counts op_accept key o h = on_accept-Counts o.sender key h
  on_completion-Counts op_connect key o h = on_connect-Counts o.sender key h
  on_completion-Counts op_recv key o h = packet_received-Counts key o h
  on_completion-Counts op_send key o h = refl
  on_completion-Counts op_default key o h = refl

  react-Counts : (e : Event) (h : LobbyHub) → Counts (client_accepts (e ∷ [])) h (react order e h)
  unfolding react process_iocp process_disconnect entries
  react-Counts (completes key o) h = rw add-zero (on_completion-Counts o.operation key o h)
  react-Counts (disconnects key) h = refl

  entries-add :
      (m n : ℕ) (x : LobbyMonitor.LobbyMonitor) → entries n (entries m x) ≡ entries (m + n) x
  unfolding entries
  entries-add zero n x = rw zero-add
  entries-add (suc m) n x =
      entries-add m n (LobbyMonitor.register_lobby_user x) ∙ ap (λ k. entries k x) (suc-add m n)

  Counts-bind :
      (m n : ℕ) (h : LobbyHub) (r : Outcome LobbyHub) (g : LobbyHub → Outcome LobbyHub)
      → Counts m h r
      → ((h' : LobbyHub) → Counts n h' (g h'))
      → Counts (m + n) h (r >>= g)
  Counts-bind m n h (fault e) g c k = tt
  Counts-bind m n h (ok h') g c k = Counts-trans (g h') (k h')
    where
      Counts-trans : (r : Outcome LobbyHub) → Counts n h' r → Counts (m + n) h r
      Counts-trans (fault e) d = tt
      Counts-trans (ok h'') d = d ∙ ap (entries n) c ∙ entries-add m n h.monitor

  reacts-Counts :
      (es : List Event) (h : LobbyHub) → Counts (client_accepts es) h (reacts order es h)
  unfolding reacts entries
  reacts-Counts [] h = refl
  reacts-Counts (e ∷ es) h =
      subst (λ n. Counts n h (react order e h >>= λ h'. reacts order es h')) (split e es)
        (Counts-bind (client_accepts (e ∷ [])) (client_accepts es) h (react order e h)
          (λ h'. reacts order es h') (react-Counts e h) (reacts-Counts es))
    where
      split :
          (e : Event) (es : List Event)
          → client_accepts (e ∷ []) + client_accepts es ≡ client_accepts (e ∷ es)
      split (completes key o) es = omega arith
      split (disconnects key) es = omega arith

  -- Whatever the network reports, if no report faults: the lobby counts as users the clients ever
  -- accepted, disconnects notwithstanding, and reports the capacity less that number as free
  -- places, for capacities and numbers of accepts below 2 ^ 32.
  pub reacts-users :
      (es : List Event) (key : Bytes) (port jobs packets capacity : ℕ) {h : LobbyHub}
      → reacts order es (construct key port jobs packets capacity) ≡ ok h
      → capacity < 2 ^ 32
      → client_accepts es < 2 ^ 32
      → (LobbyMonitor.get_current_user h.monitor ≡ client_accepts es)
        × (LobbyMonitor.get_remain_capacity h.monitor
            ≡ (capacity + 2 ^ 32 - client_accepts es) % 2 ^ 32)
  unfolding construct
  reacts-users es key port jobs packets capacity {h} e hc hn =
      rw counted (LobbyMonitor.entries-construct (client_accepts es) capacity hc hn)
    where
      counted : h.monitor ≡ entries (client_accepts es) (LobbyMonitor.construct capacity)
      counted =
          subst (Counts (client_accepts es) (construct key port jobs packets capacity)) e
            (reacts-Counts es (construct key port jobs packets capacity))

-- The connection to the control server queues one notice of the lobby's key, port, capacity and
-- state behind the other jobs, if there is room, addressed to the control server, whose key is
-- kept.
pub print-control_connected :
    (key : ℕ) (h : LobbyHub)
    → IsValid h.job_queue
    → (size h.job_queue + 1 == h.job_queue.queue_max_size) ≡ false
    → let h' = control_connected key h in
      (print shared h'.job_queue
        ≡ print shared h.job_queue
          ++ some (
              job_notice_lobby_ready h'.control_server_completion_key h.lobby_key h.lobby_port
                (LobbyMonitor.get_capacity h.monitor)
                h.is_on)
            ∷ [])
      × (h'.control_server_completion_key ≡ key)
unfolding control_connected
print-control_connected key h v room = (print-push_room shared _ v room, refl)
