-- ===== src/ControlHub/Failing.antt =====
-- A lobby's announcement and a request, one after the other through the control server's job queue.
use iocp_j_server.Base.{
  ℕ, ◌≤◌, ◌≡◌, refl, ap, ◌∙◌, arith, Bool, true, false, Option, none, some, List, [], ◌∷◌, length,
  Bytes, Fault, ok, fault, ==_comm,
}
use iocp_j_server.CircleQueue
use iocp_j_server.CircleQueue.{Queue, print, size}
use iocp_j_server.CircleQueue.Fifo
use iocp_j_server.CircleQueue.Inv.{IsValid, pop-IsValid}
use iocp_j_server.CircleQueue.Steps.{length-print, empty_test}
use iocp_j_server.CircleQueue.Refine.{pop_refines}
use iocp_j_server.Json.{Floats, JsonLibrary, IsJson}
use iocp_j_server.Redis.{Server, Page, IsStore, cache_key}
use iocp_j_server.Redis.Scan.{Iterates, on_pages}
use iocp_j_server.Protocol.{FlatBuffers}
use iocp_j_server.LobbyManager.{LobbyManager, table, save_lobby_info, response_lobby_info}
use iocp_j_server.LobbyManager.Saved.{response_lobby_info-save}
use iocp_j_server.LobbyJobs.{JobOutput}
use iocp_j_server.LobbyHub.{shared}
use iocp_j_server.ControlJobs
use iocp_j_server.ControlJobs.{ControlJob, job_request_lobby_info, job_notice_lobby_ready}
use iocp_j_server.ControlHub.{Hub, job_round, run_job}

-- A queue of so many elements, and what is taken off it.
module _ {q : Queue (Option ControlJob)} {x : Option ControlJob} {xs : List (Option ControlJob)}
    (v : IsValid q) (holds : print shared q ≡ x ∷ xs) where
  empty-cons : CircleQueue.empty q ≡ false
  unfolding CircleQueue.empty
  empty-cons =
      let counted : length (print shared q) ≡ _ = ap length holds in
      ==_comm _ _ ∙ empty_test v ∙ ground (arith, counted, length-print shared q)

  first-cons : (CircleQueue.pop shared q).0 ≡ x
  unfolding Fifo.take_first
  first-cons = ap (λ r. r.0) (pop_refines shared v ∙ ap (Fifo.take_first none) holds)

  left-cons : print shared (CircleQueue.pop shared q).1 ≡ xs
  unfolding Fifo.take_first
  left-cons = ap (λ r. r.1) (pop_refines shared v ∙ ap (Fifo.take_first none) holds)

module _ (f : Floats) (j : JsonLibrary f) (r : Server) (fb : FlatBuffers) where
  -- The hub after a job that has left the manager `m`.
  abbrev after : Hub f r → LobbyManager f r → Hub f r
  after h m = record h { job_queue = (CircleQueue.pop shared h.job_queue).1; manager = m }

  job_round-ready :
      (fuel socket port capacity : ℕ) (key : Bytes) (active : Bool) (output : JobOutput)
      (h : Hub f r) {m : LobbyManager f r} {rest : List (Option ControlJob)}
      → IsValid h.job_queue
      → print shared h.job_queue
        ≡ some (job_notice_lobby_ready socket key port capacity active) ∷ rest
      → save_lobby_info f j r key port capacity active h.manager ≡ ok m
      → job_round f j r fb fuel output h
        ≡ some (ok (none, record output { is_send = false }, after h m))
  unfolding job_round run_job ControlJobs.execute
  job_round-ready fuel socket port capacity key active output h v holds saves =
      rw (empty-cons v holds, first-cons v holds, saves) refl

  job_round-request :
      (fuel socket : ℕ) (output : JobOutput) (h : Hub f r) {rest : List (Option ControlJob)}
      {e : Fault}
      → IsValid h.job_queue
      → print shared h.job_queue ≡ some (job_request_lobby_info socket) ∷ rest
      → response_lobby_info f j r fuel [] 0 false h.manager ≡ some (fault e)
      → job_round f j r fb fuel output h ≡ some (fault e)
  unfolding job_round run_job ControlJobs.execute
  job_round-request fuel socket output h v holds stops =
      rw (empty-cons v holds, first-cons v holds, stops) refl

  -- Where a lobby's announcement and then a request are next in the job queue of the control server, and
  -- the lobby is saved: the round of the job thread for the announcement returns, with nothing to send,
  -- and the one for the request ends by an uncaught exception or another fault, whatever else is in
  -- Redis; if the SCAN of the request comes back to the cursor 0 and finds the lobby, with enough fuel.
  pub ready-request :
      IsJson f j
      → IsStore r
      → (fuel : ℕ) (ps : List Page) (socket client port capacity : ℕ) (key : Bytes) (active : Bool)
        (output : JobOutput) (h : Hub f r) (m : LobbyManager f r) (rest : List (Option ControlJob))
      → IsValid h.job_queue
      → print shared h.job_queue
        ≡ some (job_notice_lobby_ready socket key port capacity active)
          ∷ some (job_request_lobby_info client)
          ∷ rest
      → save_lobby_info f j r key port capacity active h.manager ≡ ok m
      → Iterates r table m.redis 0 ps
      → length ps ≤ fuel
      → on_pages (cache_key table key) ps ≡ true
      → (h' : Hub f r) × (output' : JobOutput) × (e : Fault) × (job_round f j r fb fuel output h
          ≡ some (ok (none, output', h')))
        × (job_round f j r fb fuel output' h' ≡ some (fault e))
  ready-request laws store fuel ps socket client port capacity key active output h m rest v holds
        saves it enough found =
      let (e, stops) =
        response_lobby_info-save f j r laws store fuel ps key port capacity active h.manager m [] 0
          false saves it enough found in
      (
        after h m,
        record output { is_send = false },
        e,
        job_round-ready fuel socket port capacity key active output h v holds saves,
        job_round-request fuel client (record output { is_send = false }) (after h m)
            (pop-IsValid shared v) (left-cons v holds) stops,
      )
