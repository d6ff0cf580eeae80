-- ===== src/ControlHub/Requests.antt =====
-- What the control server makes of the messages of lobbies and of requests for one.
use iocp_j_server.CircleQueue.{print, size}
use iocp_j_server.CircleQueue.Inv.{IsValid}
use iocp_j_server.CircleQueue.Steps.{push-full, print-push_room}
use iocp_j_server.LobbyHub.{shared}
use iocp_j_server.Base.{
  ap, ◌+◌, ◌==◌, ◌++◌, ◌∷◌, ℕ, ◌≡◌, refl, Bool, true, false, some, Bytes, [], ok,
}
use iocp_j_server.Json.{Floats}
use iocp_j_server.Redis.{Server}
use iocp_j_server.Protocol.{FlatBuffers, IsFlatBuffers}
use iocp_j_server.Protocol.Tables.{notice_lobby_ready_lem, notice_lobby_info_lem}
use iocp_j_server.LobbyJobs
use iocp_j_server.LobbyJobs.{JobOutput}
use iocp_j_server.ControlJobs
use iocp_j_server.ControlJobs.{ControlJob, response_output}
use iocp_j_server.ControlHub.{Hub, dispatch, lobby_ready, lobby_info_noticed, push_job}

module _ (f : Floats) (r : Server) (fb : FlatBuffers) (laws : IsFlatBuffers fb) where
  -- The packet of an announcement, through push_job.
  pub dispatch-ready_pushes :
      (socket sender came_over : ℕ) (key : Bytes) (port capacity : ℕ) (active : Bool) (h : Hub f r)
      → let out =
          LobbyJobs.execute fb (LobbyJobs.job_notice_lobby_ready socket key port capacity active) in
        dispatch f r fb
          (record {
            sender_type = sender;
            completion_key = came_over;
            contents_type = out.contents_type;
            buffer = out.buffer;
          })
          h
        ≡ ok
            (push_job f r (ControlJobs.job_notice_lobby_ready came_over key port capacity active) h)
  unfolding dispatch LobbyJobs.execute lobby_ready
  dispatch-ready_pushes socket sender came_over key port capacity active h =
      let (k, p, c, a) = notice_lobby_ready_lem fb laws key port capacity active in rw (k, p, c, a)

  -- A packet with what a lobby's NOTICE_LOBBYREADY job has sent puts the control server's job with the
  -- same key, port, capacity and state, for the connection it came over, at the end of a valid job
  -- queue with room, and leaves a full one as it is; the rest of the hub stays.
  pub dispatch-ready :
      (socket sender came_over : ℕ) (key : Bytes) (port capacity : ℕ) (active : Bool) (h : Hub f r)
      → IsValid h.job_queue
      → let out =
          LobbyJobs.execute fb (LobbyJobs.job_notice_lobby_ready socket key port capacity active) in
        (h' : Hub f r) × (dispatch f r fb
            (record {
              sender_type = sender;
              completion_key = came_over;
              contents_type = out.contents_type;
              buffer = out.buffer;
            })
            h
          ≡ ok h')
        × ((size h.job_queue + 1 == h.job_queue.queue_max_size) ≡ false
            → print shared h'.job_queue
              ≡ print shared h.job_queue
                ++ some (ControlJobs.job_notice_lobby_ready came_over key port capacity active)
                  ∷ [])
        × ((size h.job_queue + 1 == h.job_queue.queue_max_size) ≡ true → h'.job_queue ≡ h.job_queue)
        × (h'.packet_queue ≡ h.packet_queue)
        × (h'.manager ≡ h.manager)
  unfolding push_job
  dispatch-ready socket sender came_over key port capacity active h valid =
      let job = ControlJobs.job_notice_lobby_ready came_over key port capacity active in
      (
        push_job f r job h,
        dispatch-ready_pushes socket sender came_over key port capacity active h,
        λ room. print-push_room shared (some job) valid room,
        λ full. ap (λ p. p.1) (push-full (some job) valid full),
        refl,
        refl,
      )

  -- A packet with what a lobby's NOTICE_LOBBYINFO job has sent changes nothing in the control
  -- server: no job is queued.
  pub dispatch-info :
      (socket sender came_over : ℕ) (key : Bytes) (current remain : ℕ) (active : Bool) (h : Hub f r)
      → let out =
          LobbyJobs.execute fb (LobbyJobs.job_notice_lobby_info socket key current remain active) in
        dispatch f r fb
          (record {
            sender_type = sender;
            completion_key = came_over;
            contents_type = out.contents_type;
            buffer = out.buffer;
          })
          h
        ≡ ok h
  unfolding dispatch LobbyJobs.execute lobby_info_noticed
  dispatch-info socket sender came_over key current remain active h =
      let (k, c, q, a) = notice_lobby_info_lem fb laws key current remain active in rw k
