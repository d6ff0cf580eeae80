-- ===== src/Tests/Lobbies.antt =====
-- The choice of a lobby, the manager's map, and the messages of the servers.
use iocp_j_server.Base.{
  ◌+◌, ◌==◌, ◌++◌, ℕ, ◌/◌, ◌%◌, ◌^◌, ◌<◌, ◌≡◌, ◌≢◌, refl, arith, Bool, true, false, List, [], ◌∷◌,
  some, ok, Bytes, codes, ◌⊎◌, lookup, insert_or_assign,
}
use iocp_j_server.Json.{JsonLibrary, LobbyInfo, lobby_info, data_to_json}
use native.Mathlib.Nat.{div-le_self}
use iocp_j_server.Redis.{update_data}
use iocp_j_server.LobbyManager.{
  LobbyManager, Best, search_rows, start, construct, update_lobby_info, update_lobby_response_speed,
  save_lobby_info, read_row,
}
use iocp_j_server.LobbyManager.Map.{Change, save, update, speed, changes, change, changes-miss}
use iocp_j_server.LobbyManager.Optimal.{
  IsFloat, Reads, nil, cons, SomeChosen, NoneBetter, NoneEligible, search_rows_lem,
}
use iocp_j_server.Protocol.{
  create_response_lobby_info, create_notice_lobby_ready, response_feedback, response_lobby_key,
  response_port, ready_lobby_key, ready_port, ready_capacity, ready_active,
}
use iocp_j_server.Protocol.Tables.{response_lobby_info_lem, notice_lobby_ready_lem}
use iocp_j_server.LobbyJobs
use iocp_j_server.ControlJobs
use iocp_j_server.LobbyJobs.{JobOutput}
use iocp_j_server.ControlHub
use iocp_j_server.ControlHub.{Hub, dispatch, push_job}
use iocp_j_server.ControlHub.Requests.{dispatch-ready, dispatch-info}
use iocp_j_server.CircleQueue.{print, size}
use iocp_j_server.CircleQueue.Inv.{IsValid, construct-IsValid}
use iocp_j_server.LobbyHub.{shared}
use iocp_j_server.Tests.Samples.{whole_floats, one_page, triples, triples-IsFlatBuffers}

-- A JSON library whose values are numbers, and whose objects keep their first member only: it reads
-- a text of one number as an active lobby with so many users and as many free places.
abbrev pub counting_json : JsonLibrary whole_floats
counting_json = record {
  Json = ℕ;
  of_string = λ s. 0;
  of_int = λ n. n;
  of_float = λ x. x;
  object = λ fields. 0;
  at = λ json name. ok json;
  get_string = λ json. ok [];
  get_int = λ json. ok json;
  get_bool = λ json. ok true;
  get_float = λ json. ok json;
  dump = λ json. ok (json ∷ []);
  parse = λ text. ok 5;
}

abbrev pub info_5 : LobbyInfo whole_floats
info_5 = record { key = []; port = 5; current = 5; remain = 5; active = true; response_speed = 5 }

whole_floats-lt : (a b : ℕ) → b < 2 ^ 32 → b ≢ 0 → a % 2 ^ 32 / (b % 2 ^ 32) < 2 ^ 32
whole_floats-lt a b bound h = omega (arith, div-le_self (a % 2 ^ 32) (b % 2 ^ 32))

pub whole_floats-IsFloat : IsFloat whole_floats
whole_floats-IsFloat = record {
  rank = λ x. x;
  lt-rank = λ x y. refl;
  eq-rank = λ x y. refl;
  div-max = whole_floats-lt;
}

abbrev texts : List (Bytes × Bytes)
texts = (codes "a", 1 ∷ []) ∷ (codes "b", 1 ∷ []) ∷ []

abbrev infos : List (Bytes × LobbyInfo whole_floats)
infos = (codes "a", info_5) ∷ (codes "b", info_5) ∷ []

pub reads_5 : (text : Bytes) → read_row whole_floats counting_json text ≡ ok info_5
unfolding lobby_info
reads_5 text = refl

texts-Reads : Reads whole_floats counting_json texts infos
texts-Reads = cons (reads_5 (1 ∷ [])) (cons (reads_5 (1 ∷ [])) nil)

search_rows_lem_example :
    (b : Best whole_floats) × (search_rows whole_floats counting_json texts (start whole_floats)
      ≡ ok b)
    × ((NoneEligible whole_floats infos × (b ≡ start whole_floats))
        ⊎ (SomeChosen whole_floats infos b × NoneBetter whole_floats infos b))
search_rows_lem_example =
    search_rows_lem whole_floats counting_json whole_floats-IsFloat infos texts-Reads

abbrev some_changes : List (Change whole_floats)
some_changes = save (codes "a") 9000 8 true ∷ update (codes "a") 1 7 true ∷ speed (codes "a") 2 ∷ []

abbrev saved_manager : LobbyManager whole_floats one_page
saved_manager = record {
  redis = (codes "table:LobbyInfo:a", 0 ∷ []) ∷ [];
  lobby_map = [];
  expire_time = 60;
}

changes-some :
    changes whole_floats counting_json one_page some_changes
      (construct whole_floats counting_json one_page [] 60)
    ≡ ok saved_manager
unfolding changes change construct save_lobby_info update_lobby_info update_lobby_response_speed
    data_to_json lookup update_data insert_or_assign
changes-some = refl

changes-miss_example :
    (saved_manager.lobby_map ≡ [])
    × ((k : Bytes) (c q : ℕ) (a : Bool)
        → update_lobby_info whole_floats counting_json one_page k c q a saved_manager
          ≡ saved_manager)
    × ((k : Bytes) (x : ℕ)
        → update_lobby_response_speed whole_floats counting_json one_page k x saved_manager
          ≡ saved_manager)
changes-miss_example =
    changes-miss whole_floats counting_json one_page some_changes [] 60 changes-some

response_lobby_info_lem_example :
    let t =
      triples.get_root
        (triples.finish (create_response_lobby_info triples true (7 ∷ 8 ∷ []) 9000)) in
    (response_feedback triples t ≡ true)
    × (response_lobby_key triples t ≡ some (7 ∷ 8 ∷ []))
    × (response_port triples t ≡ 9000)
response_lobby_info_lem_example =
    response_lobby_info_lem triples triples-IsFlatBuffers true (7 ∷ 8 ∷ []) 9000

notice_lobby_ready_lem_example :
    let t =
      triples.get_root (triples.finish (create_notice_lobby_ready triples (7 ∷ []) 9000 8 true)) in
    (ready_lobby_key triples t ≡ some (7 ∷ []))
    × (ready_port triples t ≡ 9000)
    × (ready_capacity triples t ≡ 8)
    × (ready_active triples t ≡ true)
notice_lobby_ready_lem_example =
    notice_lobby_ready_lem triples triples-IsFlatBuffers (7 ∷ []) 9000 8 true

-- A hub that has been constructed.
abbrev pub idle_hub : Hub whole_floats one_page
idle_hub = ControlHub.construct whole_floats counting_json one_page [] 4 4

idle_jobs-IsValid : IsValid idle_hub.job_queue
unfolding ControlHub.construct
idle_jobs-IsValid = construct-IsValid shared 4

abbrev ready_job : ControlJobs.ControlJob
ready_job = ControlJobs.job_notice_lobby_ready 6 (7 ∷ []) 9000 8 true

dispatch-ready_example :
    let out = LobbyJobs.execute triples (LobbyJobs.job_notice_lobby_ready 5 (7 ∷ []) 9000 8 true) in
    (h' : Hub whole_floats one_page) × (dispatch whole_floats one_page triples
        (record {
          sender_type = 3;
          completion_key = 6;
          contents_type = out.contents_type;
          buffer = out.buffer;
        })
        idle_hub
      ≡ ok h')
    × ((size idle_hub.job_queue + 1 == idle_hub.job_queue.queue_max_size) ≡ false
        → print shared h'.job_queue ≡ print shared idle_hub.job_queue ++ some ready_job ∷ [])
    × ((size idle_hub.job_queue + 1 == idle_hub.job_queue.queue_max_size) ≡ true
        → h'.job_queue ≡ idle_hub.job_queue)
    × (h'.packet_queue ≡ idle_hub.packet_queue)
    × (h'.manager ≡ idle_hub.manager)
dispatch-ready_example =
    dispatch-ready whole_floats one_page triples triples-IsFlatBuffers 5 3 6 (7 ∷ []) 9000 8 true
      idle_hub idle_jobs-IsValid

dispatch-info_example :
    let out = LobbyJobs.execute triples (LobbyJobs.job_notice_lobby_info 5 (7 ∷ []) 1 7 true) in
    dispatch whole_floats one_page triples
      (record {
        sender_type = 3;
        completion_key = 6;
        contents_type = out.contents_type;
        buffer = out.buffer;
      })
      idle_hub
    ≡ ok idle_hub
dispatch-info_example =
    dispatch-info whole_floats one_page triples triples-IsFlatBuffers 5 3 6 (7 ∷ []) 1 7 true
      idle_hub

abbrev pub no_output : JobOutput
no_output = record {
  socket_ptr = 0;
  body_size = 0;
  contents_type = 0;
  buffer = [];
  is_send = false;
}
