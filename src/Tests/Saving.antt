-- ===== src/Tests/Saving.antt =====
-- A lobby is saved, and a request follows, with a JSON library that keeps what its values were
-- made from.
use iocp_j_server.Base.{
  ℕ, suc, ◌≡◌, refl, arith, Bool, true, List, [], ◌∷◌, ◌++◌, length, take, drop, take-append, some,
  none, if◌then◌else◌, Bytes, codes, bytes_eq, Fault, out_of_bounds, uncaught, Outcome, ok, fault,
  insert_or_assign, sym, ◌==◌,
}
use iocp_j_server.Json.{JsonLibrary, IsJson, member, data_to_json}
use iocp_j_server.Redis.{Page, update_data, cache_key}
use iocp_j_server.Redis.Scan.{Iterates, last}
use iocp_j_server.LobbyManager.{LobbyManager, table, save_lobby_info, response_lobby_info}
use iocp_j_server.LobbyManager
use iocp_j_server.CircleQueue
use iocp_j_server.CircleQueue.{print}
use iocp_j_server.CircleQueue.Inv.{IsValid, construct-IsValid, push-IsValid}
use iocp_j_server.LobbyJobs.{JobOutput}
use iocp_j_server.LobbyHub.{shared}
use iocp_j_server.ControlJobs.{job_request_lobby_info, job_notice_lobby_ready}
use iocp_j_server.ControlHub
use iocp_j_server.ControlHub.{Hub, push_job, job_round}
use iocp_j_server.ControlHub.Failing.{ready-request}
use iocp_j_server.Tests.Lobbies.{no_output}
use iocp_j_server.Tests.Samples.{triples, whole_floats, one_page, one_page-IsStore, keys_of}

-- The entries of an object, each behind the lengths of its name and value.
abbrev entries : List (Bytes × Bytes) → Bytes
entries [] = []
entries ((k, v) ∷ fields) = length k ∷ length v ∷ (k ++ (v ++ entries fields))

abbrev find : ℕ → Bytes → Bytes → Outcome Bytes
find (suc n) name (a ∷ b ∷ t) =
    let rest = find n name (drop b (drop a t)) in
    if bytes_eq name (take a t) then ok (take b (drop a t)) else rest
find _ name t = fault out_of_bounds

abbrev at_name : Bytes → Bytes → Outcome Bytes
at_name (tag ∷ n ∷ t) name = if tag == 4 then find n name t else fault uncaught
at_name _ name = fault out_of_bounds

abbrev as_string : Bytes → Outcome Bytes
as_string (tag ∷ s) = if tag == 1 then ok s else fault uncaught
as_string _ = fault uncaught

abbrev as_number : Bytes → Outcome ℕ
as_number (tag ∷ n ∷ []) = if tag == 2 then ok n else fault uncaught
as_number _ = fault uncaught

abbrev as_float : Bytes → Outcome ℕ
as_float (tag ∷ n ∷ []) = if tag == 3 then ok n else fault uncaught
as_float _ = fault uncaught

abbrev as_bool : Bytes → Outcome Bool
as_bool (tag ∷ n ∷ []) = if tag == 5 then ok (n == 1) else fault uncaught
as_bool _ = fault uncaught

abbrev tagged : JsonLibrary whole_floats
tagged = record {
  Json = Bytes;
  of_string = λ s. 1 ∷ s;
  of_int = λ n. 2 ∷ n ∷ [];
  of_float = λ x. 3 ∷ x ∷ [];
  object = λ fields. 4 ∷ length fields ∷ entries fields;
  at = at_name;
  get_string = as_string;
  get_int = as_number;
  get_bool = as_bool;
  get_float = as_float;
  dump = λ json. ok json;
  parse = λ text. ok text;
}

drop_append : (xs ys : Bytes) → drop (length xs) (xs ++ ys) ≡ ys
drop_append [] ys = refl
drop_append (x ∷ xs) ys = drop_append xs ys

find-entries :
    (fields : List (Bytes × Bytes)) (name : Bytes)
    → find (length fields) name (entries fields) ≡ member name fields
find-entries [] name = refl
find-entries ((k, v) ∷ fields) name =
    rw (take-append, drop_append, take-append, drop_append, find-entries fields name) refl

tagged-IsJson : IsJson whole_floats tagged
tagged-IsJson = record {
  at-object = find-entries;
  get_string-of_string = λ s. refl;
  get_int-of_int = λ n. refl;
  get_float-of_float = λ x. refl;
  get_bool-of_int = λ n. refl;
  parse-dump = λ x s h. sym h;
}

abbrev saved_text : Bytes
saved_text = data_to_json whole_floats tagged (codes "a") 9000 0 8 1 0

abbrev after : LobbyManager whole_floats one_page
after = record {
  redis = (cache_key table (codes "a"), saved_text) ∷ [];
  lobby_map = [];
  expire_time = 60;
}

abbrev after_pages : List Page
after_pages = record { cursor = 0; keys = keys_of after.redis } ∷ []

after_pages-Iterates : Iterates one_page table after.redis 0 after_pages
after_pages-Iterates = last _ refl refl

abbrev announced_then_asked : Hub whole_floats one_page
announced_then_asked = push_job whole_floats one_page (job_request_lobby_info 6) (
    push_job whole_floats one_page (job_notice_lobby_ready 5 (codes "a") 9000 8 true)
      (ControlHub.construct whole_floats tagged one_page [] 4 4))

jobs-IsValid : IsValid announced_then_asked.job_queue
unfolding ControlHub.construct push_job
jobs-IsValid = push-IsValid _ (push-IsValid _ (construct-IsValid shared 4))

jobs-print :
    print shared announced_then_asked.job_queue
    ≡ some (job_notice_lobby_ready 5 (codes "a") 9000 8 true) ∷ some (job_request_lobby_info 6) ∷ []
unfolding ControlHub.construct push_job CircleQueue.construct CircleQueue.push CircleQueue.size
    CircleQueue.print CircleQueue.print_from
jobs-print = refl

hub-saved :
    save_lobby_info whole_floats tagged one_page
      (codes "a")
      9000
      8
      true
      announced_then_asked.manager
    ≡ ok after
unfolding save_lobby_info update_data insert_or_assign ControlHub.construct push_job
    LobbyManager.construct
hub-saved = refl

ready-request_example :
    (h : Hub whole_floats one_page) × (output : JobOutput) × (e : Fault) × (job_round whole_floats
        tagged one_page triples 1 no_output announced_then_asked
      ≡ some (ok (none, output, h)))
    × (job_round whole_floats tagged one_page triples 1 output h ≡ some (fault e))
ready-request_example =
    ready-request whole_floats tagged one_page triples tagged-IsJson one_page-IsStore 1 after_pages
      5 6 9000 8 (codes "a") true no_output announced_then_asked after [] jobs-IsValid jobs-print
      hub-saved after_pages-Iterates (omega arith) refl
