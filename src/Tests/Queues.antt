-- ===== src/Tests/Queues.antt =====
-- Runs of the ring buffer, of the pooled records and of the lobby monitor.
use iocp_j_server.Base.{
  ◌+◌, ◌-◌, ◌%◌, ◌^◌, ◌<◌, ◌≤◌, ◌≡◌, refl, arith, List, [], ◌∷◌, ◌++◌, length, replicate,
  length-replicate, some, suc, ok, ℕ, Bytes,
}
use iocp_j_server.CircleQueue.{construct, push, size, front, Queue}
use iocp_j_server.CircleQueue.Fifo
use iocp_j_server.CircleQueue.Fifo.{Call}
use iocp_j_server.CircleQueue.Refine.{run, run-construct}
use iocp_j_server.CircleQueue.Inv.{IsValid, construct-IsValid, push-IsValid}
use iocp_j_server.CircleQueue.Threads.{Turn, calls_push, producer_runs, consumer_runs, schedule}
use iocp_j_server.CircleQueue.Threads.Fits.{held}
use iocp_j_server.CircleQueue.Threads.Spsc.{start, schedule-order, schedule-bounded}
use iocp_j_server.CircleQueue.Threads.Race.{two_turns, both_idle, lockstep, two_turns-lockstep}
use iocp_j_server.Wire.{client}
use iocp_j_server.Overlapped
use iocp_j_server.Overlapped.{
  Overlapped, Use, connects, accepts, sends, receives, uses, clear, zero_header, send_setting,
  buffer_size_max,
}
use iocp_j_server.Overlapped.{SystemMembers}
use iocp_j_server.Overlapped.Clean.{blank, uses-clear, AllFit}
use iocp_j_server.LobbyMonitor
use iocp_j_server.LobbyMonitor.{
  visits, enters, leaves, IsBalanced, visits-construct, entries-construct, entries,
  get_current_user, get_remain_capacity, register_lobby_user, unregister_lobby_user,
}
use iocp_j_server.Tests.Samples.{number_slot}

abbrev calls : List (Call ℕ)
calls =
    Call.push 4
    ∷ Call.push 5
    ∷ Call.pop
    ∷ Call.push 6
    ∷ Call.push 7
    ∷ Call.size
    ∷ Call.pop
    ∷ Call.pop
    ∷ Call.pop
    ∷ []

run-construct_example : run number_slot calls (construct number_slot 2) ≡ Fifo.run 0 2 calls []
run-construct_example = run-construct number_slot 2 calls

abbrev turns : List (Turn ℕ)
turns =
    calls_push 4
    ∷ producer_runs
    ∷ consumer_runs
    ∷ producer_runs
    ∷ producer_runs
    ∷ consumer_runs
    ∷ consumer_runs
    ∷ consumer_runs
    ∷ consumer_runs
    ∷ calls_push 5
    ∷ consumer_runs
    ∷ producer_runs
    ∷ []

schedule-order_example :
    let w = schedule number_slot turns (start number_slot 2) in
    (w.sent ≡ w.got ++ held number_slot w.consumer w.queue) × IsValid w.queue
schedule-order_example = schedule-order number_slot 2 turns

schedule-bounded_example :
    let w = schedule number_slot turns (start number_slot 2) in length w.sent ≤ length w.got + 2
schedule-bounded_example = schedule-bounded number_slot 2 turns

abbrev two_numbers : Queue ℕ
two_numbers = (push 5 (push 4 (construct number_slot 3)).1).1

two_numbers-IsValid : IsValid two_numbers
two_numbers-IsValid = push-IsValid 5 (push-IsValid 4 (construct-IsValid number_slot 3))

two_numbers-size : 0 < size two_numbers
unfolding size push construct
two_numbers-size = omega arith

two_turns-lockstep_example :
    let w = two_turns number_slot (lockstep number_slot) (both_idle number_slot two_numbers) in
    (w.one_got ≡ some (front number_slot two_numbers))
    × (w.other_got ≡ some (front number_slot two_numbers))
    × (suc (size w.queue) ≡ size two_numbers)
two_turns-lockstep_example =
    two_turns-lockstep number_slot two_numbers-IsValid two_numbers-size refl

abbrev fresh_body : Bytes
fresh_body = replicate buffer_size_max 7

abbrev some_uses : List Use
some_uses =
    connects 3 client ∷ sends 3 zero_header (1 ∷ 2 ∷ 3 ∷ []) ∷ receives 4 zero_header (9 ∷ []) ∷ []

some_uses-AllFit : AllFit some_uses
unfolding buffer_size_max
some_uses-AllFit = (tt, (omega arith, (omega arith, tt)))

abbrev some_members : SystemMembers
some_members = record { internal = 259; internal_high = 0; offset = 7; offset_high = 0 }

uses-clear_example :
    (o : Overlapped) × (uses some_uses
        (Overlapped.construct (zero_header, fresh_body, some_members))
      ≡ ok o)
    × (clear o ≡ ok (blank o.members))
uses-clear_example =
    uses-clear (zero_header, fresh_body, some_members) some_uses
      (length-replicate buffer_size_max 7) some_uses-AllFit

visits-construct_example :
    IsBalanced (visits (enters ∷ enters ∷ leaves ∷ []) (LobbyMonitor.construct 1))
visits-construct_example = visits-construct (enters ∷ enters ∷ leaves ∷ []) 1 (omega arith)

fresh-IsBalanced : IsBalanced (LobbyMonitor.construct 8)
unfolding LobbyMonitor.construct
fresh-IsBalanced = omega arith

entries-construct_example :
    (get_current_user (entries 3 (LobbyMonitor.construct 2)) ≡ 3)
    × (get_remain_capacity (entries 3 (LobbyMonitor.construct 2)) ≡ (2 + 2 ^ 32 - 3) % 2 ^ 32)
entries-construct_example = entries-construct 3 2 (omega arith) (omega arith)
