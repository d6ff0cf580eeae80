-- ===== src/Network/Filling.antt =====
-- `Construct` fills the pool with records that are nowhere else.
use iocp_j_server.Overlapped.{Fresh}
use iocp_j_server.Base.{
  ℕ, zero, suc, ◌+◌, ◌<◌, ◌≡◌, refl, sym, ap, subst, ◌∙◌, arith, true, false, Option, none, some,
  [], ◌∷◌, ◌++◌, length, ◌==◌, Bool-cases, ◌⊎◌, inl, inr, length-append,
}
use iocp_j_server.CircleQueue
use iocp_j_server.CircleQueue.{size}
use iocp_j_server.CircleQueue.Inv.{
  IsValid, push-IsValid, max-push, construct-IsValid, max-construct,
}
use iocp_j_server.CircleQueue.Steps.{print-push_room, length-print}
use iocp_j_server.CircleQueue.Refine.{print-construct}
use iocp_j_server.Wire.{SenderType}
use iocp_j_server.Overlapped.{Overlapped, buffer_size_max}
use iocp_j_server.Overlapped.Clean.{construct-IsClearable}
use iocp_j_server.Network.{
  NetworkManager, pointers, construct, new_overlapped, fill_overlapped_queue,
}
use iocp_j_server.Network.Ownership.{count, count-append, accepts, one_each, GoodCell, pool, Owns}

-- A pool while `Construct` fills it: `k` of `n` records.
record Filled (n k : ℕ) (w : NetworkManager) : Type 0 where
  valid : IsValid w.overlapped_queue
  max : w.overlapped_queue.queue_max_size ≡ n + 1
  next : w.next_address ≡ suc k
  total : length (pool w) ≡ k
  counts : (a : ℕ) → count a (pool w) ≡ one_each k a
  cells : (a : ℕ) → GoodCell k a (w.heap a)
  posted : w.posted ≡ []
  dropped : w.dropped ≡ []

GoodCell-grow :
    (k a : ℕ) (o : Option Overlapped)
    → one_each (suc k) a ≡ one_each k a
    → GoodCell k a o
    → GoodCell (suc k) a o
GoodCell-grow k a none e good = omega (arith, e, good)
GoodCell-grow k a (some o) e good = (omega (arith, e, good.0), good.1)

new_overlapped-Filled :
    (memory : ℕ → Fresh)
    → ((a : ℕ) → length (memory a).1 ≡ buffer_size_max)
    → {n k : ℕ} {w : NetworkManager} → k < n
    → Filled n k w
    → Filled n (suc k) (new_overlapped memory w)
unfolding new_overlapped count
new_overlapped-Filled memory long {n} {k} {w} h f = record {
  valid = push-IsValid w.next_address f.valid;
  max = max-push w.next_address w.overlapped_queue ∙ f.max;
  next = omega (arith, f.next);
  total = omega (arith, f.total, ap length more, length-append (pool w) (w.next_address ∷ []));
  counts = λ a.
      ground (
        arith,
        f.counts a,
        f.next,
        ap (count a) more,
        count-append a (pool w) (w.next_address ∷ []),
      );
  cells = λ a. new_cell a (Bool-cases (w.next_address == a));
  posted = f.posted;
  dropped = f.dropped;
}
  where
    room : (size w.overlapped_queue + 1 == w.overlapped_queue.queue_max_size) ≡ false
    room = ground (arith, f.total, f.max, length-print pointers w.overlapped_queue)

    more : pool (new_overlapped memory w) ≡ pool w ++ w.next_address ∷ []
    more = print-push_room pointers w.next_address f.valid room

    new_cell :
        (a : ℕ)
        → ((w.next_address == a) ≡ true) ⊎ ((w.next_address == a) ≡ false)
        → GoodCell (suc k) a ((new_overlapped memory w).heap a)
    new_cell a (inl same) =
        rw same (ground (arith, f.next), construct-IsClearable _ (long w.next_address))
    new_cell a (inr other) =
        rw other (GoodCell-grow k a (w.heap a) (ground (arith, f.next)) (f.cells a))

fill_overlapped_queue-Filled :
    (memory : ℕ → Fresh)
    → ((a : ℕ) → length (memory a).1 ≡ buffer_size_max)
    → {n : ℕ} (k rounds : ℕ) {w : NetworkManager} → k + rounds ≡ n
    → Filled n k w
    → Filled n n (fill_overlapped_queue rounds memory w)
unfolding fill_overlapped_queue
fill_overlapped_queue-Filled memory long {n} k zero {w} e f =
    subst (λ m. Filled n m w) (omega (arith, e)) f
fill_overlapped_queue-Filled memory long k (suc rounds) e f =
    fill_overlapped_queue-Filled memory long (suc k) rounds (omega arith)
      (new_overlapped-Filled memory long (omega arith) f)

one_each-zero : (a : ℕ) → 0 ≡ one_each 0 a
one_each-zero a = ground arith

construct-Filled :
    (sender : SenderType) (n : ℕ) (memory : ℕ → Fresh)
    → ((a : ℕ) → length (memory a).1 ≡ buffer_size_max)
    → Filled n n (construct sender n memory)
unfolding construct count
construct-Filled sender n memory long =
    fill_overlapped_queue-Filled memory long 0 n (omega arith) (record {
      valid = construct-IsValid pointers n;
      max = max-construct pointers n;
      next = refl;
      total = ap length (print-construct pointers n);
      counts = λ a. ap (count a) (print-construct pointers n) ∙ one_each-zero a;
      cells = λ a. sym (one_each-zero a);
      posted = refl;
      dropped = refl;
    })

-- `Construct` puts every record into the pool.
pub construct-Owns :
    (sender : SenderType) (n : ℕ) (memory : ℕ → Fresh)
    → ((a : ℕ) → length (memory a).1 ≡ buffer_size_max)
    → Owns n 0 [] (construct sender n memory)
unfolding count accepts
construct-Owns sender n memory long =
    let full = construct-Filled sender n memory long in
    record {
      valid = full.valid;
      max = full.max;
      total = rw (full.posted, full.dropped) (omega (arith, full.total));
      counts = λ a. rw (full.posted, full.dropped) (omega (arith, full.counts a));
      cells = full.cells;
      accepting = rw full.posted (omega arith);
    }

fill_overlapped_queue-known :
    (rounds : ℕ) (memory : ℕ → Fresh) (w : NetworkManager)
    → (fill_overlapped_queue rounds memory w).connected_socket_map ≡ w.connected_socket_map
unfolding fill_overlapped_queue new_overlapped
fill_overlapped_queue-known zero memory w = refl
fill_overlapped_queue-known (suc rounds) memory w = fill_overlapped_queue-known rounds memory _

fill_overlapped_queue-prepared :
    (rounds : ℕ) (memory : ℕ → Fresh) (w : NetworkManager)
    → (fill_overlapped_queue rounds memory w).prepared_socket_queue ≡ w.prepared_socket_queue
unfolding fill_overlapped_queue new_overlapped
fill_overlapped_queue-prepared zero memory w = refl
fill_overlapped_queue-prepared (suc rounds) memory w =
    fill_overlapped_queue-prepared rounds memory _

pub construct-prepared :
    (sender : SenderType) (n : ℕ) (memory : ℕ → Fresh)
    → (construct sender n memory).prepared_socket_queue ≡ CircleQueue.construct pointers 0
unfolding construct
construct-prepared sender n memory = fill_overlapped_queue-prepared n memory _

pub construct-in_pool :
    (sender : SenderType) (n : ℕ) (memory : ℕ → Fresh)
    → ((a : ℕ) → length (memory a).1 ≡ buffer_size_max)
    → ((construct sender n memory).posted ≡ [])
      × ((construct sender n memory).dropped ≡ [])
      × ((construct sender n memory).connected_socket_map ≡ [])
unfolding construct
construct-in_pool sender n memory long =
    let full = construct-Filled sender n memory long in
    (full.posted, full.dropped, fill_overlapped_queue-known n memory _)
