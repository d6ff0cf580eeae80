-- ===== src/CircleQueue/Threads/Spsc.antt =====
-- One producing and one consuming thread: every interleaving keeps the order of the elements.
use iocp_j_server.Base.{
  ℕ, ◌+◌, ◌≤◌, ◌≡◌, refl, sym, ap, ◌∙◌, arith, List, [], ◌∷◌, ◌++◌, length, length-append,
}
use iocp_j_server.CircleQueue.{Queue, Slot, construct}
use iocp_j_server.CircleQueue.Inv.{
  IsValid, size-lt, construct-IsValid, size-construct, max-construct,
}
use iocp_j_server.CircleQueue.Steps.{print-nil}
use iocp_j_server.CircleQueue.Threads.{
  Producer, Consumer, World, Turn, calls_push, producer_runs, consumer_runs, produce, consume, turn,
  schedule,
}
use iocp_j_server.CircleQueue.Threads.Fits.{held, Fits, begin_push-ProducerFits, length-held}
use iocp_j_server.CircleQueue.Threads.Moves.{produce-Fits, consume-Fits}

module _ {T : Type 0} (t : Slot T) where
  abbrev WorldFits : World T → Type 0
  WorldFits w = Fits t w.producer w.consumer w.queue w.sent w.got

  turn-WorldFits : (s : Turn T) (w : World T) → WorldFits w → WorldFits (turn t s w)
  unfolding turn
  turn-WorldFits (calls_push x) w f = record {
    valid = f.valid;
    producing = begin_push-ProducerFits t x w.producer w.queue f.producing;
    consuming = f.consuming;
    order = f.order;
  }
  turn-WorldFits producer_runs w f = produce-Fits t w.producer w.consumer w.queue f
  turn-WorldFits consumer_runs w f = consume-Fits t w.producer w.consumer w.queue f

  schedule-WorldFits :
      (ss : List (Turn T)) (w : World T) → WorldFits w → WorldFits (schedule t ss w)
  unfolding schedule
  schedule-WorldFits [] w f = f
  schedule-WorldFits (s ∷ ss) w f = schedule-WorldFits ss (turn t s w) (turn-WorldFits s w f)

  -- Both threads outside of the queue, which is as `Construct(n)` leaves it.
  unfoldable pub start : ℕ → World T
  start n = record {
    queue = construct t n;
    producer = Producer.idle;
    consumer = Consumer.idle;
    sent = [];
    got = [];
  }

  start-WorldFits : (n : ℕ) → WorldFits (start n)
  unfolding start
  start-WorldFits n = record {
    valid = construct-IsValid t n;
    producing = tt;
    consuming = tt;
    order = sym (print-nil t (construct t n) (rw (size-construct t n)));
  }

  max-produce : (p : Producer T) (q : Queue T) → (produce p q).1.queue_max_size ≡ q.queue_max_size
  unfolding produce
  max-produce Producer.idle q = refl
  max-produce (Producer.loaded x at) q = ground arith
  max-produce (Producer.has_room x at) q = refl
  max-produce (Producer.stored x at) q = refl

  max-consume : (c : Consumer T) (q : Queue T) → (consume t c q).1.queue_max_size ≡ q.queue_max_size
  unfolding consume
  max-consume Consumer.idle q = refl
  max-consume (Consumer.loaded at) q = ground arith
  max-consume (Consumer.non_empty at) q = refl
  max-consume (Consumer.took at x) q = refl

  max-turn : (s : Turn T) (w : World T) → (turn t s w).queue.queue_max_size ≡ w.queue.queue_max_size
  unfolding turn
  max-turn (calls_push x) w = refl
  max-turn producer_runs w = max-produce w.producer w.queue
  max-turn consumer_runs w = max-consume w.consumer w.queue

  max-schedule :
      (ss : List (Turn T)) (w : World T)
      → (schedule t ss w).queue.queue_max_size ≡ w.queue.queue_max_size
  unfolding schedule
  max-schedule [] w = refl
  max-schedule (s ∷ ss) w = max-schedule ss (turn t s w) ∙ max-turn s w

  start-order : (n : ℕ) (ss : List (Turn T)) → WorldFits (schedule t ss (start n))
  start-order n ss = schedule-WorldFits ss (start n) (start-WorldFits n)

  max-start : (n : ℕ) (ss : List (Turn T)) → (schedule t ss (start n)).queue.queue_max_size ≡ n + 1
  unfolding start
  max-start n ss = max-schedule ss (start n) ∙ max-construct t n

  -- For every interleaving, access by access, of one thread calling push and one calling pop: what
  -- was taken out, followed by what the consumer and the queue still hold, is what was put in, in
  -- order, and the indices stay within the buffer.
  pub schedule-order :
      (n : ℕ) (ss : List (Turn T))
      → let w = schedule t ss (start n) in
        (w.sent ≡ w.got ++ held t w.consumer w.queue) × IsValid w.queue
  schedule-order n ss = ((start-order n ss).order, (start-order n ss).valid)

  -- In no interleaving of one producer and one consumer are there ever more than n elements that the
  -- producer has published and the consumer has not yet taken out.
  pub schedule-bounded :
      (n : ℕ) (ss : List (Turn T))
      → let w = schedule t ss (start n) in length w.sent ≤ length w.got + n
  schedule-bounded n ss =
      let w = schedule t ss (start n) in
      let f = start-order n ss in
      omega (
        arith,
        ap length f.order,
        length-append w.got (held t w.consumer w.queue),
        length-held t w.consumer w.queue f.valid f.consuming,
        size-lt f.valid,
        max-start n ss,
      )
