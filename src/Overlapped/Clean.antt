-- ===== src/Overlapped/Clean.antt =====
-- What one use of an overlapped record leaves behind for the next.
use iocp_j_server.Base.{
  ap, ℕ, zero, suc, ◌≤◌, ◌<◌, ◌≡◌, refl, ◌∙◌, arith, List, [], ◌∷◌, ◌++◌, Bytes, length, drop,
  lt→ltb, ok, fault, out_of_bounds, length-append, dec_lt, subst, sym,
}
use iocp_j_server.Wire.{SenderType, MessageHeader, op_send}
use iocp_j_server.Overlapped.{
  SystemMembers, Fresh, Overlapped, buffer_size_max, header_size, memset, construct,
  connect_setting, accept_setting, send_setting, receive_setting, clear, received, Use, connects,
  accepts, sends, receives, set_up, uses,
}
pub use iocp_j_server.Overlapped.Buffers.{
  IsClearable, blank, Fits, AllFit, drop-all, drop-append, drop-replicate, clear-IsClearable,
  length-blank, full-IsClearable, length-over, send_setting-fits, received-fits,
}

-- A body that does not fit the buffer is written past its end.
pub send_setting-overrun :
    (socket : ℕ) (header : MessageHeader) (body : Bytes) (o : Overlapped)
    → length o.body < length body
    → send_setting socket header body o ≡ fault out_of_bounds
unfolding send_setting memset
send_setting-overrun socket header body o h = rw (lt→ltb (length o.body) (length body) h)

pub blank-IsClearable : {m : SystemMembers} → IsClearable (blank m)
blank-IsClearable {m} = full-IsClearable (length-blank m) refl

-- The settings that leave the buffers alone.
pub connect_setting-IsClearable :
    (socket : ℕ) (sender : SenderType) {o : Overlapped}
    → IsClearable o
    → IsClearable (connect_setting socket sender o)
unfolding connect_setting
connect_setting-IsClearable socket sender c = record {
  room = c.room;
  within = c.within;
  tail_zero = c.tail_zero;
}

pub accept_setting-IsClearable :
    (socket : ℕ) (sender : SenderType) {o : Overlapped}
    → IsClearable o
    → IsClearable (accept_setting socket sender o)
unfolding accept_setting
accept_setting-IsClearable socket sender c = record {
  room = c.room;
  within = c.within;
  tail_zero = c.tail_zero;
}

pub receive_setting-IsClearable :
    (socket : ℕ) {o : Overlapped} → IsClearable o → IsClearable (receive_setting socket o)
unfolding receive_setting
receive_setting-IsClearable socket c = record {
  room = c.room;
  within = c.within;
  tail_zero = c.tail_zero;
}

-- Setting a clean record up, for any use that fits.
pub set_up-IsClearable :
    (u : Use) (m : SystemMembers)
    → Fits u
    → (o : Overlapped) × (set_up u (blank m) ≡ ok o) × IsClearable o
unfolding set_up connect_setting accept_setting receive_setting
set_up-IsClearable (connects socket sender) m h = (_, refl, full-IsClearable (length-blank m) refl)
set_up-IsClearable (accepts socket sender) m h = (_, refl, full-IsClearable (length-blank m) refl)
set_up-IsClearable (sends socket header body) m h = (
  _,
  send_setting-fits socket header body (blank m) (omega (arith, length-blank m)),
  record {
    room = length-over body (blank m).body (omega (arith, length-blank m)) ∙ length-blank m;
    within = h;
    tail_zero =
        drop-append body (drop (length body) (blank m).body)
        ∙ drop-replicate (length body) buffer_size_max;
  },
)
set_up-IsClearable (receives socket header bytes) m h = (
  _,
  received-fits header bytes (receive_setting socket (blank m)) (omega (arith, length-blank m)),
  full-IsClearable
      (length-over bytes (blank m).body (omega (arith, length-blank m)) ∙ length-blank m) refl,
)

-- A send that is set up at all leaves the record clean.
pub send_setting-IsClearable :
    (socket : ℕ) (header : MessageHeader) (body : Bytes) (m : SystemMembers) {o : Overlapped}
    → send_setting socket header body (blank m) ≡ ok o
    → IsClearable o
unfolding set_up
send_setting-IsClearable socket header body m {o} sets =
    elim (dec_lt (length (blank m).body) (length body)) [
      | yes long ↦ let over = send_setting-overrun socket header body (blank m) long in cc
      | no short ↦
          let (o', sets', clean) =
            set_up-IsClearable (sends socket header body) m (omega (arith, length-blank m)) in
          let same : o' ≡ o = cc in subst IsClearable same clean
    ]

pub send_setting-operation :
    (socket : ℕ) (header : MessageHeader) (body : Bytes) (m : SystemMembers) {o : Overlapped}
    → send_setting socket header body (blank m) ≡ ok o
    → o.operation ≡ op_send
send_setting-operation socket header body m {o} sets =
    elim (dec_lt (length (blank m).body) (length body)) [
      | yes long ↦ let over = send_setting-overrun socket header body (blank m) long in cc
      | no short ↦
          let fits =
            send_setting-fits socket header body (blank m) (omega (arith, length-blank m)) in
          let same : record (blank m) {
            socket = socket;
            operation = op_send;
            head = header;
            head_len = header_size;
            body = body ++ drop (length body) (blank m).body;
            body_len = length body;
          }
              ≡ o =
            cc in
          ap (λ (r : Overlapped). r.operation) (sym same)
    ]

drop-over :
    (k : ℕ) (bytes ys : Bytes)
    → length bytes ≤ k
    → drop k (bytes ++ drop (length bytes) ys) ≡ drop k ys
drop-over k [] ys h = refl
drop-over zero (x ∷ xs) ys h = absurd (omega arith)
drop-over (suc k) (x ∷ xs) [] h = drop-all k (xs ++ []) (omega (arith, length-append xs []))
drop-over (suc k) (x ∷ xs) (y ∷ ys) h = drop-over k xs ys (omega arith)

-- What a receive that fills no more than the buffer counts leaves.
pub filled-IsClearable :
    (header : MessageHeader) (bytes : Bytes) {o : Overlapped}
    → length bytes ≤ o.body_len
    → IsClearable o
    → IsClearable (record o { head = header; body = bytes ++ drop (length bytes) o.body })
filled-IsClearable header bytes {o} h c = record {
  room = length-over bytes o.body (omega (arith, c.room, c.within)) ∙ c.room;
  within = c.within;
  tail_zero = drop-over o.body_len bytes o.body h ∙ c.tail_zero;
}

pub received-IsClearable :
    (header : MessageHeader) (bytes : Bytes) {o : Overlapped}
    → length bytes ≤ o.body_len
    → IsClearable o
    → (o' : Overlapped) × (received header bytes o ≡ ok o') × IsClearable o'
received-IsClearable header bytes {o} h c = (
  _,
  received-fits header bytes o (omega (arith, c.room, c.within)),
  filled-IsClearable header bytes h c,
)

uses-IsClearable :
    (us : List Use) (o : Overlapped)
    → AllFit us
    → IsClearable o
    → (o' : Overlapped) × (uses us o ≡ ok o') × IsClearable o'
unfolding uses
uses-IsClearable [] o fits c = (o, refl, c)
uses-IsClearable (u ∷ us) o fits c =
    let (o', sets, c') = set_up-IsClearable u o.members fits.0 in
    let (o'', runs, c'') = uses-IsClearable us o' fits.1 c' in
    (o'', rw (clear-IsClearable c) (rw sets runs), c'')

pub construct-IsClearable :
    (fresh : Fresh) → length fresh.1 ≡ buffer_size_max → IsClearable (construct fresh)
unfolding construct
construct-IsClearable (head, body, members) h = full-IsClearable h refl

-- From the constructor on, with any content in fresh memory, any number of uses whose bodies fit
-- BUFFER_SIZE_MAX, each behind a Clear, go without fault, and the next Clear leaves the buffers and
-- the members that the settings write blank, and the members that OVERLAPPED has itself as they
-- are.
pub uses-clear :
    (fresh : Fresh) (us : List Use)
    → length fresh.1 ≡ buffer_size_max
    → AllFit us
    → (o : Overlapped) × (uses us (construct fresh) ≡ ok o) × (clear o ≡ ok (blank o.members))
uses-clear fresh us h fits =
    let (o, runs, c) = uses-IsClearable us _ fits (construct-IsClearable fresh h) in
    (o, runs, clear-IsClearable c)
