-- ===== src/Overlapped/Buffers.antt =====
-- What memset, memcpy and `Clear` leave in the buffers of a record.
use iocp_j_server.Base.{
  ◌-◌, ap, suc-add, ℕ, zero, suc, ◌+◌, ◌≤◌, ◌≡◌, refl, arith, List, [], ◌∷◌, ◌++◌, Bytes, length,
  drop, replicate, ok, length-append, length-replicate, length-drop,
}
use iocp_j_server.Wire.{MessageHeader, op_default, op_send, unset}
use iocp_j_server.Overlapped.{
  SystemMembers, Overlapped, buffer_size_max, header_size, zero_header, memset, memcpy,
  send_setting, clear, received, Use, connects, accepts, sends, receives,
}

-- The body buffer as `new char[BUFFER_SIZE_MAX]` made it, and zeros from `Wsabuf[1].len` on.
pub record IsClearable (o : Overlapped) : Type 0 where
  pub room : length o.body ≡ buffer_size_max
  pub within : o.body_len ≤ buffer_size_max
  pub tail_zero : drop o.body_len o.body ≡ replicate (buffer_size_max - o.body_len) 0

-- What `Clear` leaves.
abbrev pub blank : SystemMembers → Overlapped
blank members = record {
  members = members;
  event = 0;
  operation = op_default;
  socket = 0;
  sender = unset;
  head = zero_header;
  head_len = header_size;
  body = replicate buffer_size_max 0;
  body_len = buffer_size_max;
}

-- The body that a use carries, if any, fits the buffer.
abbrev pub Fits : Use → Type 0
Fits (connects socket sender) = Unit {0}
Fits (accepts socket sender) = Unit {0}
Fits (sends socket header body) = length body ≤ buffer_size_max
Fits (receives socket header bytes) = length bytes ≤ buffer_size_max

abbrev pub AllFit : List Use → Type 0
AllFit [] = Unit {0}
AllFit (u ∷ us) = Fits u × AllFit us

pub drop-all : (n : ℕ) (xs : Bytes) → length xs ≤ n → drop n xs ≡ []
drop-all zero [] h = refl
drop-all zero (x ∷ xs) h = absurd (omega arith)
drop-all (suc n) [] h = refl
drop-all (suc n) (x ∷ xs) h = drop-all n xs (omega arith)

pub drop-append : (xs ys : Bytes) → drop (length xs) (xs ++ ys) ≡ ys
drop-append [] ys = refl
drop-append (x ∷ xs) ys = drop-append xs ys

pub drop-replicate : (k n : ℕ) → drop k (replicate {A = ℕ} n 0) ≡ replicate (n - k) 0
drop-replicate zero n = ap (λ m. replicate m 0) (omega arith)
drop-replicate (suc k) zero =
    let none_left : 0 ≡ zero - suc k = omega arith in ap (λ m. replicate m 0) none_left
drop-replicate (suc k) (suc n) = rw (drop-replicate k n) (ap (λ m. replicate m 0) (omega arith))

replicate-append : (m n : ℕ) → replicate {A = ℕ} m 0 ++ replicate n 0 ≡ replicate (m + n) 0
replicate-append zero n = ap (λ k. replicate k 0) (omega arith)
replicate-append (suc m) n = rw (replicate-append m n) (ap (λ k. replicate k 0) (suc-add m n))

memset-ok : (buf : Bytes) (n : ℕ) → n ≤ length buf → memset buf n ≡ ok (replicate n 0 ++ drop n buf)
unfolding memset
memset-ok buf n h = ground arith

memcpy-ok :
    (buf src : Bytes) → length src ≤ length buf → memcpy buf src ≡ ok (src ++ drop (length src) buf)
unfolding memcpy
memcpy-ok buf src h = ground arith

-- `Clear` of a record in this state leaves nothing of what it was used for.
pub clear-IsClearable : {o : Overlapped} → IsClearable o → clear o ≡ ok (blank o.members)
unfolding clear
clear-IsClearable {o} c =
    rw (memset-ok o.body o.body_len (omega arith), c.tail_zero, replicate-append)
      (ap (λ n. ok (record (blank o.members) { body = replicate n 0 })) (omega arith))

pub length-blank : (m : SystemMembers) → length (blank m).body ≡ buffer_size_max
length-blank m = length-replicate buffer_size_max 0

-- A record whose whole buffer counts as used.
pub full-IsClearable :
    {o : Overlapped}
    → length o.body ≡ buffer_size_max
    → o.body_len ≡ buffer_size_max
    → IsClearable o
full-IsClearable {o} h e = record {
  room = h;
  within = omega arith;
  tail_zero = rw (drop-all o.body_len o.body (omega arith)) (ap (λ n. replicate n 0) nothing_left);
}
  where
    nothing_left : 0 ≡ buffer_size_max - o.body_len
    nothing_left = omega arith

pub length-over :
    (src buf : Bytes) → length src ≤ length buf → length (src ++ drop (length src) buf) ≡ length buf
length-over src buf h =
    omega (arith, length-append src (drop (length src) buf), length-drop (length src) buf)

drop-zeros : (n : ℕ) (ys : Bytes) → drop n (replicate n 0 ++ ys) ≡ ys
drop-zeros zero ys = refl
drop-zeros (suc n) ys = drop-zeros n ys

-- A body that fits takes the place of the front of the buffer.
pub send_setting-fits :
    (socket : ℕ) (header : MessageHeader) (body : Bytes) (o : Overlapped)
    → length body ≤ length o.body
    → send_setting socket header body o
      ≡ ok (record o {
        socket = socket;
        operation = op_send;
        head = header;
        head_len = header_size;
        body = body ++ drop (length body) o.body;
        body_len = length body;
      })
unfolding send_setting
send_setting-fits socket header body o h = rw (
  memset-ok o.body (length body) h,
  memcpy-ok zeroed body long,
  drop-zeros (length body) (drop (length body) o.body),
)
  where
    zeroed : Bytes
    zeroed = replicate (length body) 0 ++ drop (length body) o.body

    long : length body ≤ length zeroed
    long = omega (
      arith,
      length-append (replicate (length body) 0) (drop (length body) o.body),
      length-replicate {A = ℕ} (length body) 0,
    )

pub received-fits :
    (header : MessageHeader) (bytes : Bytes) (o : Overlapped)
    → length bytes ≤ length o.body
    → received header bytes o
      ≡ ok (record o { head = header; body = bytes ++ drop (length bytes) o.body })
unfolding received
received-fits header bytes o h = rw (memcpy-ok o.body bytes h)
