-- ===== src/Overlapped/Copies.antt =====
-- CustomOverlapped's copy constructor and destructor, with the arrays that `Wsabuf` points to in a map
-- from addresses.
use iocp_j_server.Base.{
  ℕ, ◌<◌, ◌≡◌, refl, update, false, Option, none, some, Bytes, ltb, lt→ltb, ap, sym, ◌∙◌, ==_comm,
  ==_refl, ◌==◌, if◌then◌else◌, Outcome, ok, fault, null_pointer, ◌>>=◌,
}
use iocp_j_server.Overlapped.{SystemMembers}
use iocp_j_server.Wire.{OperationType, op_default, SenderType, unset}

abbrev pub Arrays : Type 0
Arrays = ℕ → Option Bytes

-- A record with its two buffers by address and length. A member that no constructor has initialised is
-- `none`.
pub record Raw : Type 0 where
  pub members : Option SystemMembers
  pub event : ℕ
  pub operation : OperationType
  pub socket : Option ℕ
  pub sender : Option SenderType
  pub head_buf : ℕ
  pub head_len : ℕ
  pub body_buf : ℕ
  pub body_len : ℕ

-- The copy constructor: the copy points to the same buffers.
unfoldable pub copy : Raw → Raw
copy other = record {
  members = none;
  event = other.event;
  operation = other.operation;
  socket = none;
  sender = none;
  head_buf = if ltb 0 other.head_len then other.head_buf else 0;
  head_len = if ltb 0 other.head_len then other.head_len else 0;
  body_buf = if ltb 0 other.body_len then other.body_buf else 0;
  body_len = if ltb 0 other.body_len then other.body_len else 0;
}

-- `delete[] p`: of null it does nothing, and of what is no array it is undefined.
unfoldable pub delete_array : ℕ → Arrays → Outcome Arrays
delete_array p arrays =
    let deleted : Outcome Arrays = elim (arrays p) [
      | none ↦ fault null_pointer
      | some bytes ↦ ok (update arrays p none)
    ] in
    if p == 0 then ok arrays else deleted

-- The destructor.
unfoldable pub destroy : Raw → Arrays → Outcome (Raw × Arrays)
unfolding delete_array
destroy o arrays = do
  without_head ← delete_array o.head_buf arrays
  without_body ← delete_array o.body_buf without_head
  ok (
    record o { operation = op_default; sender = some unset; event = 0; head_len = 0; body_len = 0 },
    without_body,
  )

-- A record with its buffers, as the first constructor makes it.
pub record HasBuffers (o : Raw) (arrays : Arrays) : Type 0 where
  pub head_there : (bytes : Bytes) × (arrays o.head_buf ≡ some bytes)
  pub body_there : (bytes : Bytes) × (arrays o.body_buf ≡ some bytes)
  pub head_not_null : (o.head_buf == 0) ≡ false
  pub body_not_null : (o.body_buf == 0) ≡ false
  pub two : (o.head_buf == o.body_buf) ≡ false
  pub head_some : 0 < o.head_len
  pub body_some : 0 < o.body_len

-- The arrays without the two buffers of a record.
abbrev pub freed : Raw → Arrays → Arrays
freed o arrays = update (update arrays o.head_buf none) o.body_buf none

delete_array-there :
    (p : ℕ) (arrays : Arrays) {bytes : Bytes}
    → (p == 0) ≡ false
    → arrays p ≡ some bytes
    → delete_array p arrays ≡ ok (update arrays p none)
unfolding delete_array
delete_array-there p arrays not_null there = rw (not_null, there) refl

delete_array-gone :
    (p : ℕ) (arrays : Arrays)
    → (p == 0) ≡ false
    → arrays p ≡ none
    → delete_array p arrays ≡ fault null_pointer
unfolding delete_array
delete_array-gone p arrays not_null gone = rw (not_null, gone) refl

module _ {o : Raw} {arrays : Arrays} (has : HasBuffers o arrays) where
  copy-HasBuffers : HasBuffers (copy o) arrays
  unfolding copy
  copy-HasBuffers =
      rw (lt→ltb 0 o.head_len has.head_some, lt→ltb 0 o.body_len has.body_some)
        (record {
          head_there = has.head_there;
          body_there = has.body_there;
          head_not_null = has.head_not_null;
          body_not_null = has.body_not_null;
          two = has.two;
          head_some = has.head_some;
          body_some = has.body_some;
        })

  freed-copy : freed (copy o) arrays ≡ freed o arrays
  unfolding copy
  freed-copy = rw (lt→ltb 0 o.head_len has.head_some, lt→ltb 0 o.body_len has.body_some) refl

  head_gone : freed o arrays o.head_buf ≡ none
  head_gone = rw (==_comm o.body_buf o.head_buf, has.two, ==_refl o.head_buf) refl

  destroy-HasBuffers : (o' : Raw) × (destroy o arrays ≡ ok (o', freed o arrays))
  unfolding destroy
  destroy-HasBuffers =
      let (head, head_there) = has.head_there in
      let (body, body_there) = has.body_there in
      let body_left : update arrays o.head_buf none o.body_buf ≡ some body =
        rw (has.two, body_there) refl in
      (
        record o {
          operation = op_default;
          sender = some unset;
          event = 0;
          head_len = 0;
          body_len = 0;
        },
        rw
            (
              delete_array-there o.head_buf arrays has.head_not_null head_there,
              delete_array-there o.body_buf _ has.body_not_null body_left,
            )
            refl,
      )

  destroy-freed : destroy o (freed o arrays) ≡ fault null_pointer
  unfolding destroy
  destroy-freed =
      rw (delete_array-gone o.head_buf (freed o arrays) has.head_not_null head_gone) refl

-- Of a record with its buffers and a copy of it, either can be destroyed, which frees the two buffers
-- and no other array; but whichever it is, destroying the other then frees a buffer that is gone.
pub destroy-copy :
    {o : Raw} {arrays : Arrays}
    → HasBuffers o arrays
    → ((o' : Raw) × (destroy o arrays ≡ ok (o', freed o arrays)))
      × ((o' : Raw) × (destroy (copy o) arrays ≡ ok (o', freed o arrays)))
      × (destroy (copy o) (freed o arrays) ≡ fault null_pointer)
      × (destroy o (freed o arrays) ≡ fault null_pointer)
destroy-copy {o} {arrays} has =
    let copied = copy-HasBuffers has in
    let (o', destroys) = destroy-HasBuffers copied in
    let same = freed-copy has in
    (
      destroy-HasBuffers has,
      (o', destroys ∙ ap (λ m. ok (o', m)) same),
      ap (destroy (copy o)) (sym same) ∙ destroy-freed copied,
      destroy-freed has,
    )
