-- ===== src/Tests/Samples.antt =====
-- Concrete parameters: an element type, a byte order, a Redis server, numbers for `float`, a JSON
-- library and a flatbuffers library.
use iocp_j_server.Base.{
  ℕ, zero, suc, ◌+◌, ◌*◌, ◌/◌, ◌%◌, ◌^◌, ◌≡◌, refl, arith, true, false, Bool-cases, inl, inr,
  bytes_eq, bytes_eq→eq, ◌&&◌, Bool, Option, none, some, List, [], ◌∷◌, length, ltb, ◌==◌,
  if◌then◌else◌, Bytes, lookup, insert_or_assign, lookup-insert_self, ap,
}
use iocp_j_server.CircleQueue.{Slot}
use iocp_j_server.Wire.{HostOrder, IsLittleEndian}
use iocp_j_server.Redis.{Server, IsStore}
use iocp_j_server.Redis.Deleting.{IsDeleting}
use iocp_j_server.Json.{Floats}
use iocp_j_server.Protocol.{FlatBuffers, IsFlatBuffers}

-- Numbers, which a move leaves as they are.
abbrev pub number_slot : Slot ℕ
number_slot = record { blank = 0; moved = λ x. x }

abbrev pub swap_bytes : ℕ → ℕ
swap_bytes x =
    x / 16777216 + 256 * (x / 65536 % 256) + 65536 * (x / 256 % 256) + 16777216 * (x % 256)

abbrev pub swapping : HostOrder
swapping = record { htonl = swap_bytes; ntohl = swap_bytes }

pub swapping-IsLittleEndian : IsLittleEndian swapping
swapping-IsLittleEndian = record {
  ntohl-htonl = λ x h. omega arith;
  ntohl-bytes = λ a b c d ha hb hc hd. omega arith;
}

-- An association list, whose SCAN gives every key at once.
abbrev pub keys_of : List (Bytes × Bytes) → List (Option Bytes)
keys_of [] = []
keys_of ((k, v) ∷ rows) = some k ∷ keys_of rows

abbrev pub one_page : Server
one_page = record {
  State = List (Bytes × Bytes);
  set_ex = λ k v ttl s. insert_or_assign k v s;
  scan = λ cursor pattern s. some (record { cursor = 0; keys = keys_of s });
  get = λ k s. lookup k s;
  del = λ k s. (false, s);
}

-- A SCAN that gives the keys that match; a star stands for all that follows.
abbrev matches : Bytes → Bytes → Bool
matches [] [] = true
matches [] (c ∷ key) = false
matches (p ∷ pattern) [] = p == 42
matches (p ∷ pattern) (c ∷ key) =
    let rest = matches pattern key in if p == 42 then true else (p == c) && rest

abbrev keys_matching : Bytes → List (Bytes × Bytes) → List (Option Bytes)
keys_matching pattern [] = []
keys_matching pattern ((k, v) ∷ m) =
    let rest = keys_matching pattern m in if matches pattern k then some k ∷ rest else rest

abbrev pub matching : Server
matching = record one_page {
  scan = λ cursor pattern s. some (record { cursor = 0; keys = keys_matching pattern s });
}

pub one_page-IsStore : IsStore one_page
one_page-IsStore = record { get-set = λ k v ttl s. lookup-insert_self k v s }

-- The same with a DEL that deletes.
abbrev erase : Bytes → List (Bytes × Bytes) → List (Bytes × Bytes)
erase k [] = []
erase k ((j, v) ∷ m) = let rest = erase k m in if bytes_eq k j then rest else (j, v) ∷ rest

lookup-erase_self : (k : Bytes) (m : List (Bytes × Bytes)) → lookup k (erase k m) ≡ none
unfolding lookup
lookup-erase_self k [] = refl
lookup-erase_self k ((j, v) ∷ m) = elim (Bool-cases (bytes_eq k j)) [
  | inl same ↦ rw same (lookup-erase_self k m)
  | inr other ↦ rw (other, lookup) (rw other (lookup-erase_self k m))
]

lookup-erase_ne :
    (k i : Bytes) (m : List (Bytes × Bytes))
    → bytes_eq k i ≡ false
    → lookup k (erase i m) ≡ lookup k m
unfolding lookup
lookup-erase_ne k i [] h = refl
lookup-erase_ne k i ((j, v) ∷ m) h = elim (Bool-cases (bytes_eq i j)) [
  | inl same ↦ rw same (rw (← bytes_eq→eq i j same, h) (lookup-erase_ne k i m h))
  | inr other ↦ rw other (ap (λ o. if bytes_eq k j then some v else o) (lookup-erase_ne k i m h))
]

abbrev pub erasing : Server
erasing = record one_page { del = λ k s. (true, erase k s) }

pub erasing-IsDeleting : IsDeleting erasing
erasing-IsDeleting = record { get-del = lookup-erase_self; get-del_ne = lookup-erase_ne }

abbrev pub whole_floats : Floats
whole_floats = record {
  F = ℕ;
  of_int = λ a. a % 2 ^ 32;
  max = 2 ^ 32;
  div = λ x y. x / y;
  lt = λ x y. ltb x y;
  eq = λ x y. x == y;
}

-- A list of fields in threes: a tag, an offset and a value; the characters of a string follow it.
abbrev pub chars : Bytes → List ℕ → List ℕ
chars [] t = t
chars (c ∷ s) t = 3 ∷ 0 ∷ c ∷ chars s t

abbrev pub read_chars : ℕ → List ℕ → Bytes
read_chars zero t = []
read_chars (suc n) (tag ∷ w ∷ c ∷ t) = c ∷ read_chars n t
read_chars (suc n) _ = []

abbrev pub field_of : ℕ → ℕ → List ℕ → ℕ
field_of v d (tag ∷ w ∷ x ∷ t) = if tag == 1 && v == w then x else field_of v d t
field_of v d _ = d

abbrev pub string_at : ℕ → List ℕ → Option Bytes
string_at v (tag ∷ w ∷ n ∷ t) = if tag == 2 && v == w then some (read_chars n t) else string_at v t
string_at v _ = none

abbrev pub triples : FlatBuffers
triples = record {
  Table = List ℕ;
  start_table = [];
  add_element = λ v x d t. 1 ∷ v ∷ x ∷ t;
  add_string = λ v s t. 2 ∷ v ∷ length s ∷ chars s t;
  get_field = λ v d t. field_of v d t;
  get_pointer = λ v t. string_at v t;
  finish = λ t. t;
  get_root = λ t. t;
}

field_of-chars : (v d : ℕ) (s : Bytes) (t : List ℕ) → field_of v d (chars s t) ≡ field_of v d t
field_of-chars v d [] t = refl
field_of-chars v d (c ∷ s) t = field_of-chars v d s t

read_chars-chars : (s : Bytes) (t : List ℕ) → read_chars (length s) (chars s t) ≡ s
read_chars-chars [] t = refl
read_chars-chars (c ∷ s) t = ap (λ l. c ∷ l) (read_chars-chars s t)

same_number : (n : ℕ) → (n == n) ≡ true
same_number n = ground arith

pub triples-IsFlatBuffers : IsFlatBuffers triples
triples-IsFlatBuffers = record {
  get_field-add = λ v x d t. rw same_number refl;
  get_field-add_ne = λ v w x d e t h. rw h refl;
  get_field-string = λ v w d s t h. field_of-chars v d s t;
  get_pointer-add = λ v s t. rw (same_number, read_chars-chars s t) refl;
  get_pointer-element = λ v w x d t h. refl;
  get_root-finish = λ t. refl;
}
