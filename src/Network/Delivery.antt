-- ===== src/Network/Delivery.antt =====
-- A message from one network manager to the hub behind another.
use iocp_j_server.Base.{
  ℕ, ◌*◌, ◌^◌, ◌≤◌, ◌<◌, ◌≡◌, ◌≢◌, refl, ap, ◌∙◌, arith, true, some, [], ◌∷◌, ◌++◌, length, take,
  drop, take-append, append-nil, subst, Bytes, ok, inl, inr,
}
use iocp_j_server.CircleQueue
use iocp_j_server.Wire.{
  op_send, sender_number, HostOrder, IsLittleEndian, send_header, string_of, receive_packet,
}
use iocp_j_server.Wire.Order.{receive_packet-send_header, string_of-prefix}
use iocp_j_server.Overlapped.{Overlapped, SystemMembers, buffer_size_max, header_size}
use iocp_j_server.Overlapped.Clean.{blank, length-blank, send_setting-fits}
use iocp_j_server.Network.{NetworkManager, pointers, find, hand_over, send_request}
use iocp_j_server.Network.Ownership.{Owns, pool, take_overlapped-Owns, update_self}

module _ (order : HostOrder) (little : IsLittleEndian order) {n k : ℕ} {w : NetworkManager}
    (owns : Owns n k [] w) (target socket handle content_type : ℕ) (buffer : Bytes)
    (known : find target w.connected_socket_map ≡ some socket)
    (live : w.sockets socket ≡ some handle) (fits : length buffer ≤ buffer_size_max)
    (some_left : pool w ≢ []) (short : content_type < 2 ^ 32) where
  -- The record that carries the message.
  abbrev carrier : SystemMembers → Overlapped
  carrier m = record (blank m) {
    socket = socket;
    operation = op_send;
    head = send_header order w.sender_type content_type (length buffer);
    head_len = header_size;
    body = buffer ++ drop (length buffer) (blank m).body;
    body_len = length buffer;
  }

  room : (m : SystemMembers) → length buffer ≤ length (blank m).body
  room m = omega (arith, fits, length-blank m)

  whole : string_of buffer (length buffer) ≡ ok buffer
  whole =
      subst (λ b. string_of b (length buffer) ≡ ok buffer) (append-nil buffer)
        (string_of-prefix buffer [])

  arrives :
      (m : SystemMembers) (key : ℕ) (rest : Bytes)
      → receive_packet order key
          (carrier m).head
          (take (carrier m).body_len (carrier m).body ++ rest)
        ≡ ok (record {
          sender_type = 16777216 * sender_number w.sender_type;
          completion_key = key;
          contents_type = content_type;
          buffer = buffer;
        })
  unfolding buffer_size_max
  arrives m key rest =
      ap (λ b. receive_packet order key (carrier m).head (b ++ rest))
        (take-append buffer (drop (length buffer) (blank m).body))
      ∙ receive_packet-send_header order little w.sender_type content_type key buffer rest short
          (omega (arith, fits))

  -- A message that fits the buffer, to a known live connection, on a little-endian host, where the pool
  -- is not empty and the system takes the record: SendRequest posts one record that carries it. From
  -- its header and its bytes, whatever follows them in the receiver's buffer, the receiving hub reads
  -- the same contents type and text, and the sender type with its bytes reversed.
  pub send_request-delivers :
      (q : ℕ) × (o : Overlapped) × (w' : NetworkManager) × (send_request order target content_type
          buffer
          (length buffer)
          true
          w
        ≡ ok (true, w'))
      × (w'.posted ≡ q ∷ w.posted)
      × (w'.heap q ≡ some o)
      × (o.operation ≡ op_send)
      × ((key : ℕ) (rest : Bytes)
          → receive_packet order key o.head (take o.body_len o.body ++ rest)
            ≡ ok (record {
              sender_type = 16777216 * sender_number w.sender_type;
              completion_key = key;
              contents_type = content_type;
              buffer = buffer;
            }))
  unfolding send_request hand_over
  send_request-delivers = elim (take_overlapped-Owns owns) [
    | inl (e, stops) ↦ absurd (some_left e)
    | inr (q, m, takes, owns') ↦ (
      q,
      carrier m,
      hand_over q (carrier m) true
          (record w { overlapped_queue = (CircleQueue.pop pointers w.overlapped_queue).1 }),
      rw (known, send_request)
          (rw (
            takes,
            whole,
            send_setting-fits socket (send_header order w.sender_type content_type (length buffer))
                buffer (blank m) (room m),
            live,
          )),
      refl,
      update_self w.heap q (some (carrier m)),
      refl,
      arrives m,
    )
  ]
