-- ===== src/Wire/Order.antt =====
-- What of a message survives its way from `SendRequest` to `ProcessIocp`.
use iocp_j_server.Base.{
  ℕ, ◌*◌, ◌^◌, ◌<◌, ◌≡◌, ◌∙◌, ap, lt→ltb, arith, false, ◌++◌, Bytes, length, length-append,
  take-append, ltb, ok, fault, out_of_bounds,
}
use iocp_j_server.Wire.{
  SenderType, sender_number, MessageHeader, HostOrder, IsLittleEndian, string_of, send_header,
  receive_packet,
}

pub string_of-prefix : (body rest : Bytes) → string_of (body ++ rest) (length body) ≡ ok body
unfolding string_of
string_of-prefix body rest = rw (fits, take-append body rest)
  where
    fits : ltb (length (body ++ rest)) (length body) ≡ false
    fits = ground (arith, length-append body rest)

string_of-overrun : (buf : Bytes) (n : ℕ) → length buf < n → string_of buf n ≡ fault out_of_bounds
unfolding string_of
string_of-overrun buf n h = rw (lt→ltb (length buf) n h)

module _ (h : HostOrder) where
  ntohl-byte : IsLittleEndian h → (a : ℕ) → a < 256 → h.ntohl a ≡ 16777216 * a
  ntohl-byte e a b =
      ap h.ntohl (omega arith)
      ∙ e.ntohl-bytes a 0 0 0 b (omega arith) (omega arith) (omega arith)
      ∙ omega arith

  sender_number-lt : (s : SenderType) → sender_number s < 256
  unfolding sender_number
  sender_number-lt s = ground arith

  -- A body of fewer than 2 ^ 31 bytes, at the front of the receiver's buffer, arrives as it was
  -- sent, under its contents type below 2 ^ 32; the sender type arrives with its bytes reversed.
  pub receive_packet-send_header :
      IsLittleEndian h
      → (sender : SenderType) (content_type key : ℕ) (body rest : Bytes) → content_type < 2 ^ 32
      → length body < 2 ^ 31
      → receive_packet h key (send_header h sender content_type (length body)) (body ++ rest)
        ≡ ok (record {
          sender_type = 16777216 * sender_number sender;
          completion_key = key;
          contents_type = content_type;
          buffer = body;
        })
  unfolding receive_packet send_header
  receive_packet-send_header e sender content_type key body rest hc hb = rw (
    e.ntohl-htonl (length body) (omega arith),
    string_of-prefix body rest,
    e.ntohl-htonl content_type hc,
    ntohl-byte e (sender_number sender) (sender_number-lt sender),
  )

  -- A header that announces more bytes than the buffer has makes the receiver read past its end.
  pub receive_packet-overrun :
      (key : ℕ) (header : MessageHeader) (buf : Bytes)
      → length buf < h.ntohl header.body_size
      → receive_packet h key header buf ≡ fault out_of_bounds
  unfolding receive_packet
  receive_packet-overrun key header buf hb =
      rw (string_of-overrun buf (h.ntohl header.body_size) hb)
