-- ===== src/Wtp/Endpoint/Load/Encode.antt =====
-- The packets that `wtp_load_read_mem` of client/wtp/wtp/endpoint.c writes for the reader.
use mathlib.Core.List.{flatten}
use wisp_ert.Common.{
  ℕ, ◌+◌, ◌≤◌, ◌<◌, ◌≡◌, ◌∙◌, ap, sym, List, [], ◌∷◌, ◌++◌, length, take, drop, arith, u16_mod,
  done, leb, if◌then◌else◌, ◌==◌, ◌/◌, ◌%◌, length-take, length-drop,
}
use wisp_ert.Common.Memory.{splice}
use wisp_ert.Wio.Buf.{Buf, write_from}
use wisp_ert.Wio.Buf.Bounds.{IsValid, write_from_exact, write_exact}
use wisp_ert.Wio.Buf.Transfer.{written, written-IsValid, written-append, write_chunks-fits}
use wisp_ert.Wtp.Packet.{pkt_end}
use wisp_ert.Wtp.Tx.{Fragment}
use wisp_ert.Wtp.Endpoint.{ignore_status}
use wisp_ert.Wtp.Endpoint.Load.{packet_header, write_packet}

-- the bytes of a fragment in the message buffer's memory
abbrev pub payload_of : List ℕ → Fragment → List ℕ
payload_of src f = take f.size (drop f.data_at src)

-- What a header is on the wire: 4, the low and the high byte of the message's size and those of the
-- sequence number, and the payload's size, where the fragment begins a message; without the size, after
-- a 5, where it continues one.
abbrev pub wire_header : Fragment → List ℕ
wire_header f =
    if f.msg_size == 0
    then 5 ∷ f.seq_num % 256 ∷ f.seq_num / 256 % 256 ∷ f.size ∷ []
    else 4
      ∷ f.msg_size % 256
      ∷ f.msg_size / 256 % 256
      ∷ f.seq_num % 256
      ∷ f.seq_num / 256 % 256
      ∷ f.size
      ∷ []

flatten-packet_header : (f : Fragment) → flatten (packet_header f) ≡ wire_header f
unfolding packet_header flatten
flatten-packet_header f = ground arith

write_packet-flatten :
    (src : List ℕ) (f : Fragment) (b : Buf)
    → IsValid b
    → f.data_at + f.size ≤ length src
    → b.pos_b + length (flatten (packet_header f)) + f.size ≤ b.size
    → b.size + 1 < u16_mod
    → write_packet src f b
      ≡ done tt (
          if leb (b.pos_b + length (flatten (packet_header f)) + f.size + 1) b.size
          then written b (flatten (packet_header f) ++ payload_of src f ++ pkt_end ∷ [])
          else written b (flatten (packet_header f) ++ payload_of src f))
unfolding write_packet
write_packet-flatten src f b v h room below =
    rw (write_chunks-fits (packet_header f) b v (omega arith), from, ignore_status)
      (ground (
        arith,
        count,
        write_exact v'' (pkt_end ∷ []) (omega (arith, count)),
        written-append b hdr payload,
        written-append b (hdr ++ payload) (pkt_end ∷ []),
      ))
  where
    hdr : List ℕ
    hdr = flatten (packet_header f)

    payload : List ℕ
    payload = payload_of src f

    count : length payload ≡ f.size
    count = omega (arith, length-take f.size (drop f.data_at src), length-drop f.data_at src)

    v' : IsValid (written b hdr)
    v' = written-IsValid hdr v (omega arith)

    v'' : IsValid (written (written b hdr) payload)
    v'' = written-IsValid payload v' (omega (arith, count))

    b' : ℕ → Buf
    b' n = record (written b hdr) {
      bytes = splice (splice b.bytes b.pos_b hdr) (b.pos_b + length hdr) payload;
      pos_b = b.pos_b + length hdr + n;
    }

    from :
        write_from src f.data_at f.size (written b hdr) ≡ done tt (written (written b hdr) payload)
    from =
        let e : write_from src f.data_at f.size (written b hdr) ≡ done tt (b' f.size) =
          ground (arith, write_from_exact v' src f.data_at f.size (omega arith) h) in
        e ∙ ap (λ n. done tt (b' n)) (sym count)

-- If the fragment's bytes are in the message buffer's memory and header and bytes fit into the
-- READ memory, the packet is the header, the bytes, and WTP_PKT_END (a zero) if there is room for it. The
-- header is 4, the message's size, the sequence number and the payload's size where the fragment begins
-- a message, and 5, the sequence number and the payload's size where it continues one; sizes of messages
-- and sequence numbers stand with their low byte first.
pub write_packet-fits :
    (src : List ℕ) (f : Fragment) (b : Buf)
    → IsValid b
    → f.data_at + f.size ≤ length src
    → b.pos_b + length (wire_header f) + f.size ≤ b.size
    → b.size + 1 < u16_mod
    → write_packet src f b
      ≡ done tt (
          if leb (b.pos_b + length (wire_header f) + f.size + 1) b.size
          then written b (wire_header f ++ payload_of src f ++ 0 ∷ [])
          else written b (wire_header f ++ payload_of src f))
write_packet-fits src f b v h room below =
    let e = flatten-packet_header f in
    rw e at (write_packet-flatten src f b v h (omega (arith, room, ap length e)) below)
