-- ===== src/Wtp/Rx/Packet.antt =====
-- `wtp_rx_handle_packet` of client/wtp/wtp/transmission.c.
use wisp_ert.Common.{
  ℕ, suc, Bool, List, ltb, leb, ◌==◌, ◌&&◌, if◌then◌else◌, length, add16, sub16, M, fail, ◌>>=◌,
  ◌>>◌, pure, get, modify,
}
use wisp_ert.Wio.Status.{invalid}
use wisp_ert.Wtp.Rx.{RxCtrl, on_msg_data}
use wisp_ert.Wtp.Rx.Info.{declare_msg}
use wisp_ert.Wtp.Rx.Fragments.{insert_fragment}
use wisp_ert.Wtp.Rx.Assemble.{compact, assemble, release}

-- "Packet data range must be within sliding window"
unfoldable pub in_window : RxCtrl → (seq_num size : ℕ) → Bool
in_window s seq_num size =
    let rel_pkt_begin = sub16 seq_num s.seq_num in
    let rel_pkt_end = add16 rel_pkt_begin size in
    ltb rel_pkt_begin rel_pkt_end && leb rel_pkt_end s.window_size

-- From "Move acknowledged message data" to the end: the number of messages that are complete goes
-- out. The fuel is the number of records and one more.
unfoldable pub deliver : (header : ℕ) → M RxCtrl ℕ
unfolding compact assemble release
deliver header = do
  on_msg_data compact
  s ← get
  (rest, n_msgs) ← assemble (suc (length s.nodes)) s.fragments_begin 0
  modify (λ s. record s { fragments_begin = rest })
  release header (suc (length s.nodes))
  pure n_msgs

-- `wtp_rx_handle_packet`. `header` is `sizeof(wtp_rx_fragment_t)`.
unfoldable pub handle_packet : (header seq_num : ℕ) → List ℕ → (new_msg_size : ℕ) → M RxCtrl ℕ
unfolding in_window declare_msg insert_fragment deliver
handle_packet header seq_num payload new_msg_size s =
    if in_window s seq_num (length payload)
    then ((if new_msg_size == 0 then pure tt else declare_msg seq_num new_msg_size) >>= λ _.
          insert_fragment header seq_num payload >>= λ _. deliver header)
        s
    else fail invalid s
