-- ===== src/Wtp/Tx/Ack/Border.antt =====
-- Acknowledgements at the border of a fragment: `wtp_tx_handle_ack` of
-- client/wtp/wtp/transmission.c as a whole.
use wisp_ert.Common.{
  ◌⊎◌, ℕ, ◌+◌, ◌-◌, ◌≤◌, ◌<◌, ◌≡◌, ◌∙◌, ap, refl, false, List, [], ◌∷◌, ◌++◌, arith, length,
  length-append, drop, bytes16, to_u8, add16, u8_mod, u16_mod, done, ltb,
}
use wisp_ert.Wio.Buf.Bounds.{IsValid}
use wisp_ert.Wio.Queue.{Queue}
use wisp_ert.Wio.Queue.Refine.{Holds}
use wisp_ert.Wtp.Tx.{Fragment, TxCtrl}
use wisp_ert.Wtp.Tx.Ack.{acked, walk, fragment_end, remove_fragments, handle_ack}
use wisp_ert.Wtp.Tx.Window.{in_flight}
use wisp_ert.Wtp.Tx.Ack.Scan.{scan, walk-scan}
use wisp_ert.Wtp.Tx.Ack.Release.{
  Chain, scan-Chain, scan-inside, drop-Stored, released, remove_fragments-whole,
}

-- While the queue begins at its first slot, the first loop goes through its fragments in order.
walk-front :
    (b : ℕ) (fs : List Fragment) (q : Queue Fragment)
    → Holds q fs
    → q.end ≡ 0
    → q.size < u8_mod
    → walk q.size q b (to_u8 q.end) 0 ≡ scan b fs 0
walk-front b fs q h at_front short =
    let front : to_u8 q.end ≡ 0 = omega arith in
    let stands : drop 0 q.slots ≡ fs ++ drop q.size q.slots = rw at_front at (
      drop-Stored q.slots q.capacity q.end q.size fs h.small (omega (arith, h.count)) h.fits
        h.stored) in
    ap (λ i. walk q.size q b i 0) front
    ∙ walk-scan q fs (drop q.size q.slots) q.size b 0 0 stands h.count (omega arith) short

walk-Chain :
    (a b : ℕ) (gs hs : List Fragment) (q : Queue Fragment)
    → Holds q (gs ++ hs)
    → q.end ≡ 0
    → q.size < u8_mod
    → Chain a gs b
    → a < b
    → walk q.size q b (to_u8 q.end) 0 ≡ acked (length gs)
walk-Chain a b gs hs q h at_front short c l =
    walk-front b (gs ++ hs) q h at_front short
    ∙ scan-Chain a b 0 gs hs l (omega (arith, h.count, length-append gs hs)) c
    ∙ ap acked (omega arith)

-- An acknowledgement that is not at the end of a fragment: of a number inside of a fragment behind
-- those that end before it, or of one that has been acknowledged. While the fragments queue begins at
-- its first slot, it changes nothing, and no message counts as sent.
pub handle_ack-inside :
    (a c b : ℕ) (gs hs : List Fragment) (f : Fragment) (s : TxCtrl)
    → Holds s.fragments_queue (gs ++ f ∷ hs)
    → s.fragments_queue.end ≡ 0
    → s.fragments_queue.size < u8_mod
    → Chain a gs c
    → (gs ≡ []) ⊎ (c < b)
    → b < fragment_end f
    → b ≤ s.msg_begin_seq + s.msg_fragmented
    → s.msg_begin_seq + s.msg_fragmented < u16_mod
    → handle_ack b s ≡ done 0 s
unfolding handle_ack
handle_ack-inside a c b gs hs f s h at_front short chain before l known small =
    let valid : ltb (add16 s.msg_begin_seq s.msg_fragmented) b ≡ false = ground arith in
    rw
      (
        valid,
        walk-front b (gs ++ f ∷ hs) s.fragments_queue h at_front short,
        scan-inside a c b 0 gs hs f chain before l,
      )
      refl

-- An acknowledgement at the end of the oldest message, while the fragments queue begins at its first
-- slot and the message stands in the message buffer behind its length: its fragments leave the
-- queue, its end leaves the other queue, its memory is released, one message counts as sent, and the
-- window moves to the acknowledged number.
pub handle_ack-whole :
    (a e size : ℕ) (gs hs : List Fragment) (es : List ℕ) (s : TxCtrl) (rest : List ℕ)
    → Holds s.fragments_queue (gs ++ hs)
    → s.fragments_queue.end ≡ 0
    → s.fragments_queue.size < u8_mod
    → Chain a gs e
    → a < e
    → IsValid s.msg_buf
    → Holds s.msg_ends_queue (e ∷ es)
    → size < u16_mod
    → s.msg_buf.pos_a + 2 + size ≤ s.msg_buf.size
    → drop s.msg_buf.pos_a s.msg_buf.bytes ≡ bytes16 size ++ rest
    → e ≤ s.msg_begin_seq + s.msg_fragmented
    → s.msg_begin_seq + s.msg_fragmented < u16_mod
    → (q : Queue Fragment) × Holds q hs
      × (handle_ack e s
          ≡ done 1 (record (released (record s { fragments_queue = q }) size) { seq_num = e }))
unfolding handle_ack
handle_ack-whole a e size gs hs es s rest h at_front short c l v g small fits stands known below =
    let (q, h', removes) =
      remove_fragments-whole a e size gs hs es s rest c l h v g small fits stands in
    let valid : ltb (add16 s.msg_begin_seq s.msg_fragmented) e ≡ false = ground arith in
    (q, h', rw (valid, walk-Chain a e gs hs s.fragments_queue h at_front short c l, removes) refl)

-- While no fragment is queued, an acknowledgement of any number up to the last one cut succeeds and
-- becomes the next number, also where it is older than that: more is then in flight than before, though
-- nothing has been sent, and a fragment that is cut now is limited by a window that has moved back.
pub handle_ack-stale :
    (b : ℕ) (s : TxCtrl)
    → Holds s.fragments_queue []
    → b < s.seq_num
    → s.seq_num ≤ s.msg_begin_seq + s.msg_fragmented
    → s.msg_begin_seq + s.msg_fragmented < u16_mod
    → (handle_ack b s ≡ done 0 (record s { seq_num = b }))
      × (in_flight (record s { seq_num = b }) ≡ in_flight s + (s.seq_num - b))
unfolding handle_ack walk remove_fragments
handle_ack-stale b s h older known small =
    let valid : ltb (add16 s.msg_begin_seq s.msg_fragmented) b ≡ false = ground arith in
    let none_queued : walk s.fragments_queue.size s.fragments_queue b (to_u8 s.fragments_queue.end)
          0
        ≡ acked 0 =
      ap (λ n. walk n s.fragments_queue b (to_u8 s.fragments_queue.end) 0) h.count in
    (rw (valid, none_queued) refl, omega arith)
