-- ===== src/Wtp/Rx/Compact.antt =====
-- "Move acknowledged message data" in `wtp_rx_handle_packet` of client/wtp/wtp/transmission.c, and
-- the test for the sliding window.
use wisp_ert.Common.{
  ℕ, ◌+◌, ◌-◌, ◌≤◌, ◌<◌, ◌≡◌, refl, ap, ◌∙◌, true, arith, length, take, drop, length-take,
  length-drop, ◌==◌, Bool-cases, inl, inr, sub16, u16_mod, done,
}
use mathlib.Core.Logic.{◌↔◌}
use wisp_ert.Common.Memory.{splice, slice-some, take-splice, length-splice}
use wisp_ert.Wio.Buf.{Buf}
use wisp_ert.Wio.Buf.Bounds.{IsValid}
use wisp_ert.Wio.Buf.Unread.{unread}
use wisp_ert.Wtp.Rx.{RxCtrl}
use wisp_ert.Wtp.Rx.Assemble.{compact}
use wisp_ert.Wtp.Rx.Packet.{in_window}

-- In a valid buffer whose read cursor is not behind its write cursor, the move succeeds, keeps the
-- buffer valid and its size, puts the read cursor at 0 and keeps the unread bytes in order.
pub unread-compact :
    (b : Buf)
    → IsValid b
    → b.pos_a ≤ b.pos_b
    → (b' : Buf) × (compact b ≡ done tt b')
      × IsValid b'
      × (b'.size ≡ b.size)
      × (b'.pos_a ≡ 0)
      × (b'.pos_b ≡ b.pos_b - b.pos_a)
      × (unread b' ≡ unread b)
unfolding compact
unread-compact b v h = elim (Bool-cases (b.pos_b == b.pos_a)) [
  | inl same ↦ (
    record b { pos_b = 0; pos_a = 0 },
    ground arith,
    ground arith,
    refl,
    refl,
    ground arith,
    nothing same,
  )
  | inr more ↦ (
    record b { bytes = splice b.bytes 0 (unread b); pos_b = b.pos_b - b.pos_a; pos_a = 0 },
    ground (arith, slice-some b.bytes b.pos_a (b.pos_b - b.pos_a)),
    ground (arith, length-splice b.bytes 0 (unread b)),
    refl,
    refl,
    refl,
    ap (λ n. take n (splice b.bytes 0 (unread b))) whole
        ∙ take-splice b.bytes 0 (unread b) (omega (arith, count)),
  )
]
  where
    nothing : (b.pos_b == b.pos_a) ≡ true → take 0 (drop 0 b.bytes) ≡ unread b
    nothing same =
        let e : 0 ≡ b.pos_b - b.pos_a = ground arith in ap (λ n. take n (drop b.pos_a b.bytes)) e

    count : length (unread b) ≡ b.pos_b - b.pos_a
    count =
        omega (
          arith,
          length-take (b.pos_b - b.pos_a) (drop b.pos_a b.bytes),
          length-drop b.pos_a b.bytes,
        )

    whole : b.pos_b - b.pos_a - 0 ≡ length (unread b)
    whole = omega (arith, count)

-- A packet of `size` bytes is accepted exactly if it is not empty and ends within the window that
-- begins at the sequence number awaited, numbers being modulo 2^16.
pub in_window_iff :
    (s : RxCtrl) (seq_num size : ℕ)
    → size < u16_mod
    → s.window_size < u16_mod
    → (in_window s seq_num size ≡ true)
      ↔ ((0 < size) × (sub16 seq_num s.seq_num + size ≤ s.window_size))
unfolding in_window
in_window_iff s seq_num size h k = ground arith
