-- ===== src/Wtp/Tx/Window.antt =====
-- How large a fragment `wtp_tx_make_fragment` of client/wtp/wtp/transmission.c cuts.
use wisp_ert.Common.{
  ℕ, ◌+◌, ◌-◌, ◌*◌, ◌≤◌, ◌<◌, ◌≡◌, ◌==◌, suc, leb, Bool-cases, inl, inr, if◌then◌else◌, arith,
  add16, sub16, u16_mod, u8_mod,
}
use wisp_ert.Wtp.Tx.{TxCtrl, fragment_data_size, min3}

-- the bytes sent and not acknowledged
abbrev pub in_flight : TxCtrl → ℕ
in_flight s = sub16 (add16 s.msg_begin_seq s.msg_fragmented) s.seq_num

-- the size of the header of the packet that carries the fragment
abbrev pub header_size : TxCtrl → ℕ
header_size s = if s.msg_fragmented == 0 then 6 else 4

-- If the READ size has room for the header, the message is not shorter than what has been cut from
-- it, and no more is in flight than the window holds, then header and fragment fit the READ size,
-- the fragment ends within the message, and with it no more is in flight than the window holds.
pub fragment_data_size-bounds :
    (s : TxCtrl) (avail_size msg_size : ℕ)
    → avail_size < u8_mod
    → header_size s ≤ avail_size
    → s.msg_fragmented ≤ msg_size
    → msg_size < u16_mod
    → s.seq_num < u16_mod
    → s.window_size < u16_mod
    → in_flight s ≤ s.window_size
    → (header_size s + fragment_data_size s avail_size msg_size ≤ avail_size)
      × (s.msg_fragmented + fragment_data_size s avail_size msg_size ≤ msg_size)
      × (in_flight s + fragment_data_size s avail_size msg_size ≤ s.window_size)
unfolding fragment_data_size min3
fragment_data_size-bounds s avail_size msg_size a h k l m n w = ground arith

-- If moreover the READ size has room behind the header, the message has not been cut whole and the
-- window is not full, then the fragment has at least one byte.
pub fragment_data_size-pos :
    (s : TxCtrl) (avail_size msg_size : ℕ)
    → avail_size < u8_mod
    → msg_size < u16_mod
    → s.seq_num < u16_mod
    → s.window_size < u16_mod
    → header_size s < avail_size
    → s.msg_fragmented < msg_size
    → in_flight s < s.window_size
    → 0 < fragment_data_size s avail_size msg_size
unfolding fragment_data_size min3
fragment_data_size-pos s avail_size msg_size a l m n x y z = ground arith

-- While the window has room for the rest of the message, READ size and message limit a fragment.
pub fragment_data_size-open :
    (s : TxCtrl) (avail_size msg_size : ℕ)
    → avail_size < u8_mod
    → header_size s < avail_size
    → s.msg_fragmented ≤ msg_size
    → msg_size < u16_mod
    → s.seq_num < u16_mod
    → s.window_size < u16_mod
    → in_flight s + (msg_size - s.msg_fragmented) ≤ s.window_size
    → fragment_data_size s avail_size msg_size ≡ (
        if leb (avail_size - header_size s) (msg_size - s.msg_fragmented)
        then avail_size - header_size s
        else msg_size - s.msg_fragmented)
unfolding fragment_data_size min3
fragment_data_size-open s avail_size msg_size a h k l m n w = ground arith

-- a fragment of the size that READ size and message allow, and what is left for the fragments behind
pub rest-bounds :
    (f size header avail n k : ℕ)
    → header ≤ 6
    → 6 < avail
    → f < size
    → k ≡ (if leb (avail - header) (size - f) then avail - header else size - f)
    → size - f ≤ suc n * (avail - 6)
    → (0 < k) × (f + k ≤ size) × (size - (f + k) ≤ n * (avail - 6))
rest-bounds f size header avail n k h a l e enough =
    elim (Bool-cases (leb (avail - header) (size - f))) [
      | inl t ↦ ground arith
      | inr t ↦ ground arith
    ]
