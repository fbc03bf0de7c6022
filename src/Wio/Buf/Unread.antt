-- ===== src/Wio/Buf/Unread.antt =====
-- The buffers of client/wisp-base/wio/buf.c as queues of bytes: what has been written and not yet
-- been read.
use wisp_ert.Common.{ℕ, ◌+◌, ◌-◌, ◌≤◌, ◌≡◌, List, ◌++◌, arith, length, take, drop}
use wisp_ert.Common.Memory.{take-splice_behind}
use wisp_ert.Wio.Buf.{Buf}
use wisp_ert.Wio.Buf.Bounds.{IsValid}
use wisp_ert.Wio.Buf.Transfer.{written}

-- the bytes between the cursors
abbrev pub unread : Buf → List ℕ
unread b = take (b.pos_b - b.pos_a) (drop b.pos_a b.bytes)

pub unread-written :
    {b : Buf} (src : List ℕ)
    → IsValid b
    → b.pos_a ≤ b.pos_b
    → b.pos_b + length src ≤ b.size
    → unread (written b src) ≡ unread b ++ src
unread-written {b} src v h room =
    take-splice_behind b.bytes (b.pos_b + length src - b.pos_a) b.pos_b b.pos_a (b.pos_b - b.pos_a)
      src (omega arith) (omega arith) (omega arith)
