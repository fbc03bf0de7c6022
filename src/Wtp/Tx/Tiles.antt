-- ===== src/Wtp/Tx/Tiles.antt =====
-- Fragments that cover a message, and calls of `wtp_tx_make_fragment` of
-- client/wtp/wtp/transmission.c that cut it.
use wisp_ert.Common.{
  ℕ, zero, suc, ◌+◌, ◌≤◌, ◌<◌, ◌≡◌, List, [], ◌∷◌, ◌++◌, length, take, drop, add16, done, M, ◌>>◌,
  pure, ◌==◌, if◌then◌else◌,
}
use wisp_ert.Wio.Queue.Refine.{Holds}
use wisp_ert.Wtp.Tx.{Fragment, TxCtrl, make_fragment}

-- calls of `wtp_tx_make_fragment` with the same READ size
abbrev pub make_fragments : ℕ → (avail_size : ℕ) → M TxCtrl (Unit {0})
make_fragments zero avail_size = pure tt
make_fragments (suc n) avail_size = make_fragment avail_size >> make_fragments n avail_size

-- the bytes that the fragments point at, one after the other
abbrev pub carried : (bytes : List ℕ) → List Fragment → List ℕ
carried bytes [] = []
carried bytes (f ∷ fs) = take f.size (drop f.data_at bytes) ++ carried bytes fs

-- The fragments cover a message of `size` bytes that begins at the number `begin`, from its byte `at`
-- on: none is empty, each has the number of its first byte, and the message's size stands in the
-- one at the message's begin and in no other.
abbrev pub Tiles : (begin size at : ℕ) → List Fragment → Type 0
Tiles begin size at [] = at ≡ size
Tiles begin size at (f ∷ fs) =
    (0 < f.size)
    × (f.seq_num ≡ add16 begin at)
    × (f.msg_size ≡ (if at == 0 then size else 0))
    × Tiles begin size (at + f.size) fs

-- The bytes of each fragment are there, and it is no larger than the READ size.
abbrev pub Sound : (bytes : List ℕ) (avail_size : ℕ) → List Fragment → Type 0
Sound bytes avail_size [] = Unit
Sound bytes avail_size (f ∷ fs) =
    (length (take f.size (drop f.data_at bytes)) ≡ f.size)
    × (f.size ≤ avail_size)
    × Sound bytes avail_size fs

-- the message's end, if its first fragment has not been cut
abbrev pub new_end : TxCtrl → (size : ℕ) → List ℕ
new_end s size = if s.msg_fragmented == 0 then add16 s.msg_begin_seq size ∷ [] else []

-- What at most `n` calls have done to a control that held `fs` and `ends`.
pub record WholeCut (s : TxCtrl) (avail_size size n : ℕ) (payload : List ℕ) (fs : List Fragment)
    (ends : List ℕ) : Type 0 where
  pub calls : ℕ
  pub after : TxCtrl
  pub new : List Fragment
  pub few : calls ≤ n
  pub made : make_fragments calls avail_size s ≡ done tt after
  pub same : after ≡ record s {
    msg_fragmented = size;
    fragments_queue = after.fragments_queue;
    msg_ends_queue = after.msg_ends_queue;
  }
  pub same_end : after.fragments_queue.end ≡ s.fragments_queue.end
  pub one_each : length new ≡ calls
  pub queued : Holds after.fragments_queue (fs ++ new)
  pub ended : Holds after.msg_ends_queue (ends ++ new_end s size)
  pub tiles : Tiles s.msg_begin_seq size s.msg_fragmented new
  pub sound : Sound s.msg_buf.bytes avail_size new
  pub bytes : carried s.msg_buf.bytes new ≡ drop s.msg_fragmented payload
