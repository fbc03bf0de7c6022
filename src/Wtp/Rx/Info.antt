-- ===== src/Wtp/Rx/Info.antt =====
-- "Begin of message" in `wtp_rx_handle_packet` of client/wtp/wtp/transmission.c: the list of the
-- messages that have been declared, ordered by where they begin.
use wisp_ert.Common.{
  ℕ, zero, suc, ◌+◌, Bool, true, false, Option, none, some, ltb, if◌then◌else◌, length, add16, done,
  fail, out_of_fuel, M, ◌>>=◌, ◌>>◌, pure, get, modify,
}
use wisp_ert.Wio.Status.{invalid, no_memory}
use wisp_ert.Wtp.Rx.{RxCtrl, info_at, update_info}

-- "Find position for insertion", on fuel: the items before and after it
unfoldable pub find_info : ℕ → (seq_num before after : ℕ) → M RxCtrl (ℕ × ℕ)
find_info zero seq_num before after s = out_of_fuel
find_info (suc fuel) seq_num before after s =
    if ltb after s.msg_info_size
    then (info_at after >>= λ info. elim (ltb info.begin seq_num) [
      | true ↦ find_info fuel seq_num after info.next
      | false ↦ pure (before, after)
    ])
        s
    else done (before, after) s

-- "Look for spare message information item": the first item not in use from index `i` on, with
-- the rounds left
unfoldable pub find_spare : ℕ → ℕ → M RxCtrl (Option ℕ)
find_spare zero i = pure none
find_spare (suc rounds) i = info_at i >>= λ info. elim info.in_use [
  | true ↦ find_spare rounds (i + 1)
  | false ↦ pure (some i)
]

-- the item `index`, put between `before` and `after`
unfoldable pub link_info : (index before after seq_num size : ℕ) → M RxCtrl (Unit {0})
link_info index before after seq_num size = do
  update_info index (λ i. record i { in_use = true; begin = seq_num; size = size })
  s ← get
  if ltb before s.msg_info_size
      then update_info before (λ i. record i { next = index })
      else modify (λ s. record s { msg_info_begin = index })
  update_info index (λ i. record i { next = after })

-- the new message would run into the one that begins next
unfoldable pub overlaps_next : (after seq_num size : ℕ) → M RxCtrl Bool
overlaps_next after seq_num size s =
    if ltb after s.msg_info_size
    then (info_at after >>= λ info. pure (ltb info.begin (add16 seq_num size))) s
    else done false s

-- The whole branch. The fuel is the number of items and one more.
unfoldable pub declare_msg : (seq_num new_msg_size : ℕ) → M RxCtrl (Unit {0})
unfolding find_info find_spare link_info overlaps_next
declare_msg seq_num new_msg_size = do
  s ← get
  (before, after) ←
      find_info (suc (length s.msg_info_store)) seq_num s.msg_info_size s.msg_info_begin
  overlap ← overlaps_next after seq_num new_msg_size
  if overlap then fail invalid else do
    spare ← find_spare s.msg_info_size 0
    elim spare [
      | none ↦ fail no_memory
      | some index ↦ link_info index before after seq_num new_msg_size
    ]
