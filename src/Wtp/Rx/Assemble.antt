-- ===== src/Wtp/Rx/Assemble.antt =====
-- Assembly in `wtp_rx_handle_packet` of client/wtp/wtp/transmission.c: consecutive fragments go to
-- the message data buffer, and their memory is released.
use wisp_ert.Common.{
  ℕ, zero, suc, true, false, Option, none, some, ltb, ◌==◌, if◌then◌else◌, add16, sub16, add8,
  bytes16, done, fault, out_of_fuel, starve, M, ◌>>=◌, ◌>>◌, pure, get, modify,
}
use wisp_ert.Common.Memory.{slice, splice}
use wisp_ert.Wio.Buf
use wisp_ert.Wio.Buf.{Buf}
use wisp_ert.Wtp.Rx.{Fragment, RxCtrl, on_msg_data, on_fragments_buf, info_at, update_info}
use wisp_ert.Wtp.Rx.Fragments.{deref, assign}

-- "Move acknowledged message data": what has been read makes room.
unfoldable pub compact : M Buf (Unit {0})
compact b =
    if b.pos_b == b.pos_a
    then done tt (record b { pos_b = 0; pos_a = 0 })
    else elim (slice b.bytes b.pos_a (sub16 b.pos_b b.pos_a)) [
      | none ↦ fault
      | some rest ↦
          done tt
            (record b { bytes = splice b.bytes 0 rest; pos_b = sub16 b.pos_b b.pos_a; pos_a = 0 })
    ]

-- "Message begin check"
unfoldable pub check_begin : M RxCtrl (Unit {0})
check_begin s =
    if ltb s.msg_info_begin s.msg_info_size
    then (info_at s.msg_info_begin >>= λ info.
          if s.seq_num == info.begin then on_msg_data (Buf.write (bytes16 info.size)) else pure tt)
        s
    else done tt s

-- "Message end check": the number of messages that are complete
unfoldable pub check_end : M RxCtrl ℕ
check_end s =
    if ltb s.msg_info_begin s.msg_info_size
    then (info_at s.msg_info_begin >>= λ info.
          if s.seq_num == add16 info.begin info.size
          then update_info s.msg_info_begin (λ i. record i { in_use = false })
            >> modify (λ s. record s { msg_info_begin = info.next })
            >> pure 1
          else pure 0)
        s
    else done 0 s

-- "Append consecutive data fragments": the copy of one
unfoldable pub append_fragment : ℕ → Fragment → M RxCtrl (Unit {0})
unfolding assign
append_fragment p f = do
  on_msg_data (Buf.write_from f.payload 0 f.size)
  modify (λ s. record s { seq_num = add16 s.seq_num f.size })
  assign p (λ f. record f { assembled = true })

-- The loop over the fragments, on fuel: where it stopped, and the messages that are complete.
unfoldable pub assemble : ℕ → Option ℕ → ℕ → M RxCtrl (Option ℕ × ℕ)
unfolding check_begin check_end append_fragment deref
assemble zero a n_msgs = starve
assemble (suc fuel) none n_msgs = pure (none, n_msgs)
assemble (suc fuel) (some p) n_msgs = do
  check_begin
  f ← deref p
  s ← get
  elim (f.seq_num == s.seq_num) [
    | false ↦ pure (some p, n_msgs)
    | true ↦ append_fragment p f >> (check_end >>= λ n. assemble fuel f.next (add8 n_msgs n))
  ]

-- "Remove assembled data fragments", on fuel
unfoldable pub release : (header fuel : ℕ) → M RxCtrl (Unit {0})
unfolding deref
release header zero s = out_of_fuel
release header (suc fuel) s = elim (s.fragments_buf.pos_a == s.fragments_buf.pos_b) [
  | true ↦ done tt s
  | false ↦
      (deref s.fragments_buf.pos_a >>= λ f. elim f.assembled [
        | false ↦ pure tt
        | true ↦ on_fragments_buf (Buf.free (add16 header f.size)) >>= λ _. release header fuel
      ])
        s
]
