-- ===== src/Wtp/Rx/Continue.antt =====
-- One packet of the message that the receive control of client/wtp/wtp/transmission.c has declared,
-- or that declares it.
use wisp_ert.Common.{
  ℕ, ◌+◌, ◌≤◌, ◌<◌, ◌≡◌, true, false, List, arith, length, sub16, u8_mod, u16_mod, done, ◌==◌,
  if◌then◌else◌,
}
use wisp_ert.Wio.Buf.{Buf}
use wisp_ert.Wio.Buf.Bounds.{IsValid}
use wisp_ert.Wtp.Rx.{Fragment, MsgInfo, RxCtrl}
use wisp_ert.Wtp.Rx.Assemble.{compact}
use wisp_ert.Wtp.Rx.Packet.{in_window, deliver, handle_packet}
use wisp_ert.Wtp.Rx.Waiting.{waiting, declare_msg-waiting}
use wisp_ert.Wtp.Rx.Partial.{
  partial, placed, headed, ends, taken, insert_fragment-partial, deliver-placed,
}

pub in_window-next :
    (s : RxCtrl) (n : ℕ)
    → s.seq_num < u16_mod
    → 0 < n
    → n < u8_mod
    → n ≤ s.window_size
    → in_window s s.seq_num n ≡ true
unfolding in_window
in_window-next s n small some_byte short within =
    let here : sub16 s.seq_num s.seq_num ≡ 0 = omega arith in ground (arith, here)

module _ (window header : ℕ) (begin total : ℕ) (items : List MsgInfo) (m : ℕ) where
  -- what a packet needs of a control whose message data is `msgs` once it has been moved
  pub record Ready (seq_num : ℕ) (b msgs frags : Buf) (nodes : List (ℕ × Fragment))
      (payload : List ℕ) : Type 0 where
    pub below : seq_num < u16_mod
    pub some_byte : 0 < length payload
    pub short : length payload < u8_mod
    pub within : length payload ≤ window
    pub moved : compact b ≡ done tt msgs
    pub valid : IsValid msgs
    pub head_room : seq_num ≡ begin → msgs.pos_b + 2 ≤ msgs.size
    pub head_valid : IsValid (headed seq_num window msgs frags nodes begin total items m)
    pub room :
        (headed seq_num window msgs frags nodes begin total items m).pos_b + length payload
        ≤ msgs.size
    pub frags_valid : IsValid frags
    pub frags_empty : frags.pos_a ≡ frags.pos_b
    pub frags_room : frags.pos_b + header + length payload < frags.size

  module _ (seq_num : ℕ) (b msgs frags : Buf) (nodes : List (ℕ × Fragment)) (payload : List ℕ)
      (r : Ready seq_num b msgs frags nodes payload) where
    headed_size : (headed seq_num window msgs frags nodes begin total items m).size ≡ msgs.size
    headed_size = ground arith

    deliver-ready :
        deliver header (placed seq_num window b frags nodes begin total items m header payload)
        ≡ done
            (if ends seq_num window msgs frags nodes begin total items m payload then 1 else 0)
            (taken seq_num window msgs frags nodes begin total items m header payload)
    deliver-ready =
        deliver-placed seq_num window msgs frags nodes begin total items m header payload b
          r.some_byte r.frags_valid r.frags_empty r.frags_room r.moved r.valid r.head_room
          r.head_valid (omega (arith, r.room, headed_size))

    -- one more packet of the declared message
    pub handle_packet-partial :
        handle_packet header seq_num payload 0
          (partial seq_num window b frags nodes begin total items m)
        ≡ done
            (if ends seq_num window msgs frags nodes begin total items m payload then 1 else 0)
            (taken seq_num window msgs frags nodes begin total items m header payload)
    unfolding handle_packet
    handle_packet-partial =
        rw
          (
            in_window-next (partial seq_num window b frags nodes begin total items m)
                (length payload) r.below r.some_byte r.short r.within,
            insert_fragment-partial seq_num window b frags nodes begin total items m header payload
                r.frags_valid r.short r.frags_room,
          )
          deliver-ready

-- the packet that begins the message
pub handle_packet-waiting :
    (window header seq_num total : ℕ) (items : List MsgInfo) (m : ℕ) (b msgs frags : Buf)
    (nodes : List (ℕ × Fragment)) (payload : List ℕ) (item : MsgInfo)
    → Ready window header seq_num total items m seq_num b msgs frags nodes payload
    → item.in_use ≡ false
    → 0 < total
    → handle_packet header seq_num payload total (waiting seq_num window b frags nodes item items m)
      ≡ done
          (if ends seq_num window msgs frags nodes seq_num total items m payload then 1 else 0)
          (taken seq_num window msgs frags nodes seq_num total items m header payload)
unfolding handle_packet
handle_packet-waiting window header seq_num total items m b msgs frags nodes payload item r spare
      some_msg =
    let named : (total == 0) ≡ false = ground arith in
    rw
      (
        in_window-next (waiting seq_num window b frags nodes item items m) (length payload) r.below
            r.some_byte r.short r.within,
        named,
        declare_msg-waiting seq_num window b frags nodes item items m total spare,
        insert_fragment-partial seq_num window b frags nodes seq_num total items m header payload
            r.frags_valid r.short r.frags_room,
      )
      (deliver-ready window header seq_num total items m seq_num b msgs frags nodes payload r)
