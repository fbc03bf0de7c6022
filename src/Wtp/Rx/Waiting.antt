-- ===== src/Wtp/Rx/Waiting.antt =====
-- The steps by which a message in one packet goes through the receive control of
-- client/wtp/wtp/transmission.c.
use wisp_ert.Common.{
  ℕ, suc, ◌+◌, ◌≤◌, ◌<◌, ◌≡◌, true, false, none, some, List, ◌∷◌, arith, length, ==_refl, add16,
  u8_mod, bytes16, done,
}
use wisp_ert.Wio.Buf
use wisp_ert.Wio.Buf.{Buf}
use wisp_ert.Wio.Buf.Bounds.{IsValid}
use wisp_ert.Wio.Buf.Transfer.{written, write-fits, written-IsValid}
use wisp_ert.Wtp.Rx.{Fragment, MsgInfo, RxCtrl}
use wisp_ert.Wtp.Rx.Info.{declare_msg}
use wisp_ert.Wtp.Rx.Fragments.{insert_fragment, untouched}
use wisp_ert.Wtp.Rx.Assemble.{compact, assemble, release, append_fragment, check_begin, check_end}
use wisp_ert.Wtp.Rx.Packet.{deliver}

-- A receive control that waits: no fragment is held back and no message has been declared.
abbrev pub waiting :
    (seq_num window : ℕ) (msgs frags : Buf) (nodes : List (ℕ × Fragment)) (item : MsgInfo)
    (items : List MsgInfo) (m : ℕ)
    → RxCtrl
waiting seq_num window msgs frags nodes item items m = record {
  seq_num = seq_num;
  window_size = window;
  msg_data_buf = msgs;
  fragments_buf = frags;
  nodes = nodes;
  fragments_begin = none;
  msg_info_store = item ∷ items;
  msg_info_size = suc m;
  msg_info_begin = suc m;
}

module _ (seq_num window : ℕ) (msgs frags : Buf) (nodes : List (ℕ × Fragment)) (item : MsgInfo)
    (items : List MsgInfo) (m : ℕ) where
  -- the message, declared
  abbrev pub declared : ℕ → RxCtrl
  declared n = record (waiting seq_num window msgs frags nodes item items m) {
    msg_info_store = record { in_use = true; begin = seq_num; size = n; next = suc m } ∷ items;
    msg_info_begin = 0;
  }

  pub declare_msg-waiting :
      (n : ℕ)
      → item.in_use ≡ false
      → declare_msg seq_num n (waiting seq_num window msgs frags nodes item items m)
        ≡ done tt (declared n)
  unfolding declare_msg
  declare_msg-waiting n spare = ground arith

  -- its fragment, in the fragments buffer
  abbrev pub placed : (header : ℕ) → List ℕ → RxCtrl
  placed header payload = record (declared (length payload)) {
    fragments_buf = record frags { pos_b = frags.pos_b + header + length payload };
    nodes =
        (
          frags.pos_b,
          record {
            seq_num = seq_num;
            payload = payload;
            size = length payload;
            assembled = false;
            next = none;
          },
        )
        ∷ untouched header frags.pos_b (header + length payload) nodes;
    fragments_begin = some frags.pos_b;
  }

  pub insert_fragment-declared :
      (header : ℕ) (payload : List ℕ)
      → IsValid frags
      → length payload < u8_mod
      → frags.pos_b + header + length payload < frags.size
      → insert_fragment header seq_num payload (declared (length payload))
        ≡ done tt (placed header payload)
  unfolding insert_fragment Buf.alloc
  insert_fragment-declared header payload v short room = ground arith

  -- the message data buffer after its length and its bytes have been written
  abbrev pub filled : List ℕ → Buf
  filled payload = written (written msgs (bytes16 (length payload))) payload

  -- the control after the fragment has been assembled
  abbrev pub assembled : (header : ℕ) → List ℕ → RxCtrl
  assembled header payload = record (placed header payload) {
    seq_num = add16 seq_num (length payload);
    msg_data_buf = filled payload;
    nodes =
        (
          frags.pos_b,
          record {
            seq_num = seq_num;
            payload = payload;
            size = length payload;
            assembled = true;
            next = none;
          },
        )
        ∷ untouched header frags.pos_b (header + length payload) nodes;
    msg_info_store =
        record { in_use = false; begin = seq_num; size = length payload; next = suc m } ∷ items;
    msg_info_begin = suc m;
  }

  check_begin-placed :
      (header : ℕ) (payload : List ℕ)
      → IsValid msgs
      → msgs.pos_b + 2 + length payload ≤ msgs.size
      → check_begin (placed header payload)
        ≡ done tt (record (placed header payload) {
          msg_data_buf = written msgs (bytes16 (length payload));
        })
  unfolding check_begin
  check_begin-placed header payload v room =
      ground (arith, write-fits (bytes16 (length payload)) v (omega arith))

  append_fragment-placed :
      (header : ℕ) (payload : List ℕ) (b : Buf)
      → IsValid b
      → b.pos_b + length payload ≤ b.size
      → append_fragment frags.pos_b
          (record {
            seq_num = seq_num;
            payload = payload;
            size = length payload;
            assembled = false;
            next = none;
          })
          (record (placed header payload) { msg_data_buf = b })
        ≡ done tt (record (placed header payload) {
          seq_num = add16 seq_num (length payload);
          msg_data_buf = written b payload;
          nodes = (assembled header payload).nodes;
        })
  unfolding append_fragment Buf.write
  append_fragment-placed header payload b v room =
      let e : Buf.write_from payload 0 (length payload) b ≡ done tt (written b payload) =
        write-fits payload v room in
      ground (arith, e, ==_refl frags.pos_b)

  check_end-placed :
      (header : ℕ) (payload : List ℕ) (b : Buf) (rest : List (ℕ × Fragment))
      → check_end (record (placed header payload) {
        seq_num = add16 seq_num (length payload);
        msg_data_buf = b;
        nodes = rest;
      })
        ≡ done 1 (record (assembled header payload) { msg_data_buf = b; nodes = rest })
  unfolding check_end
  check_end-placed header payload b rest = ground (arith, ==_refl (add16 seq_num (length payload)))

  assemble-placed :
      (header k : ℕ) (payload : List ℕ)
      → IsValid msgs
      → msgs.pos_b + 2 + length payload ≤ msgs.size
      → assemble (suc (suc k)) (some frags.pos_b) 0 (placed header payload)
        ≡ done (none, 1) (assembled header payload)
  unfolding assemble
  assemble-placed header k payload v room = ground (
    arith,
    check_begin-placed header payload v room,
    append_fragment-placed header payload (written msgs (bytes16 (length payload)))
        (written-IsValid (bytes16 (length payload)) v (omega arith)) (omega arith),
    ==_refl frags.pos_b,
    ==_refl seq_num,
    check_end-placed header payload (filled payload) (assembled header payload).nodes,
  )

  -- the buffer of fragments after its one fragment has been released
  abbrev pub released : (header : ℕ) → List ℕ → Buf
  released header payload = record frags {
    pos_a = frags.pos_b + header + length payload;
    pos_b = frags.pos_b + header + length payload;
  }

  release-assembled :
      (header k : ℕ) (payload : List ℕ)
      → 0 < length payload
      → IsValid frags
      → frags.pos_a ≡ frags.pos_b
      → frags.pos_b + header + length payload < frags.size
      → release header (suc (suc k)) (record (assembled header payload) { fragments_begin = none })
        ≡ done tt (record (assembled header payload) {
          fragments_begin = none;
          fragments_buf = released header payload;
        })
  unfolding release Buf.free
  release-assembled header k payload some_byte v empty room =
      ground (arith, ==_refl frags.pos_b, ==_refl (frags.pos_b + header + length payload))

  -- the control after the packet
  abbrev pub delivered : (header : ℕ) → List ℕ → RxCtrl
  delivered header payload =
      record (waiting (add16 seq_num (length payload)) window (filled payload)
        (released header payload) (assembled header payload).nodes
        (record { in_use = false; begin = seq_num; size = length payload; next = suc m }) items m) {
          fragments_begin = none;
        }

  pub deliver-placed :
      (header : ℕ) (payload : List ℕ)
      → 0 < length payload
      → IsValid frags
      → frags.pos_a ≡ frags.pos_b
      → frags.pos_b + header + length payload < frags.size
      → (b : Buf) → compact b ≡ done tt msgs
      → IsValid msgs
      → msgs.pos_b + 2 + length payload ≤ msgs.size
      → deliver header (record (placed header payload) { msg_data_buf = b })
        ≡ done 1 (delivered header payload)
  unfolding deliver
  deliver-placed header payload some_byte v empty room b moved w space =
      let rest = untouched header frags.pos_b (header + length payload) nodes in
      ground (
        arith,
        moved,
        assemble-placed header (length rest) payload w space,
        release-assembled header (length rest) payload some_byte v empty room,
      )
