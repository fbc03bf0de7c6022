-- ===== src/Wtp/Rx/Partial.antt =====
-- The steps by which a fragment of a message goes through the receive control of
-- client/wtp/wtp/transmission.c while the message is the one declared and no fragment is held back.
use wisp_ert.Common.{
  ℕ, suc, ◌+◌, ◌≤◌, ◌<◌, ◌≡◌, Bool, true, false, none, some, List, ◌∷◌, arith, length, ==_refl,
  Bool-cases, inl, inr, add16, ◌==◌, u8_mod, bytes16, done, if◌then◌else◌,
}
use wisp_ert.Wio.Buf
use wisp_ert.Wio.Buf.{Buf}
use wisp_ert.Wio.Buf.Bounds.{IsValid}
use wisp_ert.Wio.Buf.Transfer.{written, write-fits}
use wisp_ert.Wtp.Rx.{Fragment, MsgInfo, RxCtrl}
use wisp_ert.Wtp.Rx.Fragments.{insert_fragment, untouched}
use wisp_ert.Wtp.Rx.Assemble.{compact, assemble, release, append_fragment, check_begin, check_end}
use wisp_ert.Wtp.Rx.Packet.{deliver}

module _ (seq_num window : ℕ) (msgs frags : Buf) (nodes : List (ℕ × Fragment)) (begin total : ℕ)
    (items : List MsgInfo) (m : ℕ) where
  -- A receive control that has declared one message and holds no fragment back.
  abbrev pub partial : RxCtrl
  partial = record {
    seq_num = seq_num;
    window_size = window;
    msg_data_buf = msgs;
    fragments_buf = frags;
    nodes = nodes;
    fragments_begin = none;
    msg_info_store = record { in_use = true; begin = begin; size = total; next = suc m } ∷ items;
    msg_info_size = suc m;
    msg_info_begin = 0;
  }

  -- the record of a fragment
  abbrev pub node : List ℕ → (assembled : Bool) → Fragment
  node payload assembled = record {
    seq_num = seq_num;
    payload = payload;
    size = length payload;
    assembled = assembled;
    next = none;
  }

  -- the records once the fragment stands in the fragments buffer
  abbrev pub nodes_with : (header : ℕ) → List ℕ → (assembled : Bool) → List (ℕ × Fragment)
  nodes_with header payload assembled =
      (frags.pos_b, node payload assembled)
      ∷ untouched header frags.pos_b (header + length payload) nodes

  abbrev pub placed : (header : ℕ) → List ℕ → RxCtrl
  placed header payload = record partial {
    fragments_buf = record frags { pos_b = frags.pos_b + header + length payload };
    nodes = nodes_with header payload false;
    fragments_begin = some frags.pos_b;
  }

  pub insert_fragment-partial :
      (header : ℕ) (payload : List ℕ)
      → IsValid frags
      → length payload < u8_mod
      → frags.pos_b + header + length payload < frags.size
      → insert_fragment header seq_num payload partial ≡ done tt (placed header payload)
  unfolding insert_fragment Buf.alloc
  insert_fragment-partial header payload v short room = ground arith

  -- the message data buffer once the message's length is there
  abbrev pub headed : Buf
  headed = if seq_num == begin then written msgs (bytes16 total) else msgs

  check_begin-placed :
      (header : ℕ) (payload : List ℕ)
      → IsValid msgs
      → (seq_num ≡ begin → msgs.pos_b + 2 ≤ msgs.size)
      → check_begin (placed header payload)
        ≡ done tt (record (placed header payload) { msg_data_buf = headed })
  unfolding check_begin
  check_begin-placed header payload v room = elim (Bool-cases (seq_num == begin)) [
    | inl e ↦ ground (arith, write-fits (bytes16 total) v (omega (arith, room (ground arith))))
    | inr e ↦ ground arith
  ]

  -- the control once the fragment has been appended
  abbrev pub appended : (header : ℕ) → List ℕ → RxCtrl
  appended header payload = record (placed header payload) {
    seq_num = add16 seq_num (length payload);
    msg_data_buf = written headed payload;
    nodes = nodes_with header payload true;
  }

  append_fragment-placed :
      (header : ℕ) (payload : List ℕ)
      → IsValid headed
      → headed.pos_b + length payload ≤ headed.size
      → append_fragment frags.pos_b
          (node payload false)
          (record (placed header payload) { msg_data_buf = headed })
        ≡ done tt (appended header payload)
  unfolding append_fragment Buf.write
  append_fragment-placed header payload v room =
      let e : Buf.write_from payload 0 (length payload) headed ≡ done tt (written headed payload) =
        write-fits payload v room in
      ground (arith, e, ==_refl frags.pos_b)

  -- the message ends with the fragment
  abbrev pub ends : List ℕ → Bool
  ends payload = add16 seq_num (length payload) == add16 begin total

  -- the control once the end of the message has been looked for
  abbrev pub checked : (header : ℕ) → List ℕ → RxCtrl
  checked header payload =
      if ends payload
      then record (appended header payload) {
        msg_info_store =
            record { in_use = false; begin = begin; size = total; next = suc m } ∷ items;
        msg_info_begin = suc m;
      }
      else appended header payload

  check_end-appended :
      (header : ℕ) (payload : List ℕ)
      → check_end (appended header payload)
        ≡ done (if ends payload then 1 else 0) (checked header payload)
  unfolding check_end
  check_end-appended header payload = ground arith

  pub assemble-placed :
      (header k : ℕ) (payload : List ℕ)
      → IsValid msgs
      → (seq_num ≡ begin → msgs.pos_b + 2 ≤ msgs.size)
      → IsValid headed
      → headed.pos_b + length payload ≤ headed.size
      → assemble (suc (suc k)) (some frags.pos_b) 0 (placed header payload)
        ≡ done (none, if ends payload then 1 else 0) (checked header payload)
  unfolding assemble
  assemble-placed header k payload v room w space = ground (
    arith,
    check_begin-placed header payload v room,
    append_fragment-placed header payload w space,
    ==_refl frags.pos_b,
    ==_refl seq_num,
    check_end-appended header payload,
  )

  -- the fragments buffer once its one fragment has been released
  abbrev pub emptied : (header : ℕ) → List ℕ → Buf
  emptied header payload = record frags {
    pos_a = frags.pos_b + header + length payload;
    pos_b = frags.pos_b + header + length payload;
  }

  -- the control once the fragment has been handled
  abbrev pub taken : (header : ℕ) → List ℕ → RxCtrl
  taken header payload = record (checked header payload) {
    fragments_begin = none;
    fragments_buf = emptied header payload;
  }

  release-checked :
      (header k : ℕ) (payload : List ℕ)
      → 0 < length payload
      → IsValid frags
      → frags.pos_a ≡ frags.pos_b
      → frags.pos_b + header + length payload < frags.size
      → release header (suc (suc k)) (record (checked header payload) { fragments_begin = none })
        ≡ done tt (taken header payload)
  unfolding release Buf.free
  release-checked header k payload some_byte v empty room =
      ground (arith, ==_refl frags.pos_b, ==_refl (frags.pos_b + header + length payload))

  pub deliver-placed :
      (header : ℕ) (payload : List ℕ) (b : Buf)
      → 0 < length payload
      → IsValid frags
      → frags.pos_a ≡ frags.pos_b
      → frags.pos_b + header + length payload < frags.size
      → compact b ≡ done tt msgs
      → IsValid msgs
      → (seq_num ≡ begin → msgs.pos_b + 2 ≤ msgs.size)
      → IsValid headed
      → headed.pos_b + length payload ≤ headed.size
      → deliver header (record (placed header payload) { msg_data_buf = b })
        ≡ done (if ends payload then 1 else 0) (taken header payload)
  unfolding deliver
  deliver-placed header payload b some_byte v empty room moved w space x fits =
      let rest = untouched header frags.pos_b (header + length payload) nodes in
      ground (
        arith,
        moved,
        assemble-placed header (length rest) payload w space x fits,
        release-checked header (length rest) payload some_byte v empty room,
      )
