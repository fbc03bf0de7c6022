-- ===== src/Wtp/Rx/Wrapped.antt =====
-- A fragment whose record goes to the front of the fragments buffer of the receive control of
-- client/wtp/wtp/transmission.c.
use wisp_ert.Common.{
  ℕ, suc, ◌+◌, ◌≤◌, ◌<◌, ◌≡◌, ◌≢◌, refl, sym, false, none, List, arith, length, ◌==◌, u8_mod,
  u16_mod, done, fault,
}
use mathlib.Core.Path.{subst}
use wisp_ert.Wio.Buf
use wisp_ert.Wio.Buf.{Buf}
use wisp_ert.Wio.Buf.Bounds.{IsValid}
use wisp_ert.Wtp.Rx.{Fragment, MsgInfo}
use wisp_ert.Wtp.Rx.Fragments.{insert_fragment, untouched, node_at}
use wisp_ert.Wtp.Rx.Assemble.{compact, release}
use wisp_ert.Wtp.Rx.Packet.{deliver, handle_packet}
use wisp_ert.Wtp.Rx.Partial.{partial, placed, headed, checked, assemble-placed}
use wisp_ert.Wtp.Rx.Continue.{in_window-next}

-- the fragments buffer with its write cursor at the front
abbrev at_front : Buf → Buf
at_front frags = record frags { pos_b = 0 }

module _ (seq_num window : ℕ) (msgs frags : Buf) (nodes : List (ℕ × Fragment)) (begin total : ℕ)
    (items : List MsgInfo) (m : ℕ) where
  insert_fragment-wrapped :
      (header : ℕ) (payload : List ℕ)
      → IsValid frags
      → length payload < u8_mod
      → header + length payload ≤ frags.size
      → frags.size ≤ frags.pos_b + header + length payload
      → frags.pos_b + header + length payload < u16_mod
      → insert_fragment header seq_num payload
          (partial seq_num window msgs frags nodes begin total items m)
        ≡ done tt
            (placed seq_num window msgs (at_front frags) nodes begin total items m header payload)
  unfolding insert_fragment Buf.alloc
  insert_fragment-wrapped header payload v short fits full small = ground arith

  release-wrapped :
      (header k : ℕ) (payload : List ℕ)
      → 0 < frags.pos_a
      → frags.pos_a ≢ header + length payload
      → node_at frags.pos_a (untouched header 0 (header + length payload) nodes) ≡ none
      → release header
          (suc k)
          (record (checked seq_num window msgs
            (at_front frags)
            nodes
            begin
            total
            items
            m
            header
            payload) { fragments_begin = none })
        ≡ fault
  unfolding release
  release-wrapped header k payload inner apart gone = ground (arith, gone)

  deliver-wrapped :
      (header : ℕ) (payload : List ℕ) (b : Buf)
      → compact b ≡ done tt msgs
      → IsValid msgs
      → seq_num ≢ begin
      → msgs.pos_b + length payload ≤ msgs.size
      → 0 < frags.pos_a
      → frags.pos_a ≢ header + length payload
      → node_at frags.pos_a (untouched header 0 (header + length payload) nodes) ≡ none
      → deliver header
          (record (placed seq_num window msgs
            (at_front frags)
            nodes
            begin
            total
            items
            m
            header
            payload) { msg_data_buf = b })
        ≡ fault
  unfolding deliver
  deliver-wrapped header payload b moved v later fits inner apart gone =
      let start : (seq_num == begin) ≡ false = ground arith in
      let no_head : headed seq_num window msgs (at_front frags) nodes begin total items m ≡ msgs =
        rw start refl in
      let rest : List (ℕ × Fragment) = untouched header 0 (header + length payload) nodes in
      ground (
        arith,
        moved,
        assemble-placed seq_num window msgs (at_front frags) nodes begin total items m header
            (length rest) payload v (λ e. absurd (later e)) (subst IsValid (sym no_head) v)
            (subst (λ (h : Buf). h.pos_b + length payload ≤ h.size) (sym no_head) fits),
        release-wrapped header (length rest) payload inner apart gone,
      )

-- A packet that continues the declared message, in order and within the window, and whose record does
-- not fit between the cursors and the end of an empty fragments buffer, but fits the buffer: the
-- record goes to the front, and the loop that releases assembled fragments looks for it where the
-- read cursor still stands. Unless a former record is still there, or the read cursor happens to be
-- at the end of the new one, it takes other bytes for a record.
pub handle_packet-wrapped :
    (header seq_num window : ℕ) (b msgs frags : Buf) (nodes : List (ℕ × Fragment)) (begin total : ℕ)
    (items : List MsgInfo) (m : ℕ) (payload : List ℕ)
    → seq_num < u16_mod
    → (0 < length payload) × (length payload < u8_mod) × (length payload ≤ window)
    → seq_num ≢ begin
    → compact b ≡ done tt msgs
    → IsValid msgs
    → msgs.pos_b + length payload ≤ msgs.size
    → IsValid frags × (frags.pos_a ≡ frags.pos_b)
    → 0 < frags.pos_a
    → header + length payload ≤ frags.size
    → frags.size ≤ frags.pos_b + header + length payload
    → frags.pos_b + header + length payload < u16_mod
    → frags.pos_a ≢ header + length payload
    → node_at frags.pos_a (untouched header 0 (header + length payload) nodes) ≡ none
    → handle_packet header seq_num payload 0
        (partial seq_num window b frags nodes begin total items m)
      ≡ fault
unfolding handle_packet
handle_packet-wrapped header seq_num window b msgs frags nodes begin total items m payload small
      (some_byte, short, within) later moved v fits (w, empty) inner front full sum apart gone =
    rw
      (
        in_window-next (partial seq_num window b frags nodes begin total items m) (length payload)
            small some_byte short within,
        insert_fragment-wrapped seq_num window b frags nodes begin total items m header payload w
            short front full sum,
      )
      (deliver-wrapped seq_num window msgs frags nodes begin total items m header payload b moved v
        later fits inner apart gone)
