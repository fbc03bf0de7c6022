-- ===== src/Wtp/Endpoint/Load.antt =====
-- `wtp_load_read_mem` of client/wtp/wtp/endpoint.c: the next fragment goes to the memory that the
-- reader reads.
pub mod Encode
use wisp_ert.Common.{
  ℕ, zero, suc, ◌+◌, Bool, true, false, Option, none, some, List, [], ◌∷◌, leb, ◌==◌, if◌then◌else◌,
  get_elem?, set, length, to_u8, add8, bytes16, done, fault, M, ◌>>=◌, ◌>>◌, pure, get, modify,
  present, on,
}
use wisp_ert.Wio.Buf
use wisp_ert.Wio.Buf.{Buf}
use wisp_ert.Wio.Buf.Transfer.{write_chunks}
use wisp_ert.Wio.Queue
use wisp_ert.Wio.Queue.{Queue}
use wisp_ert.Wtp.Packet.{pkt_end, pkt_begin_msg, pkt_cont_msg}
use wisp_ert.Wtp.Tx.{ReadInfo, Fragment, on_read_infos, make_fragment}
use wisp_ert.Wtp.Endpoint.{Wtp, on_tx, ignore_status}

-- "Try to find existing data fragment to send", with the rounds left: the index of the first
-- fragment that wants sending. `none` outside is a slot that is not there.
unfoldable pub find_pending : ℕ → Queue Fragment → ℕ → Option (Option ℕ)
find_pending zero q i = some none
find_pending (suc rounds) q i = elim (Queue.at q i) [
  | none ↦ none
  | some f ↦ elim f.need_send [
    | true ↦ some (some i)
    | false ↦ find_pending rounds q (if leb q.capacity (add8 i 1) then 0 else add8 i 1)
  ]
]

-- "Get next READ OpSpec size", "Update number of reads" and "Pop read information"
unfoldable pub next_read_size : M (Queue ReadInfo) ℕ
next_read_size = do
  q ← get
  info ← present (Queue.at q q.end)
  let left = to_u8 (info.n_reads + 255)
  modify (λ q. record q { slots = set q.slots q.end (record info { n_reads = left }) })
  if left == 0 then Queue.discard else pure tt
  pure info.size

-- the header of the packet that carries a fragment
unfoldable pub packet_header : Fragment → List (List ℕ)
packet_header f =
    if f.msg_size == 0
    then (pkt_cont_msg ∷ []) ∷ bytes16 f.seq_num ∷ (f.size ∷ []) ∷ []
    else (pkt_begin_msg ∷ []) ∷ bytes16 f.msg_size ∷ bytes16 f.seq_num ∷ (f.size ∷ []) ∷ []

-- "Write packet header" to "Write end packet byte"; `src` is the message buffer's memory.
unfoldable pub write_packet : List ℕ → Fragment → M Buf (Unit {0})
unfolding packet_header
write_packet src f = do
  write_chunks (packet_header f)
  Buf.write_from src f.data_at f.size
  ignore_status (Buf.write (pkt_end ∷ []))

-- the fragment to send: one that waits, or else a new one
unfoldable pub choose_fragment : M Wtp (Option ℕ)
unfolding find_pending
choose_fragment = do
  s ← get
  let q = s.tx_ctrl.fragments_queue
  pending ← present (find_pending q.size q (to_u8 q.end))
  elim pending [ some i ↦ pure (some i) | none ↦ on_tx (make_fragment s.tx_ctrl.read_size) ]

-- "No fragments to load"
unfoldable pub load_nothing : M Wtp (Unit {0})
load_nothing s = elim s.read_mem [
  | [] ↦ fault
  | _ ∷ rest ↦ done tt (record s { read_mem_loaded = false; read_mem = pkt_end ∷ rest })
]

-- `wtp_load_read_mem`
unfoldable pub load_read_mem : M Wtp (Unit {0})
unfolding next_read_size choose_fragment write_packet load_nothing
load_read_mem = do
  s ← get
  if s.tx_ctrl.read_info_queue.size == 0 then load_nothing else do
    modify (λ s. record s { read_mem_loaded = true })
    read_size ← on_tx (on_read_infos next_read_size)
    chosen ← choose_fragment
    elim chosen [
      | none ↦ pure tt
      | some i ↦ do
        s ← get
        f ← present (Queue.at s.tx_ctrl.fragments_queue i)
        on (λ s. Buf.init s.read_mem read_size) (λ s b. record s { read_mem = b.bytes })
            (write_packet s.tx_ctrl.msg_buf.bytes f)
    ]
