-- ===== src/Wtp/Rx.antt =====
-- The receive control of client/wtp/wtp/transmission.c and transmission.h: its state.
pub mod Info
pub mod Fragments
pub mod Assemble
pub mod Packet
pub mod Compact
pub mod Waiting
pub mod InOrder
pub mod Partial
pub mod Continue
pub mod Sequence
pub mod Wrapped
pub mod Stream
use wisp_ert.Common.{
  ℕ, ◌+◌, Bool, Option, none, some, List, [], ◌∷◌, ltb, leb, ◌||◌, ◌==◌, if◌then◌else◌, length,
  get_elem?, set, replicate, mul16, done, fail, fault, M, ◌>>=◌, pure, on, false,
}
use wisp_ert.Wio.Status.{no_memory}
use wisp_ert.Wio.Buf
use wisp_ert.Wio.Buf.{Buf}

-- `wtp_rx_fragment_t` with the payload that stands behind it in the fragments buffer. A pointer to
-- one is its index in that buffer's memory, and `none` is NULL.
pub record Fragment : Type 0 where
  pub seq_num : ℕ
  pub payload : List ℕ
  pub size : ℕ
  pub assembled : Bool
  pub next : Option ℕ

-- `wtp_rx_msg_info_t`
pub record MsgInfo : Type 0 where
  pub begin : ℕ
  pub size : ℕ
  pub in_use : Bool
  pub next : ℕ

-- `wtp_rx_ctrl_t`. `nodes` is what stands in the memory of the fragments buffer: the fragments that
-- have been built there and that no later one has overwritten, each under its index.
pub record RxCtrl : Type 0 where
  pub seq_num : ℕ
  pub window_size : ℕ
  pub msg_data_buf : Buf
  pub fragments_buf : Buf
  pub nodes : List (ℕ × Fragment)
  pub fragments_begin : Option ℕ
  pub msg_info_store : List MsgInfo
  pub msg_info_size : ℕ
  pub msg_info_begin : ℕ

-- What `malloc` gives at each call of `wtp_rx_init`, and the sizes that the compiler gives types.
pub record RxMemory : Type 0 where
  pub msg_data : ℕ → Option (List ℕ)
  pub fragments : ℕ → Option (List ℕ)
  pub msg_infos : ℕ → Option (List MsgInfo)
  pub sizeof_msg_info : ℕ

-- the loop that marks the items of the store as spare; `none` where an item is not there
unfoldable pub clear_in_use : ℕ → List MsgInfo → Option (List MsgInfo)
clear_in_use Prim.Native.Nat.zero store = some store
clear_in_use (Prim.Native.Nat.suc n) [] = none
clear_in_use (Prim.Native.Nat.suc n) (i ∷ store) = elim (clear_in_use n store) [
  | none ↦ none
  | some store' ↦ some (record i { in_use = false } ∷ store')
]

-- `wtp_rx_init`. A status other than WIO_OK leaves no control behind.
unfoldable pub rx_init :
    RxMemory → (window_size msg_data_size fragments_size n_msg_info : ℕ) → M (Unit {0}) RxCtrl
rx_init m window_size msg_data_size fragments_size n_msg_info = do
  msg_data_buf ← Buf.alloc_init m.msg_data msg_data_size
  fragments_buf ← Buf.alloc_init m.fragments fragments_size
  store ← (λ s. elim (m.msg_infos (mul16 n_msg_info m.sizeof_msg_info)) [
    | none ↦ fail no_memory s
    | some store ↦ elim (clear_in_use n_msg_info store) [
      | none ↦ fault
      | some store' ↦ done store' s
    ]
  ])
  pure (record {
    seq_num = 0;
    window_size = window_size;
    msg_data_buf = msg_data_buf;
    fragments_buf = fragments_buf;
    nodes = [];
    fragments_begin = none;
    msg_info_store = store;
    msg_info_size = n_msg_info;
    msg_info_begin = n_msg_info;
  })

module _ {ℓ} {A : Type ℓ} where
  abbrev pub on_msg_data : M Buf A → M RxCtrl A
  on_msg_data = on (λ s. s.msg_data_buf) (λ s b. record s { msg_data_buf = b })

  abbrev pub on_fragments_buf : M Buf A → M RxCtrl A
  on_fragments_buf = on (λ s. s.fragments_buf) (λ s b. record s { fragments_buf = b })

-- `msg_info_store[i]`, and a write to one of its fields; a fault where there is no such item
abbrev pub info_at : ℕ → M RxCtrl MsgInfo
info_at i s = elim (get_elem? s.msg_info_store i) [ none ↦ fault | some info ↦ done info s ]

abbrev pub update_info : ℕ → (MsgInfo → MsgInfo) → M RxCtrl (Unit {0})
update_info i f s = elim (get_elem? s.msg_info_store i) [
  | none ↦ fault
  | some info ↦ done tt (record s { msg_info_store = set s.msg_info_store i (f info) })
]
