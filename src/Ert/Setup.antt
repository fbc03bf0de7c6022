-- ===== src/Ert/Setup.antt =====
-- The begin of `main` in client/wisp-ert/runtime/runtime.c, up to the set-up of the EPC: how the runtime
-- registers with the RFID firmware.
pub mod Registered
use Prim.Native.Nat.{bit_or}
use wisp_ert.Common.{
  ℕ, ◌+◌, ◌-◌, ◌≤◌, ◌≡◌, ◌∙◌, ap, refl, some, none, true, Option, List, ◌++◌, arith, length, take,
  drop, replicate, bytes16, done, fault, M, ◌>>=◌, ◌>>◌, pure, get, modify,
}
use wisp_ert.Common.Memory.{splice, store, store-some, drop-splice_self, length-splice}
use wisp_ert.Base.Rfid.{
  Firmware, DataStructInterface, Place, data_buf_at, usr_bank_at, address, wr_data_place,
  bwr_byte_count_place, program_memory, data_buff_size, wisp_init, register_callback_read,
  register_callback_blockwrite, set_mode, set_abort_conditions, get_data_buffers, mode_read,
  mode_write, mode_uses_sel, cmd_id_read, cmd_id_write, cmd_id_blockwrite, cmd_id_ack,
}

-- ERT_EPC_SIZE
abbrev pub ert_epc_size : ℕ
ert_epc_size = 12

-- from "Register RFID callback functions" on; the three numbers are the addresses of the two callbacks
-- and of `blockwrite_buffer`
unfoldable pub main_register :
    (read_callback blockwrite_callback blockwrite_buffer : ℕ) → M Firmware DataStructInterface
main_register read_callback blockwrite_callback blockwrite_buffer = do
  modify (register_callback_read read_callback)
  modify (register_callback_blockwrite blockwrite_callback)
  modify (λ s. record s {
    rw_data = record (s.rw_data) { bwr_buf_ptr = some (program_memory blockwrite_buffer) };
  })
  s ← get
  let wisp_data = get_data_buffers s
  modify (set_mode (bit_or (bit_or mode_read mode_write) mode_uses_sel))
  modify (
      set_abort_conditions
        (bit_or (bit_or (bit_or cmd_id_read cmd_id_write) cmd_id_blockwrite) cmd_id_ack))
  pure wisp_data

-- a copy to where a pointer to `dataBuf` points
unfoldable pub write_data_buf : Place → List ℕ → M Firmware (Unit {0})
write_data_buf (data_buf_at k) bytes s = elim (store s.data_buf k bytes) [
  | none ↦ fault
  | some mem ↦ done tt (record s { data_buf = mem })
]
write_data_buf _ bytes s = fault

-- "Set up EPC"
unfoldable pub main_set_up_epc : (wisp_id : ℕ) → DataStructInterface → M Firmware (Unit {0})
unfolding write_data_buf
main_set_up_epc wisp_id wisp_data =
    write_data_buf wisp_data.epc_buf (replicate ert_epc_size 0)
    >> write_data_buf wisp_data.epc_buf (bytes16 wisp_id)

-- `main` up to the set-up of the EPC. `pre_init` does nothing where there is no such hook.
unfoldable pub main_begin :
    (pre_init : M Firmware (Unit {0}))
    → (wisp_id read_callback blockwrite_callback blockwrite_buffer : ℕ)
    → M Firmware DataStructInterface
unfolding main_register main_set_up_epc
main_begin pre_init wisp_id read_callback blockwrite_callback blockwrite_buffer = do
  pre_init
  modify wisp_init
  wisp_data ← main_register read_callback blockwrite_callback blockwrite_buffer
  main_set_up_epc wisp_id wisp_data
  pure wisp_data
