-- ===== src/Ert/Setup/Registered.antt =====
-- What the RFID firmware finds when the begin of `main` in client/wisp-ert/runtime/runtime.c has run.
use wisp_ert.Common.{
  ℕ, ◌+◌, ◌≤◌, ◌≡◌, ◌∙◌, ap, refl, some, none, true, List, ◌++◌, arith, length, take, drop,
  replicate, bytes16, done, M, and_then,
}
use wisp_ert.Common.Memory.{splice, store-some, drop-splice_self, take-drop-splice, length-splice}
use wisp_ert.Base.Rfid.{
  Firmware, DataStructInterface, data_buf_at, usr_bank_at, address, program_memory, data_buff_size,
  wisp_init, register_callback_read, register_callback_blockwrite, set_mode, set_abort_conditions,
  get_data_buffers,
}
use wisp_ert.Ert.Setup.{ert_epc_size, write_data_buf, main_begin}

-- The two callbacks are registered and no other; the tag answers READs and WRITEs and uses SELECT; the
-- firmware returns after each of the four commands; the buffer of block writes is the runtime's, also
-- in the interface that the runtime keeps; and the EPC is the WISP's number and zeros.
pub record Registered (wisp_id read_callback blockwrite_callback blockwrite_buffer : ℕ)
    (before after : Firmware) (wisp_data : DataStructInterface) : Type 0 where
  pub read_hook : after.rw_data.rd_hook ≡ some read_callback
  pub blockwrite_hook : after.rw_data.bwr_hook ≡ some blockwrite_callback
  pub no_ack_hook : after.rw_data.ak_hook ≡ none
  pub no_write_hook : after.rw_data.wr_hook ≡ none
  pub mode : after.rfid.mode ≡ 1 + 2 + 4
  pub abort_on : after.rfid.abort_on ≡ 1 + 2 + 4 + 8
  pub selected : after.rfid.is_selected ≡ true
  pub buffer : after.rw_data.bwr_buf_ptr ≡ some (program_memory blockwrite_buffer)
  pub kept_buffer : wisp_data.block_write_buf_ptr ≡ after.rw_data.bwr_buf_ptr
  pub read_bank : after.rw_data.usr_bank_ptr ≡ some wisp_data.read_buf_ptr
  pub reserved : take 2 after.data_buf ≡ take 2 before.data_buf
  pub epc :
      drop 2 after.data_buf
      ≡ bytes16 wisp_id ++ (replicate 10 0 ++ drop 12 (drop 2 before.data_buf))

-- After any hook that leaves `dataBuf` its size, the begin of `main` succeeds and leaves the firmware
-- so registered, whatever had been registered before.
pub main_begin-Registered :
    (pre_init : M Firmware (Unit {0}))
    (wisp_id read_callback blockwrite_callback blockwrite_buffer : ℕ) (first s : Firmware)
    → pre_init first ≡ done tt s
    → length s.data_buf ≡ data_buff_size
    → (wisp_data : DataStructInterface) × (t : Firmware) × (main_begin pre_init wisp_id
          read_callback blockwrite_callback blockwrite_buffer first
        ≡ done wisp_data t)
      × Registered wisp_id read_callback blockwrite_callback blockwrite_buffer s t wisp_data
unfolding main_begin wisp_init register_callback_read register_callback_blockwrite set_mode
    set_abort_conditions get_data_buffers
main_begin-Registered pre_init wisp_id read_callback blockwrite_callback blockwrite_buffer first s e
      size =
    let zeros : List ℕ = replicate ert_epc_size 0 in
    let mem : List ℕ = splice s.data_buf 2 zeros in
    let id_at : 2 + length (bytes16 wisp_id) ≤ length mem =
      omega (arith, length-splice s.data_buf 2 zeros) in
    (
      get_data_buffers (record s {
        rw_data = record (s.rw_data) { bwr_buf_ptr = some (program_memory blockwrite_buffer) };
      }),
      record (wisp_init s) {
        rfid = record (s.rfid) { is_selected = true; abort_on = 15; mode = 7 };
        rw_data = record (s.rw_data) {
          bwr_buf_ptr = some (program_memory blockwrite_buffer);
          epc_bank_ptr = some (data_buf_at 0);
          res_bank_ptr = some (address 6272);
          tid_bank_ptr = some (address 6400);
          usr_bank_ptr = some (usr_bank_at 0);
          ak_hook = none;
          wr_hook = none;
          rd_hook = some read_callback;
          bwr_hook = some blockwrite_callback;
        };
        data_buf = splice mem 2 (bytes16 wisp_id);
      },
      rw
          (
            e,
            and_then,
            write_data_buf,
            store-some s.data_buf 2 zeros (omega arith),
            store-some mem 2 (bytes16 wisp_id) id_at,
          )
          refl,
      record {
        read_hook = refl;
        blockwrite_hook = refl;
        no_ack_hook = refl;
        no_write_hook = refl;
        mode = refl;
        abort_on = refl;
        selected = refl;
        buffer = refl;
        kept_buffer = refl;
        read_bank = refl;
        reserved =
            take-drop-splice mem 2 (bytes16 wisp_id) 0 2 (omega arith)
            ∙ take-drop-splice s.data_buf 2 zeros 0 2 (omega arith);
        epc =
            drop-splice_self mem 2 (bytes16 wisp_id) id_at
            ∙ ap (λ xs. bytes16 wisp_id ++ drop 2 xs)
                (drop-splice_self s.data_buf 2 zeros (omega arith));
      },
    )
