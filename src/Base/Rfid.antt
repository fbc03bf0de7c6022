-- ===== src/Base/Rfid.antt =====
-- The interface of the RFID firmware for C code: client/wisp-base/RFID/interface.c and rfid.h, the
-- state in globals.h, and its initialization in internals/wisp-init.c. The firmware itself, which uses
-- this state, is assembly and not a part of the model.

use Prim.Native.Nat.{bit_and, bit_or}
use wisp_ert.Common.{ℕ, ◌+◌, ◌*◌, ◌/◌, Bool, true, false, Option, none, some, List}

-- what a pointer of the interface points to
pub data Place : Type 0 where
  -- a byte of `dataBuf`, and of `usrBank`
  data_buf_at : ℕ → Place
  usr_bank_at : ℕ → Place
  -- an address of the memory map
  address : ℕ → Place
  -- `RWData.wrData` and `RWData.bwrByteCount`
  wr_data_place : Place
  bwr_byte_count_place : Place
  -- memory of the program
  program_memory : ℕ → Place

-- `RFIDstruct`
pub record RfidStruct : Type 0 where
  pub trext : ℕ
  pub handle : ℕ
  pub slot_count : ℕ
  pub q : ℕ
  pub mode : ℕ
  pub abort_on : ℕ
  pub abort_flag : ℕ
  pub is_selected : Bool
  pub rn8_ind : ℕ
  pub edge_capture_prev_ccr : ℕ

-- `RWstruct`. A hook is the number of a function, and `none` is 0.
pub record RwStruct : Type 0 where
  pub mem_bank : ℕ
  pub word_ptr : ℕ
  pub wr_data : ℕ
  pub bwr_byte_count : ℕ
  pub bwr_buf_ptr : Option Place
  pub ak_hook : Option ℕ
  pub wr_hook : Option ℕ
  pub bwr_hook : Option ℕ
  pub rd_hook : Option ℕ
  pub res_bank_ptr : Option Place
  pub epc_bank_ptr : Option Place
  pub tid_bank_ptr : Option Place
  pub usr_bank_ptr : Option Place

-- `rfid`, `RWData`, `dataBuf` and `isDoingLowPwrSleep`
pub record Firmware : Type 0 where
  pub rfid : RfidStruct
  pub rw_data : RwStruct
  pub data_buf : List ℕ
  pub is_doing_low_pwr_sleep : Bool

-- sizes of globals.h
abbrev pub epc_words : ℕ
epc_words = 6

abbrev pub data_buff_size : ℕ
data_buff_size = 2 + epc_words * 2 + 2

-- modes and command numbers of rfid.h; the constants BIT0 to BIT3 are the powers of 2
abbrev pub mode_read : ℕ
mode_read = 1

abbrev pub mode_write : ℕ
mode_write = 2

abbrev pub mode_uses_sel : ℕ
mode_uses_sel = 4

abbrev pub cmd_id_ack : ℕ
cmd_id_ack = 1

abbrev pub cmd_id_read : ℕ
cmd_id_read = 2

abbrev pub cmd_id_write : ℕ
cmd_id_write = 4

abbrev pub cmd_id_blockwrite : ℕ
cmd_id_blockwrite = 8

-- "Initialize Gen2 standard memory banks" to the end of `WISP_init`
unfoldable pub wisp_init : Firmware → Firmware
wisp_init s = record s {
  rfid = record (s.rfid) { is_selected = true; abort_on = 0 };
  rw_data = record (s.rw_data) {
    epc_bank_ptr = some (data_buf_at 0);
    res_bank_ptr = some (address 6272);
    tid_bank_ptr = some (address 6400);
    usr_bank_ptr = some (usr_bank_at 0);
    ak_hook = none;
    rd_hook = none;
    wr_hook = none;
    bwr_hook = none;
  };
  is_doing_low_pwr_sleep = false;
}

-- `WISP_registerCallback_ACK`, `_READ`, `_WRITE` and `_BLOCKWRITE`
unfoldable pub register_callback_ack : (fn : ℕ) → Firmware → Firmware
register_callback_ack fn s = record s { rw_data = record (s.rw_data) { ak_hook = some fn } }

unfoldable pub register_callback_read : (fn : ℕ) → Firmware → Firmware
register_callback_read fn s = record s { rw_data = record (s.rw_data) { rd_hook = some fn } }

unfoldable pub register_callback_write : (fn : ℕ) → Firmware → Firmware
register_callback_write fn s = record s { rw_data = record (s.rw_data) { wr_hook = some fn } }

unfoldable pub register_callback_blockwrite : (fn : ℕ) → Firmware → Firmware
register_callback_blockwrite fn s = record s { rw_data = record (s.rw_data) { bwr_hook = some fn } }

-- `WISP_setMode` and `WISP_setAbortConditions`
unfoldable pub set_mode : ℕ → Firmware → Firmware
set_mode mode s = record s { rfid = record (s.rfid) { mode = mode } }

unfoldable pub set_abort_conditions : ℕ → Firmware → Firmware
set_abort_conditions abort_on s = record s { rfid = record (s.rfid) { abort_on = abort_on } }

-- `WISP_dataStructInterface_t`
pub record DataStructInterface : Type 0 where
  pub epc_buf : Place
  pub write_buf_ptr : Place
  pub block_write_buf_ptr : Option Place
  pub block_write_size_ptr : Place
  pub read_buf_ptr : Place

-- `WISP_getDataBuffers`: the pointer of the block-write buffer is copied as it is at the call.
unfoldable pub get_data_buffers : Firmware → DataStructInterface
get_data_buffers s = record {
  epc_buf = data_buf_at 2;
  write_buf_ptr = wr_data_place;
  block_write_buf_ptr = s.rw_data.bwr_buf_ptr;
  block_write_size_ptr = bwr_byte_count_place;
  read_buf_ptr = usr_bank_at 0;
}

-- EPC_LENGTH, UMI, XI and NSI, and the word STORED_PC that they make, with its two bytes
abbrev pub umi : ℕ
umi = 1

abbrev pub xi : ℕ
xi = 0

abbrev pub nsi : ℕ
nsi = 0

abbrev pub stored_pc : ℕ
stored_pc =
    bit_or
      (bit_or (bit_or (bit_and epc_words 31 * 2048) (bit_and umi 1 * 1024)) (bit_and xi 1 * 512))
      (bit_and nsi 511 * 2)

abbrev pub stored_pc1 : ℕ
stored_pc1 = bit_and stored_pc 65280 / 256

abbrev pub stored_pc0 : ℕ
stored_pc0 = bit_and stored_pc 255
