-- ===== src/Examples/Setup.antt =====
-- The begin of `main` in client/wisp-ert/runtime/runtime.c, on a tag that has just been reset.
use wisp_ert.Common.{◌≡◌, refl, none, some, true, false, ◌∷◌, [], done}
use wisp_ert.Base.Rfid.{Firmware, DataStructInterface}
use wisp_ert.Ert.Setup.{main_begin}
use wisp_ert.Ert.Setup.Registered.{Registered, main_begin-Registered}

abbrev reset_tag : Firmware
reset_tag = record {
  rfid = record {
    trext = 0;
    handle = 0;
    slot_count = 0;
    q = 0;
    mode = 0;
    abort_on = 3;
    abort_flag = 0;
    is_selected = false;
    rn8_ind = 0;
    edge_capture_prev_ccr = 0;
  };
  rw_data = record {
    mem_bank = 0;
    word_ptr = 0;
    wr_data = 0;
    bwr_byte_count = 0;
    bwr_buf_ptr = none;
    ak_hook = some 99;
    wr_hook = none;
    bwr_hook = none;
    rd_hook = none;
    res_bank_ptr = none;
    epc_bank_ptr = none;
    tid_bank_ptr = none;
    usr_bank_ptr = none;
  };
  data_buf = 52 ∷ 0 ∷ 9 ∷ 9 ∷ 9 ∷ 9 ∷ 9 ∷ 9 ∷ 9 ∷ 9 ∷ 9 ∷ 9 ∷ 9 ∷ 9 ∷ 7 ∷ 8 ∷ [];
  is_doing_low_pwr_sleep = true;
}

main_begin-Registered_example :
    (wisp_data : DataStructInterface) × (t : Firmware) × (main_begin
        (done tt)
        20737
        1000
        2000
        3000
        reset_tag
      ≡ done wisp_data t)
    × Registered 20737 1000 2000 3000 reset_tag t wisp_data
main_begin-Registered_example =
    main_begin-Registered (done tt) 20737 1000 2000 3000 reset_tag reset_tag refl refl
