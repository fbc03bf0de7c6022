-- ===== src/Examples/Buffers.antt =====
-- Small buffers of client/wisp-base/wio/buf.c.
use wisp_ert.Common.{ℕ, ◌≡◌, refl, [], ◌∷◌, arith, replicate, length-replicate, done, fault}
use wisp_ert.Wio.Buf.{Buf, read}
use wisp_ert.Wio.Buf.Bounds.{IsValid, read-fault_of_wrap}
use wisp_ert.Wio.Buf.Safety.{
  read_first, write_first, read_second, write_second, copy_over, perform_all, BothValid,
  perform_all-BothValid,
}

-- eight bytes, three of them written and one of those read
abbrev some_buf : Buf
some_buf = record { bytes = 11 ∷ 22 ∷ 33 ∷ 0 ∷ 0 ∷ 0 ∷ 0 ∷ 0 ∷ []; size = 8; pos_a = 1; pos_b = 3 }

some_buf-IsValid : IsValid some_buf
some_buf-IsValid = record {
  pos_a_in = omega arith;
  pos_b_in = omega arith;
  size_in = omega arith;
  small = omega arith;
}

-- ten bytes, of which eight have been written and read
abbrev level_buf : Buf
level_buf = record {
  bytes = 1 ∷ 2 ∷ 3 ∷ 4 ∷ 5 ∷ 6 ∷ 7 ∷ 8 ∷ 0 ∷ 0 ∷ [];
  size = 10;
  pos_a = 8;
  pos_b = 8;
}

level_buf-IsValid : IsValid level_buf
level_buf-IsValid = record {
  pos_a_in = omega arith;
  pos_b_in = omega arith;
  size_in = omega arith;
  small = omega arith;
}

abbrev large_buf : Buf
large_buf = record { bytes = replicate 65530 7; size = 65530; pos_a = 65530; pos_b = 65530 }

large_buf-IsValid : IsValid large_buf
large_buf-IsValid = record {
  pos_a_in = omega arith;
  pos_b_in = omega arith;
  size_in = omega (arith, length-replicate {A = ℕ} 65530 7);
  small = omega arith;
}

read-fault_of_wrap_example : read 10 large_buf ≡ fault
read-fault_of_wrap_example =
    read-fault_of_wrap 10 large_buf-IsValid (omega arith)
      (omega (arith, length-replicate {A = ℕ} 65530 7)) (omega arith) (omega arith)

perform_all-BothValid_example :
    (s : Buf × Buf) × (perform_all
        (copy_over 2
          ∷ write_first (7 ∷ 8 ∷ [])
          ∷ read_second 11
          ∷ read_first 1
          ∷ write_second []
          ∷ [])
        (some_buf, level_buf)
      ≡ done tt s)
    × BothValid 8 10 s
perform_all-BothValid_example =
    perform_all-BothValid 8 10
      (copy_over 2
        ∷ write_first (7 ∷ 8 ∷ [])
        ∷ read_second 11
        ∷ read_first 1
        ∷ write_second []
        ∷ [])
      (some_buf, level_buf)
      (record {
        first = some_buf-IsValid;
        second = level_buf-IsValid;
        first_size = refl;
        second_size = refl;
      })
      ((omega arith, omega arith), (omega arith, (omega arith, (omega arith, (omega arith, tt)))))
