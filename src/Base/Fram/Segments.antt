-- ===== src/Base/Fram/Segments.antt =====
-- The segments: `FRAM_write_infoX_T` and `FRAM_read_infoX_T` of client/wisp-base/nvm/fram.c, for the
-- segments A to D and the types long, int and char.
use wisp_ert.Common.{ℕ}
use wisp_ert.Base.Fram.{
  Memory, at_offset, info_a_start, info_b_start, info_c_start, info_d_start, read_char, read_int,
  read_long, write_char_array, write_int_array, write_long_array,
}

unfoldable pub write_info_a_long : Memory → (address_offset number write_data : ℕ) → Memory
unfolding write_long_array
write_info_a_long mem address_offset number write_data =
    write_long_array mem (at_offset info_a_start 4 address_offset) number write_data

unfoldable pub write_info_a_int : Memory → (address_offset number write_data : ℕ) → Memory
unfolding write_int_array
write_info_a_int mem address_offset number write_data =
    write_int_array mem (at_offset info_a_start 2 address_offset) number write_data

unfoldable pub write_info_a_char : Memory → (address_offset number write_data : ℕ) → Memory
unfolding write_char_array
write_info_a_char mem address_offset number write_data =
    write_char_array mem (at_offset info_a_start 1 address_offset) number write_data

unfoldable pub write_info_b_long : Memory → (address_offset number write_data : ℕ) → Memory
unfolding write_long_array
write_info_b_long mem address_offset number write_data =
    write_long_array mem (at_offset info_b_start 4 address_offset) number write_data

unfoldable pub write_info_b_int : Memory → (address_offset number write_data : ℕ) → Memory
unfolding write_int_array
write_info_b_int mem address_offset number write_data =
    write_int_array mem (at_offset info_b_start 2 address_offset) number write_data

unfoldable pub write_info_b_char : Memory → (address_offset number write_data : ℕ) → Memory
unfolding write_char_array
write_info_b_char mem address_offset number write_data =
    write_char_array mem (at_offset info_b_start 1 address_offset) number write_data

unfoldable pub write_info_c_long : Memory → (address_offset number write_data : ℕ) → Memory
unfolding write_long_array
write_info_c_long mem address_offset number write_data =
    write_long_array mem (at_offset info_c_start 4 address_offset) number write_data

unfoldable pub write_info_c_int : Memory → (address_offset number write_data : ℕ) → Memory
unfolding write_int_array
write_info_c_int mem address_offset number write_data =
    write_int_array mem (at_offset info_c_start 2 address_offset) number write_data

unfoldable pub write_info_c_char : Memory → (address_offset number write_data : ℕ) → Memory
unfolding write_char_array
write_info_c_char mem address_offset number write_data =
    write_char_array mem (at_offset info_c_start 1 address_offset) number write_data

unfoldable pub write_info_d_long : Memory → (address_offset number write_data : ℕ) → Memory
unfolding write_long_array
write_info_d_long mem address_offset number write_data =
    write_long_array mem (at_offset info_d_start 4 address_offset) number write_data

unfoldable pub write_info_d_int : Memory → (address_offset number write_data : ℕ) → Memory
unfolding write_int_array
write_info_d_int mem address_offset number write_data =
    write_int_array mem (at_offset info_d_start 2 address_offset) number write_data

unfoldable pub write_info_d_char : Memory → (address_offset number write_data : ℕ) → Memory
unfolding write_char_array
write_info_d_char mem address_offset number write_data =
    write_char_array mem (at_offset info_d_start 1 address_offset) number write_data

unfoldable pub read_info_a_long : Memory → (address_offset : ℕ) → ℕ
unfolding read_long
read_info_a_long mem address_offset = read_long mem (at_offset info_a_start 4 address_offset)

unfoldable pub read_info_a_int : Memory → (address_offset : ℕ) → ℕ
unfolding read_int
read_info_a_int mem address_offset = read_int mem (at_offset info_a_start 2 address_offset)

unfoldable pub read_info_a_char : Memory → (address_offset : ℕ) → ℕ
unfolding read_char
read_info_a_char mem address_offset = read_char mem (at_offset info_a_start 1 address_offset)

unfoldable pub read_info_b_long : Memory → (address_offset : ℕ) → ℕ
unfolding read_long
read_info_b_long mem address_offset = read_long mem (at_offset info_b_start 4 address_offset)

unfoldable pub read_info_b_int : Memory → (address_offset : ℕ) → ℕ
unfolding read_int
read_info_b_int mem address_offset = read_int mem (at_offset info_b_start 2 address_offset)

unfoldable pub read_info_b_char : Memory → (address_offset : ℕ) → ℕ
unfolding read_char
read_info_b_char mem address_offset = read_char mem (at_offset info_b_start 1 address_offset)

unfoldable pub read_info_c_long : Memory → (address_offset : ℕ) → ℕ
unfolding read_long
read_info_c_long mem address_offset = read_long mem (at_offset info_c_start 4 address_offset)

unfoldable pub read_info_c_int : Memory → (address_offset : ℕ) → ℕ
unfolding read_int
read_info_c_int mem address_offset = read_int mem (at_offset info_c_start 2 address_offset)

unfoldable pub read_info_c_char : Memory → (address_offset : ℕ) → ℕ
unfolding read_char
read_info_c_char mem address_offset = read_char mem (at_offset info_c_start 1 address_offset)

unfoldable pub read_info_d_long : Memory → (address_offset : ℕ) → ℕ
unfolding read_long
read_info_d_long mem address_offset = read_long mem (at_offset info_d_start 4 address_offset)

unfoldable pub read_info_d_int : Memory → (address_offset : ℕ) → ℕ
unfolding read_int
read_info_d_int mem address_offset = read_int mem (at_offset info_d_start 2 address_offset)

unfoldable pub read_info_d_char : Memory → (address_offset : ℕ) → ℕ
unfolding read_char
read_info_d_char mem address_offset = read_char mem (at_offset info_d_start 1 address_offset)
