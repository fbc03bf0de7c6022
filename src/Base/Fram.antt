-- ===== src/Base/Fram.antt =====
-- Non-volatile memory: client/wisp-base/nvm/fram.c. Pointers are 16-bit addresses of bytes, and an
-- `int` offset is the 16-bit word that stands for it.
pub mod Copy
pub mod Segments
pub mod RoundTrip
use wisp_ert.Common.{ℕ, zero, suc, ◌+◌, ◌*◌, ◌/◌, ◌%◌, ◌==◌, if◌then◌else◌, add16, u8_mod}

-- the byte at each address
abbrev pub Memory : Type 0
Memory = ℕ → ℕ

abbrev pub poke : Memory → (at byte : ℕ) → Memory
poke mem at byte a = if a == at then byte else mem a

-- `FRAM_read_char`, `FRAM_read_int` and `FRAM_read_long`; the MSP430 is little-endian.
unfoldable pub read_char : Memory → (address : ℕ) → ℕ
read_char mem address = mem address

unfoldable pub read_int : Memory → (address : ℕ) → ℕ
read_int mem address = mem address + mem (add16 address 1) * 256

unfoldable pub read_long : Memory → (address : ℕ) → ℕ
unfolding read_int
read_long mem address = read_int mem address + read_int mem (add16 address 2) * 65536

-- `*address = *writeData`, for each type
unfoldable pub put_char : Memory → (address value : ℕ) → Memory
put_char mem address value = poke mem address (value % 256)

unfoldable pub put_int : Memory → (address value : ℕ) → Memory
put_int mem address value =
    poke (poke mem address (value % 256)) (add16 address 1) (value / 256 % 256)

unfoldable pub put_long : Memory → (address value : ℕ) → Memory
unfolding put_int
put_long mem address value =
    put_int (put_int mem address (value % 65536)) (add16 address 2) (value / 65536 % 65536)

-- `FRAM_write_long_array`, `FRAM_write_int_array` and `FRAM_write_char_array`
unfoldable pub write_long_array : Memory → (address number_of_longs write_data : ℕ) → Memory
unfolding put_long read_long
write_long_array mem address zero write_data = mem
write_long_array mem address (suc n) write_data =
    write_long_array (put_long mem address (read_long mem write_data)) (add16 address 4) n
      (add16 write_data 4)

unfoldable pub write_int_array : Memory → (address number_of_ints write_data : ℕ) → Memory
unfolding put_int read_int
write_int_array mem address zero write_data = mem
write_int_array mem address (suc n) write_data =
    write_int_array (put_int mem address (read_int mem write_data)) (add16 address 2) n
      (add16 write_data 2)

unfoldable pub write_char_array : Memory → (address number_of_chars write_data : ℕ) → Memory
unfolding put_char read_char
write_char_array mem address zero write_data = mem
write_char_array mem address (suc n) write_data =
    write_char_array (put_char mem address (read_char mem write_data)) (add16 address 1) n
      (add16 write_data 1)

abbrev pub info_a_start : ℕ
info_a_start = 6528

abbrev pub info_b_start : ℕ
info_b_start = 6400

abbrev pub info_c_start : ℕ
info_c_start = 6272

abbrev pub info_d_start : ℕ
info_d_start = 6144

-- `((type *)start) + addressOffset`
abbrev pub at_offset : (start size address_offset : ℕ) → ℕ
at_offset start size address_offset = (start + size * address_offset) % 65536
