-- ===== src/Examples/Rand.antt =====
-- Random numbers of client/wisp-base/rand/rand.c from a converter whose lowest bits alternate, and the
-- baud rate of client/wisp-base/wired/uart.c for 8 MHz and 9600 baud.
use wisp_ert.Common.{◌+◌, ◌*◌, ◌<◌, ◌≡◌, refl, arith, leb, if◌then◌else◌, done, out_of_fuel}
use wisp_ert.Base.Fram.{Memory}
use wisp_ert.Base.Rand.{adc_rand16, gen_rn16_vals}
use wisp_ert.Base.Rand.Bits.{bits_from, adc_rand16-bits_from}
use wisp_ert.Base.Rand.Table.{table_from, gen_rn16_vals-table_from}
use wisp_ert.Base.Uart.Baud.{set_baud, set_default_baud}

adc_rand16-bits_from_example :
    (adc_rand16 (λ at. at + 300) 7 ≡ done (bits_from (λ at. at + 300) 15 0 7) (7 + 15))
    × (bits_from (λ at. at + 300) 15 0 7 < 32768)
adc_rand16-bits_from_example = adc_rand16-bits_from (λ at. at + 300) 7

bits : bits_from (λ at. at + 300) 15 0 7 ≡ 21845
bits = refl

abbrev erased : Memory
erased a = 255

gen_rn16_vals-table_from_example : gen_rn16_vals (λ at. at + 300) 7168 3 2 (erased, 7) ≡ (
    if leb 2 255
    then done tt (table_from (λ at. at + 300) 7168 2 0 7 erased, 7 + 15 * 2)
    else out_of_fuel)
gen_rn16_vals-table_from_example =
    gen_rn16_vals-table_from (λ at. at + 300) 7168 3 2 7 erased (omega arith)

default_baud :
    set_default_baud 1 (record { mctlw = 0; brw = 0 })
    ≡ done tt (record { mctlw = 20241; brw = 52 })
unfolding set_default_baud
default_baud = refl

-- 16 MHz and 1 Mbaud: no hundredths are left, and the second modulation stage is not 0
wrapped_baud :
    set_baud 1 16000000 1000000 (record { mctlw = 0; brw = 0 })
    ≡ done tt (record { mctlw = 60417; brw = 1 })
unfolding set_baud
wrapped_baud = refl
