-- ===== src/Base/Uart/Baud.antt =====
-- The baud rate in `UART_initCustom` of client/wisp-base/wired/uart.c. The constant UCOS16 of the
-- processor's header is a parameter.
use Prim.Native.Nat.{bit_and, bit_or}
use wisp_ert.Common.{
  ℕ, ◌+◌, ◌-◌, ◌*◌, ◌/◌, ◌%◌, ◌==◌, ltb, if◌then◌else◌, mul16, sub16, done, fault, M,
}

-- UCA0MCTLW and UCA0BRW
pub record BaudRegisters : Type 0 where
  pub mctlw : ℕ
  pub brw : ℕ

-- `n` and `nfrac`: the clock divided by the baud rate, and its hundredths, in 16 bits
abbrev pub clocks_per_bit : (fsmclk baudrate : ℕ) → ℕ
clocks_per_bit fsmclk baudrate = fsmclk / baudrate % 65536

abbrev pub hundredths : (fsmclk baudrate : ℕ) → ℕ
hundredths fsmclk baudrate =
    (fsmclk * 100 % 4294967296 / baudrate + 4294967296 - mul16 (clocks_per_bit fsmclk baudrate) 100)
    % 65536

-- "Baud Rate calculation"; a division by zero where the baud rate is 0
unfoldable pub set_baud : (ucos16 fsmclk baudrate : ℕ) → M BaudRegisters (Unit {0})
set_baud ucos16 fsmclk baudrate r =
    let n = clocks_per_bit fsmclk baudrate in
    let cleared = bit_and r.mctlw 15 in
    let second = bit_or cleared (mul16 (sub16 (mul16 (hundredths fsmclk baudrate) 3) 20) 256) in
    if baudrate == 0
    then fault
    else if ltb 3 n
    then done tt (record {
      mctlw = bit_or (bit_or second ucos16) (mul16 (sub16 n (bit_and n 65520)) 16);
      brw = n / 16;
    })
    else done tt (record { mctlw = bit_and second (65535 - ucos16); brw = n })

-- `UART_init`
unfoldable pub set_default_baud : (ucos16 : ℕ) → M BaudRegisters (Unit {0})
unfolding set_baud
set_default_baud ucos16 = set_baud ucos16 8000000 9600
