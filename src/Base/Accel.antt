-- ===== src/Base/Accel.antt =====
-- The accelerometer of client/wisp-base/Sensors/accel.c, on the bus of client/wisp-base/wired/spi.c.
-- What the device does with a byte, and with a level of its chip select pin, is a parameter.
pub mod Sample
use wisp_ert.Common.{
  ℕ, ◌+◌, ◌*◌, ◌/◌, ◌%◌, Bool, true, false, none, some, List, [], ◌∷◌, length, get_elem?, done,
  fail, fault, out_of_fuel, M, ◌>>=◌, ◌>>◌, pure, get, modify, on, present, starve, Option,
}
use wisp_ert.Base.Spi.{Spi, acquire_port, release_port, transaction}

-- the commands
abbrev pub adxl_read_devid : List ℕ
adxl_read_devid = 11 ∷ 0 ∷ 0 ∷ []

abbrev pub adxl_read_status : List ℕ
adxl_read_status = 11 ∷ 11 ∷ 0 ∷ []

abbrev pub adxl_read_xyz_8bit : List ℕ
adxl_read_xyz_8bit = 11 ∷ 8 ∷ 0 ∷ 0 ∷ 0 ∷ []

abbrev pub adxl_read_xyz_16bit_fifo : List ℕ
adxl_read_xyz_16bit_fifo = 13 ∷ 0 ∷ 0 ∷ 0 ∷ 0 ∷ 0 ∷ 0 ∷ []

abbrev pub adxl_config_meas : List ℕ
adxl_config_meas = 10 ∷ 45 ∷ 34 ∷ []

abbrev pub adxl_config_reset : List ℕ
adxl_config_reset = 10 ∷ 31 ∷ 82 ∷ []

abbrev pub adxl_config_filter : List ℕ
adxl_config_filter = 10 ∷ 44 ∷ 20 ∷ []

-- `threeAxis_t_8`, each `int8_t` as the byte that stands for it
pub record ThreeAxis : Type 0 where
  pub x : ℕ
  pub y : ℕ
  pub z : ℕ

-- `((high & 0x0F) << 4)|((low & 0xF0) >> 4)`
abbrev pub fifo_axis : (high low : ℕ) → ℕ
fifo_axis high low = high % 16 * 16 + low / 16 % 16

module _ {D : Type 0} (exchange : ℕ → D → ℕ × D) (chip_select : Bool → D → D) where
  -- `while(!SPI_acquirePort());`: nothing else runs, so a port in use stays in use.
  unfoldable pub wait_port : M (Spi D) (Unit {0})
  unfolding acquire_port
  wait_port = do acquired ← acquire_port; elim acquired [ true ↦ pure tt | false ↦ starve ]

  -- `BITSET` and `BITCLR` of PIN_ACCEL_CS
  unfoldable pub set_cs : Bool → M (Spi D) (Unit {0})
  set_cs level = modify (λ s. record s { cs = level; device = chip_select level s.device })

  -- `SPI_transaction(gpRxBuf, command, sizeof(command))`, its result ignored
  unfoldable pub transact : List ℕ → M (Spi D) (Unit {0})
  unfolding transaction
  transact command s = elim (transaction exchange command (length command) (s.gp_rx_buf, s)) [
    | done _ r ↦ done tt (record (r.1) { gp_rx_buf = r.0 })
    | fail e r ↦ fail e (record (r.1) { gp_rx_buf = r.0 })
    | fault ↦ fault
    | out_of_fuel ↦ out_of_fuel
  ]

  -- the whole of a command on the bus
  unfoldable pub command_bus : List ℕ → M (Spi D) (Unit {0})
  unfolding wait_port set_cs transact release_port
  command_bus command =
      wait_port >> set_cs false >> transact command >> set_cs true >> release_port >> pure tt

  -- `ACCEL_reset`, `ACCEL_range` and `ACCEL_initialize`
  unfoldable pub reset : M (Spi D) Bool
  unfolding command_bus
  reset = command_bus adxl_config_reset >> pure true

  unfoldable pub range : M (Spi D) Bool
  unfolding command_bus
  range = command_bus adxl_config_filter >> pure true

  unfoldable pub initialize : M (Spi D) Bool
  unfolding command_bus
  initialize = command_bus adxl_config_meas >> pure true

  -- `ACCEL_initialize_withoutWait`
  unfoldable pub initialize_without_wait : M (Spi D) Bool
  unfolding wait_port set_cs transact release_port
  initialize_without_wait = do
    wait_port
    set_cs true
    set_cs false
    transact adxl_config_meas
    set_cs true
    _ ← release_port
    pure true

  -- `ACCEL_standby`
  unfoldable pub standby : M (Spi D) (Unit {0})
  standby = pure tt

  -- `gpRxBuf[i]`
  unfoldable pub rx_byte : ℕ → M (Spi D) ℕ
  rx_byte i s = present (get_elem? s.gp_rx_buf i) s

  -- `ACCEL_singleSample_FIFO`
  unfoldable pub single_sample_fifo : ThreeAxis → M (Spi D) ThreeAxis
  unfolding command_bus rx_byte
  single_sample_fifo result = do
    command_bus adxl_read_xyz_16bit_fifo
    b1 ← rx_byte 1
    b2 ← rx_byte 2
    b3 ← rx_byte 3
    b4 ← rx_byte 4
    b5 ← rx_byte 5
    b6 ← rx_byte 6
    pure (record { x = fifo_axis b2 b1; y = fifo_axis b4 b3; z = fifo_axis b6 b5 })

  -- `ACCEL_singleSample`
  unfoldable pub single_sample : ThreeAxis → M (Spi D) ThreeAxis
  unfolding command_bus rx_byte
  single_sample result = do
    command_bus adxl_read_xyz_8bit
    b2 ← rx_byte 2
    b3 ← rx_byte 3
    b4 ← rx_byte 4
    pure (record { x = b2; y = b3; z = b4 })

  -- `ACCEL_readStat` and `ACCEL_readID`
  unfoldable pub read_stat : ThreeAxis → M (Spi D) ThreeAxis
  unfolding command_bus rx_byte
  read_stat result = do
    command_bus adxl_read_status
    b2 ← rx_byte 2
    pure (record result { x = b2 })

  unfoldable pub read_id : ThreeAxis → M (Spi D) ThreeAxis
  unfolding command_bus rx_byte
  read_id result = do command_bus adxl_read_devid; b2 ← rx_byte 2; pure (record result { x = b2 })
