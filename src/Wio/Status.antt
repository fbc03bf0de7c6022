-- ===== src/Wio/Status.antt =====
-- The status codes of client/wisp-base/wio/defs.h, and WIO_TRY for a status that is already there.
use wisp_ert.Common.{ℕ, done, fail, M, ◌==◌, if◌then◌else◌}

-- `wio_status_t`, a byte
abbrev pub Status : Type 0
Status = ℕ

abbrev pub wio_ok : Status
wio_ok = 0

abbrev pub out_of_range : Status
out_of_range = 1

abbrev pub no_memory : Status
no_memory = 2

abbrev pub already : Status
already = 3

abbrev pub invalid : Status
invalid = 4

abbrev pub empty : Status
empty = 5

-- `return status`: `WIO_OK` lets the caller go on.
abbrev pub return_status {ℓ} : {S : Type ℓ} → Status → M S (Unit {0})
return_status e s = if e == wio_ok then done tt s else fail e s
