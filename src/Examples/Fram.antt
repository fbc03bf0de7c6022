-- ===== src/Examples/Fram.antt =====
-- Two longs in a segment of client/wisp-base/nvm/fram.c.
use wisp_ert.Common.{◌+◌, ◌*◌, ◌%◌, ◌≡◌, inl, inr, arith}
use wisp_ert.Base.Fram.{Memory}
use wisp_ert.Base.Fram.Copy.{long, fetch, size_of}
use wisp_ert.Base.Fram.RoundTrip.{info_b, Fits, write_info, read_info, write_info-read_info}

abbrev counting : Memory
counting a = a % 256

fits : Fits info_b long 3 2 8191
fits = record { room = omega arith; source = omega arith; apart = inl (omega arith) }

write_info-read_info_example :
    (read_info info_b long (write_info info_b long counting 3 2 8191) (3 + 1)
      ≡ fetch long counting (8191 + size_of long * 1))
    × (write_info info_b long counting 3 2 8191 6528 ≡ counting 6528)
write_info-read_info_example =
    write_info-read_info info_b long counting 3 2 8191 1 6528 (λ a. omega arith) fits (omega arith)
      (inr (omega arith))
