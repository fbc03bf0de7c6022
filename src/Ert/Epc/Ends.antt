-- ===== src/Ert/Epc/Ends.antt =====
-- The EPC update of `main` in client/wisp-ert/runtime/runtime.c ends.
use wisp_ert.Common.{
  ℕ, zero, suc, ◌+◌, ◌-◌, ◌≤◌, ◌<◌, ◌≡◌, ◌⊎◌, inl, inr, refl, List, [], ◌∷◌, arith, ltb, leb,
  length, get_elem?, add16, Outcome, done, fail, fault, out_of_fuel, and_then, Bool-cases,
  Option-cases, lt_of_get_elem?, ap, on, M, modify, ◌==◌, if◌then◌else◌,
}
use wisp_ert.Wtp.Packet.{pkt_end}
use wisp_ert.Common.Memory.{slice-none}
use wisp_ert.Wio.Buf.{Buf, copy, write, write_from}
use wisp_ert.Wio.Buf.Bounds.{load-eq-slice}
use wisp_ert.Wtp.Endpoint.{ignore_status}
use wisp_ert.Wtp.Endpoint.Blockwrite.Ends.{Ends}
use wisp_ert.Ert.Epc.{fill, update_epc}

-- the packet buffer after a copy out of it
abbrev Onward : Buf → Buf → Type 0
Onward b b' = (b'.bytes ≡ b.bytes) × (b.pos_a ≤ b'.pos_a)

Copied : (n : ℕ) (pkt epc : Buf) → Type 0
Copied n pkt epc =
    (ignore_status (copy n) (pkt, epc) ≡ fault)
    ⊎ ((pkt' : Buf) × (epc' : Buf) × (ignore_status (copy n) (pkt, epc) ≡ done tt (pkt', epc'))
        × Onward pkt pkt')

write_from-bound :
    (src : List ℕ) (at n : ℕ) (b b' : Buf)
    → write_from src at n b ≡ done tt b'
    → at + n ≤ length src
unfolding write_from
write_from-bound src at n b b' e = elim (Bool-cases (leb (at + n) (length src))) [
  | inl within ↦ ground arith
  | inr outside ↦ ground (arith, e, load-eq-slice src at n, slice-none src at n)
]

write_from-Ends : (src : List ℕ) (at n : ℕ) (b : Buf) → write_from src at n b ≡ out_of_fuel → ⊥
unfolding write_from
write_from-Ends src at n b e = ground (arith, e)

-- the outcome of the write that a copy makes
copy-with :
    (n : ℕ) (pkt epc : Buf) (o : Outcome Buf (Unit {0}))
    → length pkt.bytes < 65536
    → write_from pkt.bytes pkt.pos_a n epc ≡ o
    → Copied n pkt epc
unfolding Copied copy
copy-with n pkt epc (done _ epc') h e = elim (Bool-cases (ltb pkt.size (add16 pkt.pos_a n))) [
  | inl far ↦ inr (pkt, epc, rw (ignore_status, far), (refl, omega arith))
  | inr near ↦
      let k = write_from-bound pkt.bytes pkt.pos_a n epc epc' e in
      inr (
        record pkt { pos_a = add16 pkt.pos_a n },
        epc',
        rw (ignore_status, near, e),
        (refl, omega arith),
      )
]
copy-with n pkt epc (fail x epc') h e = elim (Bool-cases (ltb pkt.size (add16 pkt.pos_a n))) [
  | inl far ↦ inr (pkt, epc, rw (ignore_status, far), (refl, omega arith))
  | inr near ↦ inr (pkt, epc', rw (ignore_status, near, e), (refl, omega arith))
]
copy-with n pkt epc fault h e = elim (Bool-cases (ltb pkt.size (add16 pkt.pos_a n))) [
  | inl far ↦ inr (pkt, epc, rw (ignore_status, far), (refl, omega arith))
  | inr near ↦ inl (rw (ignore_status, near, e))
]
copy-with n pkt epc out_of_fuel h e = absurd (write_from-Ends pkt.bytes pkt.pos_a n epc e)

fill-Ends :
    (fuel : ℕ) (pkt epc : Buf)
    → length pkt.bytes < 65536
    → length pkt.bytes - pkt.pos_a < fuel
    → Ends (fill fuel (pkt, epc))
unfolding fill Copied
fill-Ends zero pkt epc h k = absurd (omega arith)
fill-Ends (suc fuel) pkt epc h k = elim (Bool-cases (ltb pkt.pos_a pkt.pos_b)) [
  | inr empty ↦ rw (fill, empty) tt
  | inl more ↦ elim (Option-cases (get_elem? pkt.bytes pkt.pos_a)) [
    | inl absent ↦ rw (fill, more, absent) tt
    | inr (pkt_size, there) ↦ elim (Bool-cases (ltb epc.size (add16 epc.pos_a pkt_size))) [
      | inl full ↦ rw (fill, more, there, full) tt
      | inr room ↦
          let l = lt_of_get_elem? pkt.bytes pkt.pos_a pkt_size there in
          rw (fill, more, there, room)
            (elim (copy-with pkt_size (record pkt { pos_a = add16 pkt.pos_a 1 }) epc _ h refl) [
              | inl stops ↦ rw (stops, and_then) tt
              | inr (pkt', epc', goes, (same, on)) ↦
                  rw (goes, and_then)
                    (fill-Ends fuel pkt' epc' (omega (arith, ap length same))
                      (omega (arith, ap length same)))
            ])
    ]
  ]
]

-- what follows the loop
abbrev write_end : M (Buf × Buf) (Unit {0})
write_end = on (λ s. s.1) (λ s b. (s.0, b)) (ignore_status (write (pkt_end ∷ [])))

abbrev reset_empty : M (Buf × Buf) (Unit {0})
reset_empty =
    modify (λ s. if s.0.pos_a == s.0.pos_b then (record (s.0) { pos_a = 0; pos_b = 0 }, s.1) else s)

write_end-Ends :
    (s : Buf × Buf) (o : Outcome Buf (Unit {0}))
    → write (pkt_end ∷ []) s.1 ≡ o
    → Ends (and_then (write_end s) (λ _. reset_empty))
unfolding write
write_end-Ends s (done _ b) e = rw (write_end, ignore_status, e) tt
write_end-Ends s (fail x b) e = rw (write_end, ignore_status, e) tt
write_end-Ends s fault e = rw (write_end, ignore_status, e) tt
write_end-Ends s out_of_fuel e = absurd (write_from-Ends (pkt_end ∷ []) 0 1 s.1 e)

finished-Ends :
    (o : Outcome (Buf × Buf) (Unit {0}))
    → Ends o
    → Ends (and_then (and_then o (λ _. write_end)) (λ _. reset_empty))
finished-Ends (done _ s) h = write_end-Ends s _ refl
finished-Ends (fail e s) h = tt
finished-Ends fault h = tt
finished-Ends out_of_fuel h = h

-- The EPC update ends for every packet buffer whose memory is smaller than 2^16 bytes, whatever
-- packets or other bytes are in it, and for every EPC buffer: each round of the loop takes at least
-- a byte of that memory.
pub update_epc-Ends : (pkt epc : Buf) → length pkt.bytes < 65536 → Ends (update_epc (pkt, epc))
unfolding update_epc
update_epc-Ends pkt epc h = elim (Bool-cases (pkt.pos_a == pkt.pos_b)) [
  | inl nothing ↦ rw nothing tt
  | inr something ↦ rw something (
      finished-Ends _ (
        fill-Ends (suc (length pkt.bytes)) pkt (record epc { pos_a = 0; pos_b = 0 }) h
          (omega arith)))
]
