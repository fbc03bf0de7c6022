-- ===== src/Base/Spi/Transaction.antt =====
-- What a transaction of client/wisp-base/wired/spi.c exchanges with the device.
use wisp_ert.Common.{
  ℕ, zero, suc, ◌+◌, ◌<◌, ◌≤◌, ◌≡◌, refl, true, false, ◌&&◌, not, if◌then◌else◌, Bool-cases, inl,
  inr, some, List, [], ◌∷◌, arith, length, ◌==◌, ◌∙◌, ap, get_elem?, take, drop, done,
  get_elem?-some, take-drop-suc,
}
use wisp_ert.Common.Memory.{splice, overwrite, store-some, splice-splice, length-splice}
use wisp_ert.Base.Spi.{Spi, shift, shift_all, transaction}

module _ {D : Type 0} (exchange : ℕ → D → ℕ × D) where
  -- the answers to a sequence of bytes, and the device after it
  abbrev pub answers : List ℕ → D → List ℕ
  answers [] d = []
  answers (b ∷ bytes) d = (exchange b d).0 ∷ answers bytes (exchange b d).1

  abbrev pub after : List ℕ → D → D
  after [] d = d
  after (b ∷ bytes) d = after bytes (exchange b d).1

  -- the state with a number of bytes to come
  abbrev pub at_byte : Spi D → (cur left : ℕ) → D → Spi D
  at_byte s cur left d = record s {
    new_data_received = false;
    cur_rx = cur;
    cur_tx = cur;
    bytes_to_send = left;
    device = d;
  }

  shift-done :
      (tx rx : List ℕ) (s : Spi D) (cur n byte : ℕ) (d : D)
      → get_elem? tx cur ≡ some byte
      → suc cur ≤ length rx
      → cur + suc n < 65536
      → shift exchange tx (rx, at_byte s cur (suc n) d)
        ≡ done tt
            (splice rx cur ((exchange byte d).0 ∷ []), at_byte s (suc cur) n (exchange byte d).1)
  unfolding shift
  shift-done tx rx s cur n byte d there room small =
      ground (arith, there, store-some rx cur ((exchange byte d).0 ∷ []))

  shift_all-last :
      (fuel : ℕ) (tx : List ℕ) (rx rx' : List ℕ) (s s' : Spi D)
      → shift exchange tx (rx, s) ≡ done tt (rx', s')
      → s'.bytes_to_send ≡ 0
      → shift_all exchange (suc fuel) tx (rx, s) ≡ done tt (rx', s')
  unfolding shift_all
  shift_all-last fuel tx rx rx' s s' e z = ground (arith, e, z)

  shift_all-next :
      (fuel n : ℕ) (tx : List ℕ) (rx rx' : List ℕ) (s s' : Spi D)
      → shift exchange tx (rx, s) ≡ done tt (rx', s')
      → s'.bytes_to_send ≡ suc n
      → shift_all exchange (suc fuel) tx (rx, s) ≡ shift_all exchange fuel tx (rx', s')
  unfolding shift_all
  shift_all-next fuel n tx rx rx' s s' e z = ground (arith, e, z)

  shift_all-exchanges :
      (n : ℕ) (tx rx : List ℕ) (s : Spi D) (cur : ℕ) (d : D)
      → cur + suc n ≤ length tx
      → cur + suc n ≤ length rx
      → cur + suc n < 65536
      → shift_all exchange (suc n) tx (rx, at_byte s cur (suc n) d)
        ≡ done tt (
          splice rx cur (answers (take (suc n) (drop cur tx)) d),
          at_byte s (cur + suc n) 0 (after (take (suc n) (drop cur tx)) d),
        )
  shift_all-exchanges zero tx rx s cur d ht hr small =
      let (byte, there) = get_elem?-some tx cur (omega arith) in
      let e : cur + 1 ≡ suc cur = omega arith in
      rw (take-drop-suc tx cur 0 byte there, e)
        (shift_all-last 0 tx rx _ (at_byte s cur 1 d) _
          (shift-done tx rx s cur 0 byte d there (omega arith) small) refl)
  shift_all-exchanges (suc n) tx rx s cur d ht hr small =
      let (byte, there) = get_elem?-some tx cur (omega arith) in
      let e : cur + suc (suc n) ≡ suc cur + suc n = omega arith in
      rw (take-drop-suc tx cur (suc n) byte there, e)
        (shift_all-next (suc n) n tx rx _ (at_byte s cur (suc (suc n)) d) _
            (shift-done tx rx s cur (suc n) byte d there (omega arith) small) refl
          ∙ shift_all-exchanges n tx (splice rx cur ((exchange byte d).0 ∷ [])) s (suc cur)
              (exchange byte d).1 (omega arith)
              (omega (arith, length-splice rx cur ((exchange byte d).0 ∷ []))) (omega arith)
          ∙ ap
              (λ x. done tt (
                x,
                at_byte s (suc cur + suc n) 0
                    (after (take (suc n) (drop (suc cur) tx)) (exchange byte d).1),
              ))
              (splice-splice rx cur ((exchange byte d).0 ∷ []) _ (suc cur) (omega arith)))

  transaction-held :
      (tx rx : List ℕ) (n : ℕ) (s : Spi D) (s' : List ℕ × Spi D)
      → s.port_in_use ≡ true
      → shift_all exchange (suc n) tx (rx, at_byte s 0 (suc n) s.device) ≡ done tt s'
      → transaction exchange tx (suc n) (rx, s) ≡ done true s'
  unfolding transaction
  transaction-held tx rx n s s' held e = ground (arith, held, e)

  shift_all-front :
      (n : ℕ) (tx rx : List ℕ) (s : Spi D)
      → suc n ≤ length tx
      → suc n ≤ length rx
      → suc n < 65536
      → shift_all exchange (suc n) tx (rx, at_byte s 0 (suc n) s.device)
        ≡ done tt (
          overwrite rx (answers (take (suc n) tx) s.device),
          at_byte s (suc n) 0 (after (take (suc n) tx) s.device),
        )
  shift_all-front n tx rx s ht hr small =
      let z : 0 + suc n ≡ suc n = omega arith in
      shift_all-exchanges n tx rx s 0 s.device (omega arith) (omega arith) (omega arith)
      ∙ ap
          (λ k. done tt (
            overwrite rx (answers (take (suc n) tx) s.device),
            at_byte s k 0 (after (take (suc n) tx) s.device),
          ))
          z

  transaction-free :
      (tx rx : List ℕ) (size : ℕ) (s : Spi D)
      → s.port_in_use ≡ false
      → transaction exchange tx size (rx, s) ≡ done false (rx, s)
  unfolding transaction
  transaction-free tx rx size s free = ground (arith, free)

  transaction-empty :
      (tx rx : List ℕ) (s : Spi D)
      → s.port_in_use ≡ true
      → transaction exchange tx 0 (rx, s) ≡ done false (rx, s)
  unfolding transaction
  transaction-empty tx rx s held = ground (arith, held)

  -- `SPI_transaction` within its buffers, on every branch: with the port taken and bytes to send it
  -- exchanges exactly the first `size` bytes with the device, in order, the answers stand at the
  -- front of the receive buffer, and the rest of that buffer is as it was; without the port, or
  -- with nothing to send, it fails and changes nothing.
  pub transaction_exact :
      (tx rx : List ℕ) (size : ℕ) (s : Spi D)
      → size ≤ length tx
      → size ≤ length rx
      → size < 65536
      → transaction exchange tx size (rx, s) ≡ (
          if s.port_in_use && not (size == 0)
          then done true (
            overwrite rx (answers (take size tx) s.device),
            at_byte s size 0 (after (take size tx) s.device),
          )
          else done false (rx, s))
  transaction_exact tx rx zero s ht hr small = elim (Bool-cases s.port_in_use) [
    | inl held ↦ ground (arith, held, transaction-empty tx rx s held)
    | inr free ↦ ground (arith, free, transaction-free tx rx 0 s free)
  ]
  transaction_exact tx rx (suc n) s ht hr small = elim (Bool-cases s.port_in_use) [
    | inl held ↦
        ground
          (arith, held, transaction-held tx rx n s _ held (shift_all-front n tx rx s ht hr small))
    | inr free ↦ ground (arith, free, transaction-free tx rx (suc n) s free)
  ]
