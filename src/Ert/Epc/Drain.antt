-- ===== src/Ert/Epc/Drain.antt =====
-- The packets of the packet buffer reach the EPC memory.
use mathlib.Core.List.{flatten}
use wisp_ert.Common.{
  ℕ, zero, suc, ◌+◌, ◌≤◌, ◌<◌, ◌≡◌, refl, sym, ap, ◌∙◌, List, [], ◌∷◌, ◌++◌, append_assoc, arith,
  length, length-append, drop, drop-cons, drop-append_of_drop, take-append, add16, leb-true, u8_mod,
  ltb-true, ltb-false, done,
}
use wisp_ert.Wio.Buf.{Buf, copy}
use wisp_ert.Wio.Buf.Bounds.{IsValid}
use wisp_ert.Wio.Buf.Transfer.{copy_exact, written, written-nil, written-append, written-IsValid}
use wisp_ert.Wtp.Endpoint.{ignore_status}
use wisp_ert.Ert.Epc.{fill}

-- Packets as they stand in the packet buffer: each with its size in front.
abbrev pub frames : List (List ℕ) → List ℕ
frames [] = []
frames (p ∷ ps) = length p ∷ (p ++ frames ps)

-- each packet's size is a byte
abbrev pub Short : List (List ℕ) → Type 0
Short [] = Unit
Short (p ∷ ps) = (length p < u8_mod) × Short ps

fill-packet :
    {pkt epc : Buf} (fuel : ℕ) (p rest : List ℕ)
    → IsValid pkt
    → IsValid epc
    → drop pkt.pos_a pkt.bytes ≡ length p ∷ (p ++ rest)
    → pkt.pos_a + 1 + length p ≤ pkt.pos_b
    → epc.pos_a ≡ 0
    → epc.pos_b + length p ≤ epc.size
    → length p < u8_mod
    → fill (suc fuel) (pkt, epc)
      ≡ fill fuel (record pkt { pos_a = pkt.pos_a + 1 + length p }, written epc p)
unfolding fill
fill-packet {pkt} {epc} fuel p rest v w e h z k l = rw (
  ltb-true pkt.pos_a pkt.pos_b (omega arith),
  (drop-cons pkt.bytes pkt.pos_a e).0,
  ltb-false epc.size (add16 epc.pos_a (length p)) (omega arith),
  next,
  copied,
  fill,
  ignore_status,
)
  where
    next : add16 pkt.pos_a 1 ≡ pkt.pos_a + 1
    next = omega arith

    pkt' : Buf
    pkt' = record pkt { pos_a = pkt.pos_a + 1 }

    body : drop (pkt.pos_a + 1) pkt.bytes ≡ p ++ rest
    body =
        let at : pkt.pos_a + 1 ≡ suc pkt.pos_a = omega arith in
        rw at ((drop-cons pkt.bytes pkt.pos_a e).1)

    copied :
        copy (length p) (pkt', epc)
        ≡ done tt (record pkt { pos_a = pkt.pos_a + 1 + length p }, written epc p)
    copied =
        copy_exact {src = pkt'} {dst = epc} (length p) (omega arith) w (omega arith) (omega arith)
        ∙ rw (
          leb-true (pkt.pos_a + 1 + length p) pkt.size (omega arith),
          leb-true (epc.pos_b + length p) epc.size k,
          body,
          take-append p rest (length p) refl,
        )

pub length-frames : (ps : List (List ℕ)) → length ps ≤ length (frames ps)
length-frames [] = omega arith
length-frames (p ∷ ps) = omega (arith, length-frames ps, length-append p (frames ps))

pub fill-frames :
    (ps : List (List ℕ)) (pkt epc : Buf) (fuel : ℕ) (rest : List ℕ)
    → IsValid pkt
    → IsValid epc
    → drop pkt.pos_a pkt.bytes ≡ frames ps ++ rest
    → pkt.pos_b ≡ pkt.pos_a + length (frames ps)
    → epc.pos_a ≡ 0
    → epc.pos_b + length (flatten ps) ≤ epc.size
    → Short ps
    → length ps < fuel
    → fill fuel (pkt, epc) ≡ done tt (record pkt { pos_a = pkt.pos_b }, written epc (flatten ps))
unfolding flatten fill
fill-frames ps pkt epc zero rest v w e h z k l f = absurd (omega arith)
fill-frames [] pkt epc (suc fuel) rest v w e h z k l f =
    rw (ltb-false pkt.pos_a pkt.pos_b (omega arith), fill)
      (ap (λ b. done tt (pkt, b)) (sym (written-nil epc))
        ∙ ap (λ n. done tt (record pkt { pos_a = n }, written epc [])) e')
  where
    e' : pkt.pos_a ≡ pkt.pos_b
    e' = omega arith
fill-frames (p ∷ ps) pkt epc (suc fuel) rest v w e h z k l f =
    fill-packet fuel p (frames ps ++ rest) v w e' (omega (arith, split)) z (omega (arith, joined))
      (l.0)
    ∙ fill-frames ps (record pkt { pos_a = pkt.pos_a + 1 + length p }) (written epc p) fuel rest
        (omega (arith, split)) (written-IsValid p w (omega (arith, joined)))
        (drop-append_of_drop (length p ∷ p) pkt.bytes pkt.pos_a (pkt.pos_a + 1 + length p) e''
          (omega arith))
        (omega (arith, split)) z (omega (arith, joined)) (l.1) (omega arith)
    ∙ ap (λ b. done tt (record pkt { pos_a = pkt.pos_b }, b)) (written-append epc p (flatten ps))
  where
    split : length (p ++ frames ps) ≡ length p + length (frames ps)
    split = length-append p (frames ps)

    joined : length (p ++ flatten ps) ≡ length p + length (flatten ps)
    joined = length-append p (flatten ps)

    e' : drop pkt.pos_a pkt.bytes ≡ length p ∷ (p ++ (frames ps ++ rest))
    e' = e ∙ ap (◌∷◌ (length p)) (append_assoc p (frames ps) rest)

    e'' : drop pkt.pos_a pkt.bytes ≡ (length p ∷ p) ++ (frames ps ++ rest)
    e'' = e'
