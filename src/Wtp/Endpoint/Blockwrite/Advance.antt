-- ===== src/Wtp/Endpoint/Blockwrite/Advance.antt =====
-- The packet handlers of client/wtp/wtp/endpoint.c go forward in the block that they read, and stay
-- within it.
use wisp_ert.Common.{
  ℕ, zero, suc, ◌+◌, ◌≤◌, ◌<◌, ◌≡◌, refl, Bool, true, false, Option, none, some, List, [], ◌∷◌,
  arith, get_elem?, get_elem?-none, ◌==◌, if◌then◌else◌, add16, Outcome, done, fail, fault,
  out_of_fuel, M, ◌>>=◌, ◌>>◌, pure, get, modify, present, put_back, and_then-eq-done, ap, sym,
  word16, bytes16, Option-cases, inl, inr, AllBytes, ◌∙◌,
}
use wisp_ert.Common.Memory.{slice}
use wisp_ert.Wio.Buf
use wisp_ert.Wio.Buf.{Buf}
use wisp_ert.Wio.Status.{invalid}
use wisp_ert.Wtp.Packet.{pkt_ack, param_read_size}
use wisp_ert.Wtp.Tx.Frame.{emit}
use wisp_ert.Wtp.Endpoint.{Wtp, Env, on_tx}
use wisp_ert.Wtp.Endpoint.Checksum.{Recv, on_self, on_buf, byte_of, verify_checksum, xor_checksum}
use wisp_ert.Wtp.Endpoint.Handlers.{
  handle_open, handle_ack, handle_set_param, handle_msg_packet, receive_packet, notify_received,
}

-- The buffer over a block: its size is a byte, and so is everything in it.
pub record Within (b : Buf) : Type 0 where
  pub in_size : b.pos_a ≤ b.size
  pub small : b.size < 256
  pub bytes : AllBytes b.bytes

-- the buffer before and after a part of the loop
pub record Forward (b b' : Buf) : Type 0 where
  pub within : Within b'
  pub same_size : b'.size ≡ b.size
  pub forward : b.pos_a ≤ b'.pos_a

abbrev pub Advances {ℓ} : {A : Type ℓ} → M Recv A → Type ℓ
Advances {A = A} m = (r r' : Recv) (a : A) → Within r.buf → m r ≡ done a r' → Forward r.buf r'.buf

module _ {ℓ} {A : Type ℓ} where
  pub put_back-eq-done {κ ι} :
      {S : Type κ} {T : Type ι} (put : T → S) (o : Outcome T A) {a : A} {s : S}
      → put_back put o ≡ done a s
      → (t : T) × (o ≡ done a t) × (s ≡ put t)
  put_back-eq-done put (done a t) e = (t, cc, cc)
  put_back-eq-done put (fail x t) e = cc
  put_back-eq-done put fault e = cc
  put_back-eq-done put out_of_fuel e = cc

  on_self-Advances : (m : M Wtp A) → Advances (on_self m)
  on_self-Advances m r r' a w e =
      let (s, _, p) = put_back-eq-done (λ s. record r { self = s }) (m r.self) e in
      rw p (record { within = w; same_size = refl; forward = omega arith })

  bind-Advances {κ} :
      {B : Type κ} (m : M Recv A) (f : A → M Recv B)
      → Advances m
      → ((a : A) → Advances (f a))
      → Advances (m >>= f)
  bind-Advances m f h k r r' b w e =
      let (a, s, e1, e2) = and_then-eq-done (m r) f e in
      let first : Forward r.buf s.buf = h r s a w e1 in
      let then_ : Forward s.buf r'.buf = k a s r' b first.within e2 in
      record {
        within = then_.within;
        same_size = then_.same_size ∙ first.same_size;
        forward = omega arith;
      }

get_elem?-byte : (xs : List ℕ) (i : ℕ) {x : ℕ} → AllBytes xs → get_elem? xs i ≡ some x → x < 256
get_elem?-byte [] i h e = cc
get_elem?-byte (y ∷ xs) zero h e = ground arith
get_elem?-byte (y ∷ xs) (suc i) h e = get_elem?-byte xs i h.1 e

pub read-Forward :
    (n : ℕ) (b b' : Buf) (out : List ℕ)
    → n < 1024
    → b.pos_a < 1024
    → Within (record b { pos_a = 0 })
    → Buf.read n b ≡ done out b'
    → Forward b b' × (b'.pos_a ≡ b.pos_a + n)
unfolding Buf.read
read-Forward n b b' out h k w e = ground (arith, w.bytes, get_elem?-none b.bytes b.pos_a)

read-byte :
    (b b' : Buf) (out : List ℕ) → AllBytes b.bytes → Buf.read 1 b ≡ done out b' → byte_of out < 256
unfolding Buf.read Buf.load_byte
read-byte b b' out h e = elim (Option-cases (get_elem? b.bytes b.pos_a)) [
  | inl absent ↦ ground arith
  | inr (x, there) ↦ ground (arith, get_elem?-byte b.bytes b.pos_a h there)
]

on_read-Advances : (n : ℕ) → n < 1024 → Advances (on_buf (Buf.read n))
on_read-Advances n h r r' out w e =
    let (b, e', p) = put_back-eq-done (λ b. record r { buf = b }) (Buf.read n r.buf) e in
    rw p (
      (read-Forward n r.buf b out h (omega arith)
        (record { in_size = omega arith; small = w.small; bytes = w.bytes }) e').0)

present-eq-done {ℓ} :
    {A : Type ℓ} (o : Option A) (r r' : Recv) {a : A} → present o r ≡ done a r' → r' ≡ r
present-eq-done none r r' e = cc
present-eq-done (some x) r r' e = cc

present-Advances {ℓ} : {A : Type ℓ} (o : Option A) → Advances (present o)
present-Advances o r r' a w e =
    rw (present-eq-done o r r' e) (record { within = w; same_size = refl; forward = omega arith })

if-Advances {ℓ} :
    {A : Type ℓ} (b : Bool) (m m' : M Recv A)
    → Advances m
    → Advances m'
    → Advances (if b then m else m')
if-Advances true m m' h k = h
if-Advances false m m' h k = k

if-eq-done :
    (b : Bool) (x : ℕ) (r r' : Recv)
    → (if b then pure (tt {0}) else fail x) r ≡ done (tt {0}) r'
    → r' ≡ r
if-eq-done true x r r' e = cc
if-eq-done false x r r' e = cc

-- The checksum may be reached past the end of the block: then it is refused.
verify_checksum-Forward :
    (r r' : Recv)
    → r.buf.pos_a < 1024
    → Within (record (r.buf) { pos_a = 0 })
    → verify_checksum r ≡ done tt r'
    → Forward r.buf r'.buf
unfolding verify_checksum
verify_checksum-Forward r r' h w e =
    let calc = xor_checksum r.buf.bytes r.self.pkt_begin r.buf.pos_a in
    let (c, s, e1, e2) = and_then-eq-done (present calc r) _ e in
    let (p, t, e3, e4) = and_then-eq-done (on_buf (Buf.read 1) s) _ e2 in
    let same : s ≡ r = present-eq-done calc r s e1 in
    let (b, e5, there) = put_back-eq-done (λ b. record s { buf = b }) (Buf.read 1 s.buf) e3 in
    let there' : b ≡ r'.buf =
      ap (λ (x : Recv). x.buf) (sym there)
      ∙ sym (ap (λ (x : Recv). x.buf) (if-eq-done _ invalid t r' e4)) in
    rw (← there') ((read-Forward 1 r.buf b p (omega arith) h w (rw same at e5)).0)

verify_checksum-Advances : Advances verify_checksum
verify_checksum-Advances r r' a w e =
    verify_checksum-Forward r r' (omega arith)
      (record { in_size = omega arith; small = w.small; bytes = w.bytes }) e

pub handle_open-Advances : (env : Env) → Advances (handle_open env)
unfolding handle_open
handle_open-Advances env =
    bind-Advances verify_checksum _ verify_checksum-Advances (λ _. on_self-Advances _)

pub handle_ack-Advances : (env : Env) → Advances (handle_ack env)
unfolding handle_ack
handle_ack-Advances env =
    bind-Advances (on_buf (Buf.read 2)) _ (on_read-Advances 2 (omega arith)) (λ seq_num.
      bind-Advances verify_checksum _ verify_checksum-Advances (λ _. on_self-Advances _))

pure-Advances {ℓ} : {A : Type ℓ} (a : A) → Advances (pure a)
pure-Advances a r r' b w e =
    let same : r' ≡ r = cc in
    rw same (record { within = w; same_size = refl; forward = omega arith })

pub handle_set_param-Advances : Advances handle_set_param
unfolding handle_set_param
handle_set_param-Advances =
    bind-Advances (on_buf (Buf.read 1)) _ (on_read-Advances 1 (omega arith)) (λ code.
      if-Advances (byte_of code == param_read_size) _ _
        (bind-Advances (on_buf (Buf.read 1)) _ (on_read-Advances 1 (omega arith)) (λ size.
          bind-Advances verify_checksum _ verify_checksum-Advances
            (λ _. on_self-Advances (on_tx (modify (λ t. record t { read_size = byte_of size }))))))
        (pure-Advances tt))

-- behind the sequence number: the payload's size, the payload, the checksum, and the control
abbrev rest_of_message : Env → (new_msg_size seq_num : List ℕ) → M Recv (Unit {0})
rest_of_message env new_msg_size seq_num = do
  payload_size ← on_buf (Buf.read 1)
  r ← get
  let at = r.buf.pos_a
  on_buf (modify (λ b. record b { pos_a = add16 b.pos_a (byte_of payload_size) }))
  verify_checksum
  payload ← present (slice r.buf.bytes at (byte_of payload_size))
  on_self (do
    n_msgs ← receive_packet env (word16 seq_num) payload (word16 new_msg_size)
    notify_received env n_msgs
    s ← get
    on_tx (emit pkt_ack (bytes16 s.rx_ctrl.seq_num ∷ [])))

rest_of_message-Advances :
    (env : Env) (new_msg_size seq_num : List ℕ)
    → Advances (rest_of_message env new_msg_size seq_num)
rest_of_message-Advances env new_msg_size seq_num r r' a w e =
    let (p, s, e1, e2) = and_then-eq-done (on_buf (Buf.read 1) r) _ e in
    let (b, e1', there) = put_back-eq-done (λ b. record r { buf = b }) (Buf.read 1 r.buf) e1 in
    let at_size : Forward r.buf s.buf = on_read-Advances 1 (omega arith) r s p w e1 in
    let byte : byte_of p < 256 = read-byte r.buf b p w.bytes e1' in
    let t = record s { buf = record (s.buf) { pos_a = add16 s.buf.pos_a (byte_of p) } } in
    let (_, u, e3, e4) = and_then-eq-done (verify_checksum t) _ e2 in
    let checked : Forward t.buf u.buf =
      verify_checksum-Forward t u (omega (arith, at_size.within.in_size, at_size.within.small))
        (record {
          in_size = omega arith;
          small = at_size.within.small;
          bytes = at_size.within.bytes;
        })
        e3 in
    let last : Forward u.buf r'.buf =
      bind-Advances (present (slice s.buf.bytes s.buf.pos_a (byte_of p))) _ (present-Advances _)
        (λ payload. on_self-Advances _) u r' a checked.within e4 in
    record {
      within = last.within;
      same_size = last.same_size ∙ checked.same_size ∙ at_size.same_size;
      forward = omega (arith, at_size.within.in_size, at_size.within.small);
    }

pub handle_msg_packet-Advances :
    (env : Env) (begin_msg : Bool) → Advances (handle_msg_packet env begin_msg)
unfolding handle_msg_packet
handle_msg_packet-Advances env begin_msg =
    bind-Advances (if begin_msg then on_buf (Buf.read 2) else pure (0 ∷ 0 ∷ [])) _
      (if-Advances begin_msg _ _ (on_read-Advances 2 (omega arith)) (pure-Advances (0 ∷ 0 ∷ [])))
      (λ size.
        bind-Advances (on_buf (Buf.read 2)) _ (on_read-Advances 2 (omega arith))
          (λ seq_num. rest_of_message-Advances env size seq_num))
