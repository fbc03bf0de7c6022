-- ===== src/Wtp/Rx/Fragments.antt =====
-- The fragments of client/wtp/wtp/transmission.c that wait to be assembled: a linked list of records
-- in the fragments buffer.
use wisp_ert.Common.{
  ℕ, zero, suc, ◌+◌, Bool, true, false, Option, none, some, List, [], ◌∷◌, ltb, leb, ◌==◌, ◌&&◌,
  if◌then◌else◌, length, add16, to_u8, done, fail, fault, starve, M, ◌>>=◌, ◌>>◌, pure, get, modify,
}
use wisp_ert.Wio.Status.{invalid}
use wisp_ert.Wio.Buf
use wisp_ert.Wtp.Rx.{Fragment, RxCtrl, on_fragments_buf}

-- the record at an index of the buffer's memory
unfoldable pub node_at : ℕ → List (ℕ × Fragment) → Option Fragment
node_at p [] = none
node_at p ((q, f) ∷ nodes) = if q == p then some f else node_at p nodes

unfoldable pub set_node : ℕ → Fragment → List (ℕ × Fragment) → List (ℕ × Fragment)
set_node p f [] = []
set_node p f ((q, g) ∷ nodes) = if q == p then (q, f) ∷ nodes else (q, g) ∷ set_node p f nodes

-- `*p`: a fault where no record stands, or where a later one has overwritten it
unfoldable pub deref : ℕ → M RxCtrl Fragment
unfolding node_at
deref p s = elim (node_at p s.nodes) [ none ↦ fault | some f ↦ done f s ]

-- a write to the fields of `*p`
unfoldable pub assign : ℕ → (Fragment → Fragment) → M RxCtrl (Unit {0})
unfolding deref set_node
assign p f = deref p >>= λ g. modify (λ s. record s { nodes = set_node p (f g) s.nodes })

-- the records that share no byte with the block from `p` of `n` bytes
unfoldable pub untouched : (header p n : ℕ) → List (ℕ × Fragment) → List (ℕ × Fragment)
untouched header p n [] = []
untouched header p n ((q, f) ∷ nodes) =
    let rest = untouched header p n nodes in
    if ltb q (p + n) && ltb p (q + header + length f.payload) then rest else (q, f) ∷ rest

-- "Find position for insertion", on fuel
unfoldable pub find_fragment : ℕ → ℕ → (before after : Option ℕ) → M RxCtrl (Option ℕ × Option ℕ)
unfolding deref
find_fragment zero seq_num before after = starve
find_fragment (suc fuel) seq_num before none = pure (before, none)
find_fragment (suc fuel) seq_num before (some p) = deref p >>= λ f. elim (ltb f.seq_num seq_num) [
  | true ↦ find_fragment fuel seq_num (some p) f.next
  | false ↦ pure (before, some p)
]

-- the new fragment would run into the one behind it
unfoldable pub overlaps_fragment : Option ℕ → (seq_num size : ℕ) → M RxCtrl Bool
unfolding deref
overlaps_fragment none seq_num size = pure false
overlaps_fragment (some p) seq_num size = deref p >>= λ f. pure (ltb f.seq_num (add16 seq_num size))

-- The record and its payload, written at `p` over what stood there. `header` is
-- `sizeof(wtp_rx_fragment_t)`.
unfoldable pub build : (header p : ℕ) → Fragment → M RxCtrl (Unit {0})
unfolding untouched
build header p f s =
    if leb (p + header + length f.payload) (length s.fragments_buf.bytes)
    then done tt
        (record s { nodes = (p, f) ∷ untouched header p (header + length f.payload) s.nodes })
    else fault

-- "Insert data fragment": the new one behind `before`, or in front
unfoldable pub link_fragment : Option ℕ → ℕ → M RxCtrl (Unit {0})
unfolding assign
link_fragment none p = modify (λ s. record s { fragments_begin = some p })
link_fragment (some q) p = assign q (λ f. record f { next = some p })

-- From "Find position for insertion" to "Insert data fragment". The fuel is the number of records
-- and one more.
unfoldable pub insert_fragment : (header seq_num : ℕ) → List ℕ → M RxCtrl (Unit {0})
unfolding find_fragment overlaps_fragment build link_fragment
insert_fragment header seq_num payload = do
  s ← get
  (before, after) ← find_fragment (suc (length s.nodes)) seq_num none s.fragments_begin
  overlap ← overlaps_fragment after seq_num (length payload)
  if overlap then fail invalid else do
    p ← on_fragments_buf (Buf.alloc (add16 header (length payload)))
    build header p (record {
      seq_num = seq_num;
      payload = payload;
      size = to_u8 (length payload);
      assembled = false;
      next = none;
    })
    link_fragment before p
    assign p (λ f. record f { next = after })
