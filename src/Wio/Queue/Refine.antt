-- ===== src/Wio/Queue/Refine.antt =====
-- A queue of queue.c holds a sequence of items, and its operations are those of a bounded FIFO.
use wisp_ert.Common.{
  ℕ, ◌+◌, ◌-◌, ◌≤◌, ◌<◌, ◌≡◌, refl, ◌≢◌, ap, some, List, [], ◌∷◌, ◌++◌, arith, length,
  length-append, length-set, get_elem?, get_elem?-set_self, get_elem?-set_ne, set, leb, ltb,
  leb-false, ltb-true, add16, if◌then◌else◌, u16_mod, done, fail, Outcome, Bool-cases, inl, inr,
}
use wisp_ert.Wio.Status.{no_memory, empty}
use wisp_ert.Wio.Queue.{Queue, next, push, pop, discard}

-- the index `n` slots on, going round once at the capacity
abbrev pub wrap : ℕ → ℕ → ℕ
wrap capacity i = if leb capacity i then i - capacity else i

module _ {ℓ} {A : Type ℓ} where
  -- From slot `i` on, going round at the capacity, stand the items `xs`.
  abbrev pub Stored : List A → ℕ → ℕ → List A → Type ℓ
  Stored slots capacity i [] = Unit
  Stored slots capacity i (x ∷ xs) =
      (get_elem? slots i ≡ some x) × Stored slots capacity (next capacity i) xs

  -- The queue is well formed and holds `xs`, oldest first.
  pub record Holds (q : Queue A) (xs : List A) : Type ℓ where
    pub count : q.size ≡ length xs
    pub fits : q.size ≤ q.capacity
    pub small : q.capacity < u16_mod
    pub memory : q.capacity ≤ length q.slots
    pub end_in : q.end < q.capacity
    pub begin_at : q.begin ≡ wrap q.capacity (q.end + q.size)
    pub stored : Stored q.slots q.capacity q.end xs

  Stored-set :
      (slots : List A) (capacity i : ℕ) (xs : List A) (x : A) (j : ℕ)
      → capacity < u16_mod
      → capacity ≤ length slots
      → i < capacity
      → length xs < capacity
      → j ≡ wrap capacity (i + length xs)
      → Stored slots capacity i xs
      → Stored (set slots j x) capacity i (xs ++ x ∷ [])
  Stored-set slots capacity i [] x j s m h k e st =
      let e' : j ≡ i = ground arith in rw e' (get_elem?-set_self slots i x (omega arith), tt)
  Stored-set slots capacity i (y ∷ xs) x j s m h k e st = (
    rw (get_elem?-set_ne slots j i x ne) (st.0),
    Stored-set slots capacity (next capacity i) xs x j s m (ground arith) (omega arith)
        (ground arith) st.1,
  )
    where
      ne : j ≢ i
      ne p = ground arith

  -- the queue after a push that succeeds
  abbrev pub pushed : Queue A → A → Queue A
  pushed q x = record q {
    slots = set q.slots q.begin x;
    begin = next q.capacity q.begin;
    size = q.size + 1;
  }

  -- the queue after a pop that succeeds
  abbrev pub popped : Queue A → Queue A
  popped q = record q { end = next q.capacity q.end; size = q.size - 1 }

  pub push-Holds :
      {q : Queue A} {xs : List A} (x : A)
      → Holds q xs
      → length xs < q.capacity
      → (push x q ≡ done tt (pushed q x)) × Holds (pushed q x) (xs ++ x ∷ [])
  unfolding push
  push-Holds {q} {xs} x h room = (
    enter,
    record {
      count = ground (arith, length-append xs (x ∷ []));
      fits = ground arith;
      small = ground arith;
      memory = ground (arith, length-set q.slots q.begin x);
      end_in = ground arith;
      begin_at = ground arith;
      stored =
          Stored-set q.slots q.capacity q.end xs x q.begin h.small h.memory h.end_in room
            (ground arith) h.stored;
    },
  )
    where
      begin_in : q.begin < length q.slots
      begin_in = ground arith

      grown : add16 q.size 1 ≡ q.size + 1
      grown = ground arith

      enter : push x q ≡ done tt (pushed q x)
      enter =
          rw (leb-false q.capacity q.size (omega (arith, h.count)), ltb-true _ _ begin_in, grown)

  pub push-full :
      {q : Queue A} {xs : List A} (x : A)
      → Holds q xs
      → q.capacity ≤ length xs
      → push x q ≡ fail no_memory q
  unfolding push
  push-full x h full = ground arith

  pub pop-Holds :
      {q : Queue A} {x : A} {xs : List A}
      → Holds q (x ∷ xs)
      → (pop q ≡ done x (popped q)) × (discard q ≡ done tt (popped q)) × Holds (popped q) xs
  unfolding pop discard
  pop-Holds h = (
    ground arith,
    ground arith,
    record {
      count = ground arith;
      fits = ground arith;
      small = ground arith;
      memory = ground arith;
      end_in = ground arith;
      begin_at = ground arith;
      stored = h.stored.1;
    },
  )

  pub pop-nil : {q : Queue A} → Holds q [] → pop q ≡ fail empty q
  unfolding pop
  pop-nil h = ground arith

-- what a client asks of a queue, and what it sees of a call
pub data Op {ℓ} (A : Type ℓ) : Type ℓ where
  put : A → Op A
  take_oldest : Op A

pub data Reply {ℓ} (A : Type ℓ) : Type ℓ where
  accepted : Reply A
  item : A → Reply A
  refused : ℕ → Reply A
  broken : Reply A

module _ {ℓ} {A : Type ℓ} where
  abbrev pub reply_of_push : Queue A → Outcome (Queue A) (Unit {0}) → Reply A × Queue A
  reply_of_push q (done _ q') = (accepted, q')
  reply_of_push q (fail e q') = (refused e, q')
  reply_of_push q _ = (broken, q)

  abbrev pub reply_of_pop : Queue A → Outcome (Queue A) A → Reply A × Queue A
  reply_of_pop q (done x q') = (item x, q')
  reply_of_pop q (fail e q') = (refused e, q')
  reply_of_pop q _ = (broken, q)

  -- a client's calls in order, with what each returns
  unfoldable pub run : Queue A → List (Op A) → List (Reply A)
  run q [] = []
  run q (put x ∷ ops) = let (r, q') = reply_of_push q (push x q) in r ∷ run q' ops
  run q (take_oldest ∷ ops) = let (r, q') = reply_of_pop q (pop q) in r ∷ run q' ops

  -- the same calls on a bounded sequence, oldest first
  unfoldable pub run_fifo : ℕ → List A → List (Op A) → List (Reply A)
  run_fifo cap xs [] = []
  run_fifo cap xs (put x ∷ ops) =
      if ltb (length xs) cap
      then accepted ∷ run_fifo cap (xs ++ x ∷ []) ops
      else refused no_memory ∷ run_fifo cap xs ops
  run_fifo cap [] (take_oldest ∷ ops) = refused empty ∷ run_fifo cap [] ops
  run_fifo cap (x ∷ xs) (take_oldest ∷ ops) = item x ∷ run_fifo cap xs ops

  -- No sequence of pushes and pops tells a queue that holds `xs` from the bounded FIFO of `xs`.
  pub run_refines :
      (ops : List (Op A)) {q : Queue A} (xs : List A)
      → Holds q xs
      → run q ops ≡ run_fifo q.capacity xs ops
  unfolding run run_fifo
  run_refines [] xs h = refl
  run_refines (put x ∷ ops) {q} xs h = elim (Bool-cases (ltb (length xs) q.capacity)) [
    | inl room ↦
        let (e, h') = push-Holds x h (ground arith) in
        rw (room, e) (ap (◌∷◌ accepted) (run_refines ops (xs ++ x ∷ []) h'))
    | inr full ↦
        rw (full, push-full x h (ground arith))
          (ap (◌∷◌ (refused no_memory)) (run_refines ops xs h))
  ]
  run_refines (take_oldest ∷ ops) [] h =
      rw (pop-nil h) (ap (◌∷◌ (refused empty)) (run_refines ops [] h))
  run_refines (take_oldest ∷ ops) (x ∷ xs) h =
      let (e, _, h') = pop-Holds h in rw e (ap (◌∷◌ (item x)) (run_refines ops xs h'))
