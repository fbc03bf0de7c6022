-- ===== src/Wio/Queue.antt =====
-- client/wisp-base/wio/queue.c and queue.h: a circular queue of items of one size.
pub mod Refine
use wisp_ert.Common.{
  ℕ, ◌+◌, ◌-◌, ◌*◌, ◌/◌, Option, none, some, List, ltb, leb, ◌==◌, if◌then◌else◌, length, get_elem?,
  set, add16, mul16, sub16, done, fail, fault, M,
}
use wisp_ert.Wio.Status.{no_memory, empty}

-- `wio_queue_t`. `slots` is the memory behind `data`, cut into the whole items that it holds; an
-- item of `item_size` bytes is a value of `A`. `begin` is the next slot to fill, `end` the oldest.
pub record Queue {ℓ} (A : Type ℓ) : Type ℓ where
  pub size : ℕ
  pub capacity : ℕ
  pub item_size : ℕ
  pub slots : List A
  pub begin : ℕ
  pub end : ℕ

-- `self->begin++; if (self->begin>=self->capacity) self->begin = 0;`, and so for `end`
abbrev pub next : ℕ → ℕ → ℕ
next capacity i = if leb capacity (add16 i 1) then 0 else add16 i 1

module _ {ℓ} {A : Type ℓ} where
  -- `wio_queue_init`. `malloc` is asked for `item_size*capacity` bytes, a product of 16 bits, and
  -- what it gives is read as items.
  unfoldable pub init {κ} : {S : Type κ} → (ℕ → Option (List A)) → ℕ → ℕ → M S (Queue A)
  init malloc item_size capacity s = elim (malloc (mul16 item_size capacity)) [
    | none ↦ fail no_memory s
    | some slots ↦
        done
          (record {
            size = 0;
            capacity = capacity;
            item_size = item_size;
            slots = slots;
            begin = 0;
            end = 0;
          })
          s
  ]

  -- `WIO_QUEUE_AT`, read
  abbrev pub at : Queue A → ℕ → Option A
  at q i = get_elem? q.slots i

  -- the index that `WIO_QUEUE_BEGIN` reads: the newest item
  abbrev pub begin_index : Queue A → ℕ
  begin_index q = if q.begin == 0 then sub16 q.capacity 1 else sub16 q.begin 1

  -- `wio_queue_push`
  unfoldable pub push : A → M (Queue A) (Unit {0})
  push item q =
      if leb q.capacity q.size
      then fail no_memory q
      else if ltb q.begin (length q.slots)
      then done tt (record q {
        slots = set q.slots q.begin item;
        begin = next q.capacity q.begin;
        size = add16 q.size 1;
      })
      else fault

  -- `wio_queue_pop`: the item goes out through `_item`.
  unfoldable pub pop : M (Queue A) A
  pop q = if q.size == 0 then fail empty q else elim (get_elem? q.slots q.end) [
    | none ↦ fault
    | some item ↦ done item (record q { end = next q.capacity q.end; size = q.size - 1 })
  ]

  -- `wio_queue_pop` with a null `_item`: the slot is not read.
  unfoldable pub discard : M (Queue A) (Unit {0})
  discard q =
      if q.size == 0
      then fail empty q
      else done tt (record q { end = next q.capacity q.end; size = q.size - 1 })
