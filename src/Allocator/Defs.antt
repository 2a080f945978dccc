-- ===== src/Allocator/Defs.antt =====
-- malloc/alloc.c. The heap gives the metadata_t at an address, and `none` where there is none: access
-- to it is a fault, `none`. `meta` is sizeof(metadata_t). What sbrk returns is an argument, `none` for
-- (void*)-1. Addresses and sizes stay below 2^64, as they do where the blocks lie in memory.
use system_programming.Base.{
  ℕ, zero, suc, ◌+◌, ◌-◌, ◌*◌, ◌%◌, ◌^◌, Bool, true, false, leb, ◌==◌, ◌&&◌, if◌then◌else◌, Option,
  none, some, ◌>>=◌,
}

pub record Metadata : Type 0 where
  pub next : Option ℕ
  pub prev : Option ℕ
  pub freenext : Option ℕ
  pub freeprev : Option ℕ
  pub ptr : ℕ
  pub size : ℕ
  pub free : Bool

abbrev pub Blocks : Type 0
Blocks = ℕ → Option Metadata

pub record Allocator : Type 0 where
  pub blocks : Blocks
  pub tail : Option ℕ
  pub freehead : Option ℕ

unfoldable pub set_block : Blocks → ℕ → Metadata → Blocks
set_block h p m = λ q. if q == p then some m else h q

-- An assignment to fields of the block at `p`.
unfoldable pub change : Allocator → ℕ → (Metadata → Metadata) → Option Allocator
change a p f = a.blocks p >>= λ m. some (record a { blocks = set_block a.blocks p (f m) })

-- The same under a test for NULL.
abbrev pub change_if : Allocator → Option ℕ → (Metadata → Metadata) → Option Allocator
change_if a none f = some a
change_if a (some p) f = change a p f

abbrev pub is_at : Option ℕ → ℕ → Bool
is_at none p = false
is_at (some q) p = q == p

unfoldable pub insertfree : Allocator → ℕ → Option Allocator
insertfree a p = change a p (λ m. record m { freeprev = none; freenext = a.freehead }) >>= λ a1.
    change_if a1 a.freehead (λ m. record m { freeprev = some p }) >>= λ a2.
    some (record a2 { freehead = some p })

unfoldable pub removefree : Allocator → ℕ → Option Allocator
removefree a p = a.blocks p >>= λ m.
    change a p (λ b. record b { freeprev = none; freenext = none }) >>= λ a1.
    change_if a1 m.freenext (λ b. record b { freeprev = m.freeprev }) >>= λ a2.
    change_if a2 m.freeprev (λ b. record b { freenext = m.freenext }) >>= λ a3.
    some (record a3 { freehead = if is_at a3.freehead p then m.freenext else a3.freehead })

-- `if (n != NULL) n->prev = p; if (n == NULL) tail = p;`
abbrev pub link_back : Allocator → Option ℕ → ℕ → Option Allocator
link_back a none p = some (record a { tail = some p })
link_back a (some n) p = change a n (λ b. record b { prev = some p })

-- What is in the block behind does not count: a new block stands at `ptr + sz` whatever was there.
unfoldable pub split : ℕ → Allocator → ℕ → ℕ → Option Allocator
split meta a p sz = a.blocks p >>= λ m.
    let new = m.ptr + sz in
    let fresh : Metadata = record {
      next = m.next;
      prev = some p;
      freenext = none;
      freeprev = none;
      ptr = new + meta;
      size = m.size - sz - meta;
      free = true;
    } in
    let made =
      (link_back (record a { blocks = set_block a.blocks new fresh }) m.next new >>= λ a1.
      change a1 p (λ b. record b { next = some new }) >>= λ a2. insertfree a2 new) in
    if leb m.size (sz + 3 * meta) then some a else made

-- The search for a free block that is large enough; `none` when the fuel runs out, too.
unfoldable pub first_fit : ℕ → Blocks → Option ℕ → ℕ → Option (Option ℕ)
first_fit k h none size = some none
first_fit zero h (some t) size = none
first_fit (suc k) h (some t) size = h t >>= λ m.
    let rest = first_fit k h m.freenext size in if leb size m.size then some (some t) else rest

-- A new block behind the last one.
unfoldable pub extend : ℕ → Allocator → ℕ → ℕ → Option (Allocator × Option ℕ)
extend meta a p size =
    let fresh : Metadata = record {
      next = none;
      prev = a.tail;
      freenext = none;
      freeprev = none;
      ptr = p + meta;
      size = size;
      free = false;
    } in
    change_if (record a { blocks = set_block a.blocks p fresh }) a.tail
      (λ b. record b { next = some p })
    >>= λ a1. split meta (record a1 { tail = some p }) p size >>= λ a2. some (a2, some (p + meta))

abbrev pub extend_by : ℕ → Allocator → Option ℕ → ℕ → Option (Allocator × Option ℕ)
extend_by meta a none size = some (a, none)
extend_by meta a (some p) size = extend meta a p size

-- `if (chosen)` and what follows it.
abbrev pub take_block : ℕ → Allocator → Option ℕ → Option ℕ → ℕ → Option (Allocator × Option ℕ)
take_block meta a sbrk none size = extend_by meta a sbrk size
take_block meta a sbrk (some t) size = removefree a t >>= λ a1. split meta a1 t size >>= λ a2.
    change a2 t (λ b. record b { free = false; size = size }) >>= λ a3.
    a3.blocks t >>= λ b. some (a3, some b.ptr)

unfoldable pub malloc : ℕ → ℕ → Allocator → Option ℕ → ℕ → Option (Allocator × Option ℕ)
malloc k meta a sbrk size =
    let found =
      (first_fit k a.blocks a.freehead size >>= λ chosen. take_block meta a sbrk chosen size) in
    if size == 0 then some (a, none) else found

-- num*size is a size_t. The bytes are set to 0.
unfoldable pub calloc : ℕ → ℕ → Allocator → Option ℕ → ℕ → ℕ → Option (Allocator × Option ℕ)
calloc k meta a sbrk num size = malloc k meta a sbrk (num * size % 2 ^ 64)

-- The block behind is free: it becomes part of this one.
unfoldable pub merge_next : ℕ → Allocator → ℕ → ℕ → Option Allocator
merge_next meta a p t = a.blocks t >>= λ n.
    change a p (λ b. record b { size = b.size + (n.size + meta) }) >>= λ a1.
    removefree a1 t >>= λ a2. a2.blocks t >>= λ n2.
    change a2 p (λ b. record b { next = n2.next }) >>= λ a3.
    link_back a3 n2.next p >>= λ a4. change a4 t (λ b. record b { next = none; prev = none })

-- This block becomes part of the one before, which is free.
unfoldable pub merge_prev : ℕ → Allocator → ℕ → ℕ → Option Allocator
merge_prev meta a p t = removefree a t >>= λ a1. a1.blocks p >>= λ b.
    change a1 t (λ c. record c { next = b.next }) >>= λ a2. link_back a2 b.next t >>= λ a3.
    change a3 t (λ c. record c { size = c.size + (b.size + meta) }) >>= λ a4.
    change a4 p (λ c. record c { next = none; prev = none }) >>= λ a5. insertfree a5 t

-- Whether a neighbour is there and free.
abbrev pub free_neighbour : Allocator → Option ℕ → Option (Option ℕ)
free_neighbour a none = some none
free_neighbour a (some t) = a.blocks t >>= λ m. some (if m.free then some t else none)

abbrev pub merge_behind : ℕ → Allocator → ℕ → Option ℕ → Option Allocator
merge_behind meta a p none = some a
merge_behind meta a p (some t) = merge_next meta a p t

abbrev pub merge_before : ℕ → Allocator → ℕ → Option ℕ → Option Allocator
merge_before meta a p none = insertfree a p
merge_before meta a p (some t) = merge_prev meta a p t

-- free(3) of the block at `p`.
unfoldable pub free_block : ℕ → Allocator → ℕ → Option Allocator
free_block meta a p = a.blocks p >>= λ m.
    let freed =
      (change a p (λ b. record b { free = true }) >>= λ a1. free_neighbour a1 m.next >>= λ behind.
      merge_behind meta a1 p behind >>= λ a2. a2.blocks p >>= λ m2.
      free_neighbour a2 m2.prev >>= λ before. merge_before meta a2 p before) in
    if m.free then some a else freed

-- free(3); the name is that of a field here.
abbrev pub free_pointer : ℕ → Allocator → Option ℕ → Option Allocator
free_pointer meta a none = some a
free_pointer meta a (some q) =
    let freed = free_block meta a (q - meta) in if q - meta == 0 then some a else freed

-- `malloc`, the copy of the bytes, which stand outside the blocks' data here, and `free`.
unfoldable pub move_block : ℕ → ℕ → Allocator → Option ℕ → ℕ → ℕ → Option (Allocator × Option ℕ)
move_block k meta a sbrk q size = malloc k meta a sbrk size >>= λ (a1, got). elim got [
  | none ↦ some (a1, none)
  | some new ↦ (free_pointer meta a1 (some q) >>= λ a2. some (a2, some new))
]

-- The block behind, when it is free and large enough.
abbrev pub room_behind : Allocator → Option ℕ → ℕ → ℕ → Option (Option ℕ)
room_behind a none oldsz size = some none
room_behind a (some t) oldsz size =
    a.blocks t >>= λ n. some (if leb size (n.size + oldsz) && n.free then some t else none)

abbrev pub grow :
    ℕ → ℕ → Allocator → Option ℕ → ℕ → ℕ → Metadata → Option ℕ → Option (Allocator × Option ℕ)
grow k meta a sbrk q size m none = move_block k meta a sbrk q size
grow k meta a sbrk q size m (some t) =
    merge_next meta a (q - meta) t >>= λ a1. some (a1, some m.ptr)

unfoldable pub resize_block : ℕ → ℕ → Allocator → Option ℕ → ℕ → ℕ → Option (Allocator × Option ℕ)
resize_block k meta a sbrk q size =
    let found =
      (a.blocks (q - meta) >>= λ m.
      let grown =
        (room_behind a m.next m.size size >>= λ behind. grow k meta a sbrk q size m behind) in
      if leb size m.size then some (a, some q) else grown) in
    if q - meta == 0 then some (a, none) else found

unfoldable pub realloc : ℕ → ℕ → Allocator → Option ℕ → Option ℕ → ℕ → Option (Allocator × Option ℕ)
realloc k meta a sbrk none size = malloc k meta a sbrk size
realloc k meta a sbrk (some q) size =
    let resized = resize_block k meta a sbrk q size in
    if size == 0 then (free_pointer meta a (some q) >>= λ a1. some (a1, none)) else resized
