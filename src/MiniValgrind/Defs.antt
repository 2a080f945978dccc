-- ===== src/MiniValgrind/Defs.antt =====
-- mini_valgrind/mini_valgrind.c. The heap gives the block of meta_data at an address, and `none` where
-- there is none: access to it is a fault, `none`. A payload stands for the address of its block. What
-- malloc and realloc return is an argument, NULL included.
use system_programming.Base.{
  ℕ, zero, suc, ◌+◌, ◌-◌, ◌*◌, ◌%◌, ◌^◌, List, Bool, false, ltb, leb, ◌==◌, ◌||◌, if◌then◌else◌,
  Option, none, some, ◌>>=◌,
}

pub record MetaData : Type 0 where
  pub request_size : ℕ
  pub filename : List ℕ
  pub instruction : ℕ
  pub next : Option ℕ

abbrev pub Heap : Type 0
Heap = ℕ → Option MetaData

unfoldable pub set_cell : Heap → ℕ → Option MetaData → Heap
set_cell h p c = λ q. if q == p then c else h q

pub record MiniValgrind : Type 0 where
  pub heap : Heap
  pub head : Option ℕ
  pub total_memory_requested : ℕ
  pub total_memory_freed : ℕ
  pub invalid_addresses : ℕ

abbrev pub size_mod : ℕ
size_mod = 2 ^ 64

unfoldable pub start : MiniValgrind
start = record {
  heap = λ p. none;
  head = none;
  total_memory_requested = 0;
  total_memory_freed = 0;
  invalid_addresses = 0;
}

-- The links of a block at `p`, behind the head or as the head. The block is there, from malloc, when
-- head->next is read. Its `next` is what stands in the fresh memory until it is set.
abbrev pub link_behind : MiniValgrind → ℕ → MetaData → Option ℕ → Option MiniValgrind
link_behind v p block none =
    some (record v { heap = set_cell v.heap p (some block); head = some p })
link_behind v p block (some h) = set_cell v.heap p (some block) h >>= λ first. some (record v {
  heap =
      set_cell (set_cell (set_cell v.heap p (some block)) h (some (record first { next = some p })))
        p (some (record block { next = first.next }));
})

-- The block that malloc gave, with its fields, and the total.
unfoldable pub add_block : MiniValgrind → ℕ → MetaData → Option (MiniValgrind × Option ℕ)
add_block v p block = link_behind v p block v.head >>= λ w. some (
  record w { total_memory_requested = (w.total_memory_requested + block.request_size) % size_mod },
  some p,
)

abbrev pub add_if : MiniValgrind → Option ℕ → MetaData → Option (MiniValgrind × Option ℕ)
add_if v none block = some (v, none)
add_if v (some p) block = add_block v p block

unfoldable pub mini_malloc :
    MiniValgrind → Option ℕ → Option ℕ → ℕ → List ℕ → ℕ → Option (MiniValgrind × Option ℕ)
mini_malloc v got fresh request_size filename instruction =
    let block : MetaData = record {
      request_size = request_size;
      filename = filename;
      instruction = instruction;
      next = fresh;
    } in
    if request_size == 0 then some (v, none) else add_if v got block

-- num_elements * element_size is a size_t. The payload is set to 0.
unfoldable pub mini_calloc :
    MiniValgrind → Option ℕ → Option ℕ → ℕ → ℕ → List ℕ → ℕ → Option (MiniValgrind × Option ℕ)
mini_calloc v got fresh num_elements element_size filename instruction =
    let block : MetaData = record {
      request_size = num_elements * element_size % size_mod;
      filename = filename;
      instruction = instruction;
      next = fresh;
    } in
    if num_elements == 0 || element_size == 0 then some (v, none) else add_if v got block

-- `total_memory_freed += ptr->request_size; temp->next = ptr->next; free(ptr);`
unfoldable pub unlink : MiniValgrind → ℕ → MetaData → ℕ → Option MiniValgrind
unlink v t before p = v.heap p >>= λ block. some (record v {
  heap = set_cell (set_cell v.heap t (some (record before { next = block.next }))) p none;
  total_memory_freed = (v.total_memory_freed + block.request_size) % size_mod;
})

abbrev pub not_found : MiniValgrind → MiniValgrind
not_found v = record v { invalid_addresses = (v.invalid_addresses + 1) % size_mod }

abbrev pub is_at : Option ℕ → ℕ → Bool
is_at none p = false
is_at (some q) p = q == p

-- `while(temp)` of mini_free; `none` when the fuel runs out, too.
unfoldable pub free_loop : ℕ → MiniValgrind → ℕ → Option ℕ → Option MiniValgrind
free_loop k v p none = some (not_found v)
free_loop zero v p (some t) = none
free_loop (suc k) v p (some t) = v.heap t >>= λ m.
    let rest = free_loop k v p m.next in if is_at m.next p then unlink v t m p else rest

unfoldable pub free_head : MiniValgrind → ℕ → Option MiniValgrind
free_head v p = v.heap p >>= λ block. some (record v {
  heap = set_cell v.heap p none;
  head = block.next;
  total_memory_freed = (v.total_memory_freed + block.request_size) % size_mod;
})

-- mini_free for a list from `first` on.
unfoldable pub free_from : ℕ → MiniValgrind → ℕ → Option ℕ → Option MiniValgrind
free_from k v p first = if is_at first p then free_head v p else free_loop k v p first

unfoldable pub mini_free : ℕ → MiniValgrind → Option ℕ → Option MiniValgrind
mini_free k v none = some v
mini_free k v (some p) = free_from k v p v.head

-- What mini_realloc does with a block that it found: realloc moved it to `q`. No link is changed. The
-- sizes are of type int, and this is their difference where both fit.
unfoldable pub resize_block : MiniValgrind → ℕ → ℕ → MetaData → ℕ → List ℕ → ℕ → MiniValgrind
resize_block v p q block request_size filename instruction =
    let changed : MetaData = record block {
      request_size = request_size;
      filename = filename;
      instruction = instruction;
    } in
    record v {
      heap = set_cell (set_cell v.heap p none) q (some changed);
      total_memory_freed =
          if ltb request_size block.request_size
          then (v.total_memory_freed + (block.request_size - request_size)) % size_mod
          else v.total_memory_freed;
      total_memory_requested =
          if ltb request_size block.request_size
          then v.total_memory_requested
          else (v.total_memory_requested + (request_size - block.request_size)) % size_mod;
    }

-- The result of realloc: NULL is followed by an access to `ptr->request_size`.
abbrev pub resized :
    MiniValgrind → ℕ → Option ℕ → MetaData → ℕ → List ℕ → ℕ → Option (MiniValgrind × Option ℕ)
resized v p none block request_size filename instruction = none
resized v p (some q) block request_size filename instruction =
    if leb (2 ^ 31) request_size || leb (2 ^ 31) block.request_size
    then none
    else some (resize_block v p q block request_size filename instruction, some q)

-- `while(temp)` of mini_realloc.
unfoldable pub realloc_loop :
    ℕ → MiniValgrind → ℕ → Option ℕ → ℕ → List ℕ → ℕ → Option ℕ → Option (MiniValgrind × Option ℕ)
realloc_loop k v p got request_size filename instruction none = some (not_found v, none)
realloc_loop zero v p got request_size filename instruction (some t) = none
realloc_loop (suc k) v p got request_size filename instruction (some t) = v.heap t >>= λ m.
    let rest = realloc_loop k v p got request_size filename instruction m.next in
    if p == t then resized v p got m request_size filename instruction else rest

unfoldable pub mini_realloc :
    ℕ
    → MiniValgrind
    → Option ℕ
    → Option ℕ
    → Option ℕ
    → ℕ
    → List ℕ
    → ℕ
    → Option (MiniValgrind × Option ℕ)
mini_realloc k v none got fresh request_size filename instruction =
    mini_malloc v got fresh request_size filename instruction
mini_realloc k v (some p) got fresh request_size filename instruction =
    if request_size == 0
    then (mini_free k v (some p) >>= λ w. some (w, none))
    else realloc_loop k v p got request_size filename instruction v.head
