-- ===== src/MiniValgrind/Ledger.antt =====
-- Histories of calls of mini_valgrind/mini_valgrind.c, and the blocks that they leave by the
-- specification.
use system_programming.Base.{
  ℕ, ◌+◌, ◌*◌, ◌%◌, ◌≡◌, refl, sym, List, [], ◌∷◌, Bool-cases, inl, inr, ◌==◌, ◌||◌, if◌then◌else◌,
  Option, none, some, ◌>>=◌, arith,
}
use system_programming.MiniValgrind.Defs.{
  MiniValgrind, size_mod, mini_malloc, mini_calloc, mini_free,
}
use system_programming.MiniValgrind.Chain.{
  Block, Chain, Avoids, Distinct, LinkIsFine, insert_block, remove, size_at,
}

-- The calls, with what malloc returned and what stood in the link of this memory.
pub data Call : Type 0 where
  mallocs : Option ℕ → Option ℕ → ℕ → List ℕ → ℕ → Call
  callocs : Option ℕ → Option ℕ → ℕ → ℕ → List ℕ → ℕ → Call
  frees : Option ℕ → Call

abbrev pub result_of : Option (MiniValgrind × Option ℕ) → Option MiniValgrind
result_of o = o >>= λ r. some r.0

unfoldable pub call : ℕ → Call → MiniValgrind → Option MiniValgrind
call k (mallocs got fresh size filename instruction) v =
    result_of (mini_malloc v got fresh size filename instruction)
call k (callocs got fresh n m filename instruction) v =
    result_of (mini_calloc v got fresh n m filename instruction)
call k (frees payload) v = mini_free k v payload

unfoldable pub calls : ℕ → List Call → MiniValgrind → Option MiniValgrind
calls k [] v = some v
calls k (c ∷ cs) v = call k c v >>= calls k cs

-- The specification: the blocks that are not freed.
abbrev pub insert_got : Option ℕ → ℕ → List Block → List Block
insert_got none size bs = bs
insert_got (some p) size bs = insert_block (record { address = p; size = size }) bs

abbrev pub live_after : Call → List Block → List Block
live_after (mallocs got fresh size filename instruction) bs =
    if size == 0 then bs else insert_got got size bs
live_after (callocs got fresh n m filename instruction) bs =
    if n == 0 || m == 0 then bs else insert_got got (n * m % size_mod) bs
live_after (frees none) bs = bs
live_after (frees (some p)) bs = remove p bs

abbrev pub live : List Call → List Block → List Block
live [] bs = bs
live (c ∷ cs) bs = live cs (live_after c bs)

-- malloc returns no address that is in use.
abbrev pub IsNew : Option ℕ → List Block → Type 0
IsNew none bs = Unit {0}
IsNew (some p) bs = Avoids p bs

abbrev pub Allowed : Call → List Block → Type 0
Allowed (mallocs got fresh size filename instruction) bs = IsNew got bs × LinkIsFine fresh bs
Allowed (callocs got fresh n m filename instruction) bs = IsNew got bs × LinkIsFine fresh bs
Allowed (frees payload) bs = Unit {0}

abbrev pub AllAllowed : List Call → List Block → Type 0
AllAllowed [] bs = Unit {0}
AllAllowed (c ∷ cs) bs = Allowed c bs × AllAllowed cs (live_after c bs)

abbrev pub bytes : List Block → ℕ
bytes [] = 0
bytes (b ∷ bs) = b.size + bytes bs

-- The blocks are linked, and the bytes that were requested are those freed and those in blocks.
pub record Kept (v : MiniValgrind) (bs : List Block) : Type 0 where
  pub chain : Chain v.heap v.head bs
  pub distinct : Distinct bs
  pub balance : v.total_memory_requested ≡ (v.total_memory_freed + bytes bs) % size_mod

pub Avoids-remove : (a p : ℕ) (bs : List Block) → Avoids a bs → Avoids a (remove p bs)
Avoids-remove a p [] away = away
Avoids-remove a p (b ∷ bs) away = elim (Bool-cases (b.address == p)) [
  | inl same ↦ rw same away.1
  | inr other ↦ rw other (away.0, Avoids-remove a p bs away.1)
]

pub Distinct-remove : (p : ℕ) (bs : List Block) → Distinct bs → Distinct (remove p bs)
Distinct-remove p [] d = d
Distinct-remove p (b ∷ bs) d = elim (Bool-cases (b.address == p)) [
  | inl same ↦ rw same d.1
  | inr other ↦ rw other (Avoids-remove b.address p bs d.0, Distinct-remove p bs d.1)
]

pub Distinct-insert_block :
    (n : Block) (bs : List Block) → Avoids n.address bs → Distinct bs → Distinct (insert_block n bs)
Distinct-insert_block n [] away d = (tt, tt)
Distinct-insert_block n (b ∷ bs) away d = (((λ e. away.0 (sym e)), d.0), (away.1, d.1))

pub bytes-insert_block :
    (n : Block) (bs : List Block) → bytes (insert_block n bs) ≡ n.size + bytes bs
bytes-insert_block n [] = refl
bytes-insert_block n (b ∷ bs) = omega arith

abbrev pub freed_bytes : Option ℕ → ℕ
freed_bytes none = 0
freed_bytes (some n) = n

-- What is freed is what the blocks lose.
pub bytes-remove :
    (p : ℕ) (bs : List Block) → bytes bs ≡ freed_bytes (size_at p bs) + bytes (remove p bs)
bytes-remove p [] = refl
bytes-remove p (b ∷ bs) = elim (Bool-cases (b.address == p)) [
  | inl same ↦ rw same refl
  | inr other ↦ rw other (omega (arith, bytes-remove p bs))
]

pub add_size :
    (requested freed held size now : ℕ)
    → requested ≡ (freed + held) % size_mod
    → now ≡ size + held
    → (requested + size) % size_mod ≡ (freed + now) % size_mod
add_size requested freed held size now e f = omega (arith, e, f)

pub take_size :
    (requested freed held size now : ℕ)
    → requested ≡ (freed + held) % size_mod
    → held ≡ size + now
    → requested ≡ ((freed + size) % size_mod + now) % size_mod
take_size requested freed held size now e f = omega (arith, e, f)
