-- ===== src/FileSystem/Read/Exact.antt =====
-- What minixfs_read (finding_filesystems/minixfs.c) gives, against the bytes of the file.
use system_programming.Base.{
  ℕ, ◌+◌, ◌-◌, ◌*◌, ◌/◌, ◌^◌, ◌<◌, ◌≤◌, ◌≡◌, ◌⊎◌, inl, inr, refl, ap, sym, ◌∙◌, List, [], ◌++◌,
  some, length, arith, ltb, leb, true, Bool-cases, ltb→lt, ltb→ge, leb→le, leb→gt, lt→ltb,
}
use system_programming.FileSystem.Disk.{Inode, Utils, DataBlock, indirect_table, to_int}
use system_programming.FileSystem.Slices.{
  row_cancel, rows_add, flat, slice, Whole, slice-add, slice-left, slice-right, length-flat, div_le,
  div_lt, row_le, row_mono, row_lt,
}
use system_programming.FileSystem.Read.Blocks.{
  Leads-length, tested_front, blocks_then_front, Leads, copy_from-slice, copy_blocks-slice,
}
use system_programming.FileSystem.Read.{
  rest_copy, first_copy, rest_indirect, rest_direct, rest_over, copied,
}

-- The indirect block stands, with the numbers of these blocks, behind full direct ones.
pub record HasIndirect (u : Utils) (blocks : List DataBlock) (node : Inode) (ds is : List DataBlock)
    : Type 0 where
  pub table : List ℕ
  pub there : indirect_table u blocks node ≡ some table
  pub numbers : length table ≡ u.num_indirect
  pub leads : Leads blocks table is
  pub full : length ds ≡ u.num_direct

-- The file of the inode has the direct blocks `ds` and the indirect ones `is`, its size inside them. A
-- file without an indirect block ends before its last direct block does.
pub record IsFile (u : Utils) (blocks : List DataBlock) (node : Inode) (ds is : List DataBlock)
    : Type 0 where
  pub sized : 0 < u.block_size
  pub few : u.num_direct + u.num_indirect < 2 ^ 31
  pub numbers : length node.direct ≡ u.num_direct
  pub leads : Leads blocks node.direct ds
  pub whole_direct : Whole u.block_size ds
  pub whole_indirect : Whole u.block_size is
  pub inside : node.size ≤ length (flat ds) + length (flat is)
  pub indirect :
      ((is ≡ []) × (node.size < u.num_direct * u.block_size)) ⊎ HasIndirect u blocks node ds is

-- Bytes that direct blocks hold.
direct_part :
    (ds is : List DataBlock) (s n : ℕ)
    → s + n ≤ length (flat ds)
    → slice s n (flat ds) ≡ slice s n (flat ds ++ flat is)
direct_part ds is s n h = sym (slice-left s n (flat ds) (flat is) h)

indirect_part :
    (ds is : List DataBlock) (t s n : ℕ)
    → length (flat ds) + s ≡ t
    → slice s n (flat is) ≡ slice t n (flat ds ++ flat is)
indirect_part ds is t s n e =
    sym (slice-right s n (flat ds) (flat is)) ∙ ap (λ k. slice k n (flat ds ++ flat is)) e

-- Across the two.
join_parts :
    (ds is : List DataBlock) (s a t n : ℕ)
    → s + a ≡ length (flat ds)
    → t ≡ 0
    → slice s a (flat ds) ++ slice t n (flat is) ≡ slice s (a + n) (flat ds ++ flat is)
join_parts ds is s a t n all start = sym (
    slice-add s a n (flat ds ++ flat is)
    ∙ ap (λ xs. xs ++ slice (s + a) n (flat ds ++ flat is))
        (sym (direct_part ds is s a (omega (arith, all))))
    ∙ ap (◌++◌ (slice s a (flat ds)))
        (sym (indirect_part ds is (s + a) t n (omega (arith, all, start)))))

-- The direct blocks hold what stands before their end.
in_direct :
    (u : Utils) (blocks : List DataBlock) (node : Inode) (ds is : List DataBlock) (e : ℕ)
    → IsFile u blocks node ds is
    → e ≤ node.size
    → e ≤ u.num_direct * u.block_size
    → e ≤ length (flat ds)
in_direct u blocks node ds is e file before bound = elim file.indirect [
  | inl (empty, ends) ↦
      let all : length (flat is) ≡ 0 = rw empty refl in omega (arith, all, before, file.inside)
  | inr indirect ↦
      let all = length-flat u.block_size ds file.whole_direct in
      let full = ap (λ n. n * u.block_size) indirect.full in omega (arith, all, full, bound)
]

-- Behind the direct blocks there is an indirect one.
needs_indirect :
    (u : Utils) (blocks : List DataBlock) (node : Inode) (ds is : List DataBlock) (e : ℕ)
    → IsFile u blocks node ds is
    → e ≤ node.size
    → u.num_direct * u.block_size ≤ e
    → HasIndirect u blocks node ds is × (length (flat ds) ≡ u.num_direct * u.block_size)
needs_indirect u blocks node ds is e file before bound = elim file.indirect [
  | inl (empty, ends) ↦ absurd (omega arith)
  | inr indirect ↦ (
    indirect,
    length-flat u.block_size ds file.whole_direct ∙ ap (λ n. n * u.block_size) indirect.full,
  )
]

rest_direct-slice :
    (u : Utils) (blocks : List DataBlock) (node : Inode) (ds is : List DataBlock) (num m r : ℕ)
    → IsFile u blocks node ds is
    → num + m + 1 < u.num_direct
    → r < u.block_size
    → (num + 1 + m) * u.block_size + r ≤ node.size
    → rest_direct u blocks node num m r
      ≡ some (slice ((num + 1) * u.block_size) (m * u.block_size + r) (flat ds ++ flat is))
unfolding rest_direct
rest_direct-slice u blocks node ds is num m r file near small inside =
    let rows = row_le (num + 1 + m) u.num_direct u.block_size (omega arith) in
    let held = in_direct u blocks node ds is _ file inside (omega (arith, rows, small)) in
    let place : (num + 1) * u.block_size + (m * u.block_size + r)
        ≡ (num + 1 + m) * u.block_size + r =
      grind arith in
    blocks_then_front blocks node.direct ds u.block_size (num + 1) m r file.leads file.whole_direct
      (omega (arith, near, file.numbers)) (omega arith) held
    ∙ ap some (direct_part ds is _ _ (omega (arith, place, held)))

rest_indirect-slice :
    (u : Utils) (blocks : List DataBlock) (node : Inode) (ds is : List DataBlock) (num m r : ℕ)
    → IsFile u blocks node ds is
    → u.num_direct ≤ num
    → r < u.block_size
    → (num + 1 + m) * u.block_size + r ≤ node.size
    → rest_indirect u blocks node num m r
      ≡ some (slice ((num + 1) * u.block_size) (m * u.block_size + r) (flat ds ++ flat is))
unfolding rest_indirect
rest_indirect-slice u blocks node ds is num m r file far small inside =
    let rows = row_mono u.num_direct (num + 1 + m) u.block_size (omega arith) in
    let (indirect, full) = needs_indirect u blocks node ds is _ file inside (omega (arith, rows)) in
    let at = num - u.num_direct + 1 in
    let start : u.num_direct * u.block_size + at * u.block_size ≡ (num + 1) * u.block_size =
      rows_add u.num_direct at (num + 1) u.block_size (omega arith) in
    let over : u.num_direct * u.block_size + (at + m) * u.block_size
        ≡ (num + 1 + m) * u.block_size =
      rows_add u.num_direct (at + m) (num + 1 + m) u.block_size (omega arith) in
    rw indirect.there (
      tested_front blocks indirect.table is u.block_size u.num_indirect at m r (at + m)
        indirect.leads file.whole_indirect file.sized indirect.numbers refl small
        (omega (arith, over, full, inside, file.inside))
      ∙ ap some (indirect_part ds is _ _ _ (omega (arith, full, start))))

rest_over-slice :
    (u : Utils) (blocks : List DataBlock) (node : Inode) (ds is : List DataBlock) (num m r : ℕ)
    → IsFile u blocks node ds is
    → num < u.num_direct
    → u.num_direct ≤ num + m + 1
    → r < u.block_size
    → (num + 1 + m) * u.block_size + r ≤ node.size
    → rest_over u blocks node num m r
      ≡ some (slice ((num + 1) * u.block_size) (m * u.block_size + r) (flat ds ++ flat is))
unfolding rest_over
rest_over-slice u blocks node ds is num m r file near far small inside =
    let a = u.num_direct - num - 1 in
    let c = num + m + 1 - u.num_direct in
    let rows = row_mono u.num_direct (num + 1 + m) u.block_size (omega arith) in
    let (indirect, full) = needs_indirect u blocks node ds is _ file inside (omega (arith, rows)) in
    let direct_rows : (num + 1) * u.block_size + a * u.block_size ≡ u.num_direct * u.block_size =
      rows_add (num + 1) a u.num_direct u.block_size (omega arith) in
    let over : u.num_direct * u.block_size + c * u.block_size ≡ (num + 1 + m) * u.block_size =
      rows_add u.num_direct c (num + 1 + m) u.block_size (omega arith) in
    let parts : a * u.block_size + c * u.block_size ≡ m * u.block_size =
      rows_add a c m u.block_size (omega arith) in
    let upto : num + 1 + a ≡ u.num_direct = omega arith in
    let none_before : 0 * u.block_size ≡ 0 = grind arith in
    let zero_rows : (0 + c) * u.block_size ≡ c * u.block_size = grind arith in
    let first =
      copy_blocks-slice blocks node.direct ds u.block_size (num + 1) a file.leads file.whole_direct
        (omega (arith, upto, file.numbers))
        (omega (arith, full, ap (λ n. n * u.block_size) upto)) in
    let second =
      tested_front blocks indirect.table is u.block_size u.num_indirect 0 c r c indirect.leads
        file.whole_indirect file.sized indirect.numbers (omega arith) small
        (omega (arith, zero_rows, over, full, inside, file.inside)) in
    let all : a * u.block_size + (c * u.block_size + r) ≡ m * u.block_size + r =
      omega (arith, parts) in
    rw (first, indirect.there, second)
      (ap some (
        join_parts ds is ((num + 1) * u.block_size) (a * u.block_size) (0 * u.block_size)
          (c * u.block_size + r) (omega (arith, direct_rows, full)) none_before
        ∙ ap (λ n. slice ((num + 1) * u.block_size) n (flat ds ++ flat is)) all))

first_copy-slice :
    (u : Utils) (blocks : List DataBlock) (node : Inode) (ds is : List DataBlock) (num offset n : ℕ)
    → IsFile u blocks node ds is
    → offset + n ≤ u.block_size
    → num * u.block_size + offset < node.size
    → num * u.block_size + offset + n ≤ node.size
    → first_copy u blocks node num offset n
      ≡ some (slice (num * u.block_size + offset) n (flat ds ++ flat is))
unfolding first_copy
first_copy-slice u blocks node ds is num offset n file fits before inside =
    elim (Bool-cases (ltb num u.num_direct)) [
      | inl near ↦
          let below = ltb→lt num u.num_direct near in
          let rows = row_le num u.num_direct u.block_size below in
          let held = in_direct u blocks node ds is _ file inside (omega (arith, rows, fits)) in
          rw near (
            copy_from-slice blocks node.direct ds u.block_size num offset n file.leads
              file.whole_direct (omega (arith, below, file.numbers)) fits held
            ∙ ap some (direct_part ds is _ _ held))
      | inr far ↦
          let above = ltb→ge num u.num_direct far in
          let rows = row_mono u.num_direct num u.block_size above in
          let (indirect, full) =
            needs_indirect u blocks node ds is _ file inside (omega (arith, rows)) in
          let at = num - u.num_direct in
          let start = rows_add u.num_direct at num u.block_size (omega arith) in
          let total = length-flat u.block_size is file.whole_indirect in
          let few = Leads-length blocks indirect.table is indirect.leads in
          let place =
            row_lt at (length is) u.block_size
              (omega (arith, start, total, full, before, file.inside)) in
          rw (far, indirect.there)
            (copy_from-slice blocks indirect.table is u.block_size at offset n indirect.leads
                file.whole_indirect (omega (arith, place, few)) fits
                (omega (arith, start, full, inside, file.inside))
              ∙ ap some (indirect_part ds is _ _ _ (omega (arith, start, full))))
    ]

rest_copy-slice :
    (u : Utils) (blocks : List DataBlock) (node : Inode) (ds is : List DataBlock) (num m r : ℕ)
    → IsFile u blocks node ds is
    → r < u.block_size
    → (num + 1 + m) * u.block_size + r ≤ node.size
    → rest_copy u blocks node num m r
      ≡ some (slice ((num + 1) * u.block_size) (m * u.block_size + r) (flat ds ++ flat is))
unfolding rest_copy
rest_copy-slice u blocks node ds is num m r file small inside =
    elim (Bool-cases (ltb num u.num_direct)) [
      | inl near ↦ elim (Bool-cases (ltb (num + m + 1) u.num_direct)) [
        | inl within ↦
            rw (near, within)
              (rest_direct-slice u blocks node ds is num m r file (ltb→lt _ _ within) small inside)
        | inr over ↦
            rw (near, over)
              (rest_over-slice u blocks node ds is num m r file (ltb→lt _ _ near) (ltb→ge _ _ over)
                small inside)
      ]
      | inr far ↦
          rw far
            (rest_indirect-slice u blocks node ds is num m r file (ltb→ge _ _ far) small inside)
    ]

-- A file is no longer than the blocks that an inode has numbers for.
pub size_bound :
    (u : Utils) (blocks : List DataBlock) (node : Inode) (ds is : List DataBlock)
    → IsFile u blocks node ds is
    → node.size ≤ (u.num_direct + u.num_indirect) * u.block_size
size_bound u blocks node ds is file =
    let direct = length-flat u.block_size ds file.whole_direct in
    let over = length-flat u.block_size is file.whole_indirect in
    let few = Leads-length blocks node.direct ds file.leads in
    let sum = rows_add (length ds) (length is) _ u.block_size refl in
    let few_over : length is ≤ u.num_indirect = elim file.indirect [
      | inl (empty, ends) ↦ let no_more : length is ≡ 0 = rw empty refl in omega (arith, no_more)
      | inr indirect ↦
          omega (arith, Leads-length blocks indirect.table is indirect.leads, indirect.numbers)
    ] in
    let rows =
      row_mono (length ds + length is) (u.num_direct + u.num_indirect) u.block_size
        (omega (arith, few, few_over, file.numbers)) in
    omega (arith, direct, over, sum, rows, file.inside)

-- The first block is read at the byte of `off`.
pub copied-slice :
    (u : Utils) (blocks : List DataBlock) (node : Inode) (ds is : List DataBlock) (off count : ℕ)
    → IsFile u blocks node ds is
    → off + count ≤ node.size
    → off < node.size
    → copied u blocks node off count ≡ some (slice off count (flat ds ++ flat is))
unfolding copied to_int
copied-slice u blocks node ds is off count file inside before =
    let num = off / u.block_size in
    let lo = div_le off u.block_size file.sized in
    let hi = div_lt off u.block_size file.sized in
    let offset = off - num * u.block_size in
    let remain = u.block_size - offset in
    let m = (count - remain) / u.block_size in
    let r = count - remain - m * u.block_size in
    let lo_m = div_le (count - remain) u.block_size file.sized in
    let hi_m = div_lt (count - remain) u.block_size file.sized in
    let here : num * u.block_size + offset ≡ off = omega (arith, lo) in
    let next : (num + 1) * u.block_size ≡ num * u.block_size + u.block_size = grind arith in
    let bytes : (n : ℕ)
        → offset + n ≤ u.block_size
        → off + n ≤ node.size
        → first_copy u blocks node num offset n ≡ some (slice off n (flat ds ++ flat is)) =
      λ n h k.
        first_copy-slice u blocks node ds is num offset n file h (omega (arith, here, before))
          (omega (arith, here, k))
        ∙ ap (λ s. some (slice s n (flat ds ++ flat is))) here in
    elim (Bool-cases (leb count remain)) [
      | inl one ↦ rw one (bytes count (omega (arith, leb→le _ _ one, lo, hi)) inside)
      | inr more ↦
          let fits : ltb m (2 ^ 31) ≡ true =
            let all = size_bound u blocks node ds is file in
            let few =
              row_cancel m (u.num_direct + u.num_indirect) u.block_size file.sized
                (omega (arith, lo_m, inside, all)) in
            lt→ltb m (2 ^ 31) (omega (arith, few, file.few)) in
          let far = leb→gt count remain more in
          let rows : (num + 1 + m) * u.block_size ≡ (num + 1) * u.block_size + m * u.block_size =
            sym (rows_add (num + 1) m _ u.block_size refl) in
          let end : (num + 1 + m) * u.block_size + r ≡ off + count =
            omega (arith, rows, next, lo, hi, lo_m, far) in
          let parts : remain + (m * u.block_size + r) ≡ count = omega (arith, lo, hi, lo_m, far) in
          let start : (num + 1) * u.block_size ≡ off + remain = omega (arith, next, lo, hi) in
          rw
            (
              more,
              fits,
              bytes remain (omega (arith, lo, hi)) (omega (arith, lo, hi, far, inside)),
              rest_copy-slice u blocks node ds is num m r file (omega (arith, hi_m, lo_m))
                  (omega (arith, end, inside)),
            )
            (ap some (
              ap
                (λ s.
                  slice off remain (flat ds ++ flat is)
                  ++ slice s (m * u.block_size + r) (flat ds ++ flat is))
                start
              ∙ sym (slice-add off remain (m * u.block_size + r) (flat ds ++ flat is))
              ∙ ap (λ n. slice off n (flat ds ++ flat is)) parts))
    ]
