-- ===== src/FileSystem/Write/Copies.antt =====
-- The copies of minixfs_write (finding_filesystems/minixfs.c) on a stored file, one after the other.
use system_programming.Base.{
  subst, length-drop, ℕ, zero, suc, ◌+◌, ◌-◌, ◌*◌, ◌≤◌, ◌<◌, ◌≡◌, refl, ap, sym, ◌∙◌, List, ◌++◌,
  Option, some, ◌>>=◌, length, take, drop, set, get_elem?, arith, ltb, ◌==◌, Bool-cases, ltb→lt,
  ltb→ge, inl, inr, ge→ltb, false, length-take, length-set,
}
use system_programming.FileSystem.Disk.{Inode, Utils, DataBlock, indirect_table}
use system_programming.FileSystem.Slices.{flat, length-flat, row_lt, take-add}
use system_programming.FileSystem.Write.{splice, copy_to, copy_indirect, copy_either, write_blocks}
use system_programming.FileSystem.Write.Splices.{splice-nil, flat-set, length-splice, splice-splice}
use system_programming.FileSystem.Write.Stored.{
  Fresh-elem, set-other, Stored, elem_lem, elem-Whole, Leads-set, Whole-set,
}

-- The run gives the file with these bytes at this place.
abbrev pub Copied :
    Utils
    → List DataBlock
    → Inode
    → List ℕ
    → List DataBlock
    → ℕ
    → List ℕ
    → Option (List DataBlock)
    → Type 0
Copied u base node nums bs at bytes run =
    (blocks : List DataBlock) × (bs' : List DataBlock) × (run ≡ some blocks)
    × Stored u base node blocks nums bs'
    × (flat bs' ≡ splice at bytes (flat bs))
    × (length bs' ≡ length bs)

pub Copied-cast :
    (u : Utils) (base : List DataBlock) (node : Inode) (nums : List ℕ) (bs : List DataBlock)
    {at at' : ℕ} {bytes bytes' : List ℕ} (run : Option (List DataBlock))
    → at ≡ at'
    → bytes ≡ bytes'
    → Copied u base node nums bs at bytes run
    → Copied u base node nums bs at' bytes' run
Copied-cast u base node nums bs {at'} {bytes} run e e' copied =
    subst (λ b. Copied u base node nums bs at' b run) e'
      (subst (λ a. Copied u base node nums bs a bytes run) e copied)

copy_to_lem :
    (blocks : List DataBlock) (table : List ℕ) (i start n d : ℕ) (p b : List ℕ)
    → get_elem? table i ≡ some d
    → get_elem? blocks d ≡ some b
    → 0 < n
    → n ≤ length p
    → copy_to blocks table i start n p ≡ some (set blocks d (splice start (take n p) b))
unfolding copy_to
copy_to_lem blocks table i start n d p b number there pos enough =
    let some_bytes : (n == 0) ≡ false = ground arith in
    rw (number, some_bytes, ge→ltb (length p) n enough, there) refl

pub copy_either-Copied :
    (u : Utils) (base : List DataBlock) (node : Inode) (blocks : List DataBlock) (nums : List ℕ)
    (bs : List DataBlock) (j start n : ℕ) (p : List ℕ)
    → Stored u base node blocks nums bs
    → 0 < n
    → n ≤ length p
    → start + n ≤ u.block_size
    → j * u.block_size + start + n ≤ length (flat bs)
    → Copied u base node nums bs
        (j * u.block_size + start)
        (take n p)
        (copy_either u node blocks j start n p)
unfolding copy_either copy_indirect indirect_table
copy_either-Copied u base node blocks nums bs j start n p file pos enough fits inside =
    let total = length-flat u.block_size bs file.whole in
    let below = row_lt j (length bs) u.block_size (omega (arith, total, inside, pos)) in
    let (d, b, number, block, there) = elem_lem blocks nums bs j file.leads below in
    let size = elem-Whole u.block_size j b bs file.whole block in
    let taken = length-take n p enough in
    let v = splice start (take n p) b in
    let sized : length v ≡ u.block_size =
      length-splice start (take n p) b (omega (arith, taken, fits, size)) ∙ size in
    let kept : get_elem? (set blocks d v) node.indirect ≡ get_elem? blocks node.indirect =
      set-other blocks d node.indirect v
        (λ e. Fresh-elem nums node.indirect j d file.apart number (sym e)) in
    let after : Stored u base node (set blocks d v) nums (set bs j v) = record {
      leads = Leads-set blocks nums bs j d v file.leads file.distinct number;
      whole = Whole-set u.block_size j v bs file.whole sized;
      same = file.same ∙ sym (length-set bs j v);
      distinct = file.distinct;
      apart = file.apart;
      frame = λ e fresh.
          set-other blocks d e v (λ same. Fresh-elem nums e j d fresh number (sym same))
          ∙ file.frame e fresh;
      direct = file.direct;
      behind = λ k h far. let (table, t, e) = file.behind k h far in (table, rw kept t, e);
    } in
    let spliced =
      flat-set u.block_size j start (take n p) b bs file.whole block (omega (arith, taken, fits)) in
    let inside_nums : j < length nums = omega (arith, below, file.same) in
    (
      set blocks d v,
      set bs j v,
      (elim (Bool-cases (ltb j u.num_direct)) [
        | inl near ↦ rw near (
            copy_to_lem blocks node.direct j start n d p b
              (file.direct j inside_nums (ltb→lt _ _ near) ∙ number) there pos enough)
        | inr far ↦
            let (table, t, e) = file.behind j inside_nums (ltb→ge _ _ far) in
            rw (far, t)
              (copy_to_lem blocks table (j - u.num_direct) start n d p b (e ∙ number) there pos
                enough)
      ]),
      after,
      spliced,
      length-set bs j v,
    )

-- One run behind another.
pub Copied-then :
    (u : Utils) (base : List DataBlock) (node : Inode) (nums : List ℕ) (bs : List DataBlock)
    (at : ℕ) (a b : List ℕ) (run : Option (List DataBlock))
    (f : List DataBlock → Option (List DataBlock))
    → Copied u base node nums bs at a run
    → at + length a ≤ length (flat bs)
    → ((blocks : List DataBlock) (bs' : List DataBlock)
        → Stored u base node blocks nums bs'
        → length (flat bs') ≡ length (flat bs)
        → Copied u base node nums bs' (at + length a) b (f blocks))
    → Copied u base node nums bs at (a ++ b) (run >>= f)
Copied-then u base node nums bs at a b run f (blocks, bs', ran, file, bytes, size) inside next =
    let sized = ap length bytes ∙ length-splice at a (flat bs) inside in
    let (blocks2, bs2, ran2, file2, bytes2, size2) = next blocks bs' file sized in
    (
      blocks2,
      bs2,
      ap (λ o. o >>= f) ran ∙ ran2,
      file2,
      bytes2 ∙ ap (splice (at + length a) b) bytes ∙ splice-splice at a b (flat bs) inside,
      size2 ∙ size,
    )

pub write_blocks-Copied :
    (u : Utils) (base : List DataBlock) (node : Inode) (blocks : List DataBlock) (nums : List ℕ)
    (bs : List DataBlock) (j k : ℕ) (p : List ℕ)
    → Stored u base node blocks nums bs
    → 0 < u.block_size
    → k * u.block_size ≤ length p
    → (j + k) * u.block_size ≤ length (flat bs)
    → Copied u base node nums bs
        (j * u.block_size)
        (take (k * u.block_size) p)
        (write_blocks (copy_either u node) u.block_size blocks j k p)
unfolding write_blocks
write_blocks-Copied u base node blocks nums bs j zero p file pos enough inside =
    let no_rows : 0 * u.block_size ≡ 0 = grind arith in
    (
      blocks,
      bs,
      refl,
      file,
      sym (
          ap (λ k. splice (j * u.block_size) (take k p) (flat bs)) no_rows
          ∙ splice-nil (j * u.block_size) (flat bs)),
      refl,
    )
write_blocks-Copied u base node blocks nums bs j (suc k) p file pos enough inside =
    let size = u.block_size in
    let more : suc k * size ≡ size + k * size = grind arith in
    let next : suc j * size ≡ j * size + size = grind arith in
    let rows : (j + suc k) * size ≡ j * size + (size + k * size) = grind arith in
    let rest_rows : (suc j + k) * size ≡ j * size + (size + k * size) = grind arith in
    let left = length-drop size p in
    let taken = length-take size p (omega (arith, enough, more)) in
    let plain : j * size + 0 ≡ j * size = omega arith in
    let shifted : suc j * size ≡ j * size + length (take size p) = omega (arith, next, taken) in
    Copied-cast u base node nums bs _ refl
      (sym (ap (λ n. take n p) more ∙ take-add size (k * size) p))
      (Copied-then u base node nums bs (j * size) (take size p) (take (k * size) (drop size p)) _ _
        (Copied-cast u base node nums bs _ plain refl (
          copy_either-Copied u base node blocks nums bs j 0 size p file pos
            (omega (arith, enough, more)) (omega arith) (omega (arith, inside, rows))))
        (omega (arith, inside, rows, taken))
        (λ changed bs' file' same. Copied-cast u base node nums bs' _ shifted refl (
          write_blocks-Copied u base node changed nums bs' (suc j) k (drop size p) file' pos
            (omega (arith, left, enough, more)) (omega (arith, same, inside, rows, rest_rows)))))
