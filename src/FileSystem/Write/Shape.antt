-- ===== src/FileSystem/Write/Shape.antt =====
-- A stored file as minixfs_read (finding_filesystems/minixfs.c) wants it: its direct blocks and those
-- behind the indirect block.
use system_programming.Base.{
  ◌^◌, ℕ, zero, suc, ◌+◌, ◌-◌, ◌*◌, ◌≤◌, ◌<◌, ◌≡◌, ◌⊎◌, inl, inr, refl, ap, sym, ◌∙◌, subst, List,
  [], ◌∷◌, ◌++◌, length, take, drop, get_elem?, arith, length-take, take-append-drop, append_assoc,
  >>=-eq-some, some_inj, length-append, drop-all,
}
use system_programming.FileSystem.Disk.{Inode, Utils, DataBlock, indirect_table}
use system_programming.FileSystem.Slices.{flat, Whole}
use system_programming.FileSystem.Read.Blocks.{Leads}
use system_programming.FileSystem.Read.Exact.{IsFile}
use system_programming.FileSystem.Write.Stored.{Stored}

flat-append : (xs ys : List DataBlock) → flat (xs ++ ys) ≡ flat xs ++ flat ys
flat-append [] ys = refl
flat-append (x ∷ xs) ys = ap (◌++◌ x) (flat-append xs ys) ∙ sym (append_assoc x (flat xs) (flat ys))

Whole-take : (size n : ℕ) (bs : List DataBlock) → Whole size bs → Whole size (take n bs)
Whole-take size zero bs whole = tt
Whole-take size (suc n) [] whole = tt
Whole-take size (suc n) (b ∷ bs) whole = (whole.0, Whole-take size n bs whole.1)

Whole-drop : (size n : ℕ) (bs : List DataBlock) → Whole size bs → Whole size (drop n bs)
Whole-drop size zero bs whole = whole
Whole-drop size (suc n) [] whole = tt
Whole-drop size (suc n) (b ∷ bs) whole = Whole-drop size n bs whole.1

take_whole : (bs : List DataBlock) → take (length bs) bs ≡ bs
take_whole [] = refl
take_whole (b ∷ bs) = ap (◌∷◌ b) (take_whole bs)

-- A table that agrees with the numbers on the first `n` of them.
Leads-take :
    (blocks : List DataBlock) (n : ℕ) (table nums : List ℕ) (bs : List DataBlock)
    → Leads blocks nums bs
    → ((j : ℕ) → j < length bs → j < n → get_elem? table j ≡ get_elem? nums j)
    → Leads blocks table (take n bs)
Leads-take blocks zero table nums bs leads same = tt
Leads-take blocks (suc n) table nums [] leads same = tt
Leads-take blocks (suc n) table [] (b ∷ bs) leads same = absurd leads
Leads-take blocks (suc n) [] (m ∷ nums) (b ∷ bs) leads same =
    let e = same 0 (omega arith) (omega arith) in absurd cc
Leads-take blocks (suc n) (t ∷ table) (m ∷ nums) (b ∷ bs) leads same = (
  ap (get_elem? blocks) (some_inj (same 0 (omega arith) (omega arith))) ∙ leads.0,
  Leads-take blocks n table nums bs leads.1
      (λ j h k. same (suc j) (omega (arith, h)) (omega (arith, k))),
)

-- A table that agrees with the numbers behind the first `n`.
Leads-drop :
    (blocks : List DataBlock) (n : ℕ) (table nums : List ℕ) (bs : List DataBlock)
    → Leads blocks nums bs
    → ((j : ℕ) → n + j < length bs → get_elem? table j ≡ get_elem? nums (n + j))
    → Leads blocks table (drop n bs)
Leads-drop blocks zero table nums bs leads same = subst (Leads blocks table) (take_whole bs) (
    Leads-take blocks (length bs) table nums bs leads (λ j h k.
      let e : 0 + j ≡ j = omega arith in same j (omega (arith, h)) ∙ ap (get_elem? nums) e))
Leads-drop blocks (suc n) table nums [] leads same = tt
Leads-drop blocks (suc n) table [] (b ∷ bs) leads same = absurd leads
Leads-drop blocks (suc n) table (m ∷ nums) (b ∷ bs) leads same =
    Leads-drop blocks n table nums bs leads.1 (λ j h.
      let e : suc n + j ≡ suc (n + j) = omega arith in
      same j (omega (arith, h)) ∙ ap (get_elem? (m ∷ nums)) e)

pub Stored-IsFile :
    (u : Utils) (base : List DataBlock) (node : Inode) (blocks : List DataBlock) (nums : List ℕ)
    (bs : List DataBlock)
    → Stored u base node blocks nums bs
    → 0 < u.block_size
    → u.num_direct + u.num_indirect < 2 ^ 31
    → length node.direct ≡ u.num_direct
    → ((block : DataBlock) → length (u.barray block) ≡ u.num_indirect)
    → node.size ≤ length (flat bs)
    → ((node.size < u.num_direct * u.block_size) × (length bs ≤ u.num_direct))
      ⊎ (u.num_direct < length bs)
    → IsFile u blocks node (take u.num_direct bs) (drop u.num_direct bs)
      × (flat (take u.num_direct bs) ++ flat (drop u.num_direct bs) ≡ flat bs)
unfolding indirect_table
Stored-IsFile u base node blocks nums bs file pos few numbers sized inside place =
    let ds = take u.num_direct bs in
    let is = drop u.num_direct bs in
    let all : flat ds ++ flat is ≡ flat bs =
      sym (flat-append ds is) ∙ ap flat (take-append-drop u.num_direct bs) in
    (
      record {
        sized = pos;
        few = few;
        numbers = numbers;
        leads =
            Leads-take blocks u.num_direct node.direct nums bs file.leads
              (λ j h k. file.direct j (omega (arith, h, file.same)) k);
        whole_direct = Whole-take u.block_size u.num_direct bs file.whole;
        whole_indirect = Whole-drop u.block_size u.num_direct bs file.whole;
        inside = omega (arith, length-append (flat ds) (flat is), ap length all, inside);
        indirect = elim place [
          | inl (short, small) ↦ inl (drop-all u.num_direct bs small, short)
          | inr long ↦
              let (table, there, e) =
                file.behind u.num_direct (omega (arith, long, file.same)) (omega arith) in
              let (block, found, same) = >>=-eq-some (get_elem? blocks node.indirect) _ there in
              inr (record {
                table = table;
                there = there;
                numbers = ap length (sym (some_inj same)) ∙ sized block;
                leads = Leads-drop blocks u.num_direct table nums bs file.leads (λ j h.
                    let (table', there', e') =
                      file.behind (u.num_direct + j) (omega (arith, h, file.same)) (omega arith) in
                    let at : j ≡ u.num_direct + j - u.num_direct = omega arith in
                    ap (get_elem? table) at
                    ∙ ap (λ t. get_elem? t (u.num_direct + j - u.num_direct))
                        (some_inj (sym there ∙ there'))
                    ∙ e');
                full = length-take u.num_direct bs (omega (arith, long));
              })
        ];
      },
      all,
    )
