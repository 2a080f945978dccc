-- ===== src/FileSystem/Write/Stored.antt =====
-- The blocks of a file under the copies of minixfs_write (finding_filesystems/minixfs.c): the numbers of
-- its blocks in order, and what one copy does to them.
use system_programming.Base.{
  subst, some_inj, ℕ, zero, suc, ◌-◌, ◌≤◌, ◌<◌, ◌≡◌, ◌≢◌, refl, ap, sym, ◌∙◌, List, [], ◌∷◌, some,
  length, set, get_elem?, arith,
}
use system_programming.FileSystem.Disk.{Inode, Utils, DataBlock, indirect_table}
use system_programming.FileSystem.Slices.{Whole}
use system_programming.FileSystem.Read.Blocks.{Leads}

-- The number is not in the list.
abbrev pub Fresh : ℕ → List ℕ → Type 0
Fresh d [] = Unit {0}
Fresh d (e ∷ es) = (e ≢ d) × Fresh d es

abbrev pub Distinct : List ℕ → Type 0
Distinct [] = Unit {0}
Distinct (d ∷ ds) = Fresh d ds × Distinct ds

-- The file of the inode has these block numbers, the direct ones first, then those of the indirect
-- block, all different and different from the indirect block's, and these blocks. All other blocks
-- are as in `base`.
pub record Stored (u : Utils) (base : List DataBlock) (node : Inode) (blocks : List DataBlock)
    (nums : List ℕ) (bs : List DataBlock) : Type 0 where
  pub leads : Leads blocks nums bs
  pub whole : Whole u.block_size bs
  pub same : length nums ≡ length bs
  pub distinct : Distinct nums
  pub apart : Fresh node.indirect nums
  pub frame : (d : ℕ) → Fresh d nums → get_elem? blocks d ≡ get_elem? base d
  pub direct :
      (j : ℕ) → j < length nums → j < u.num_direct → get_elem? node.direct j ≡ get_elem? nums j
  pub behind :
      (j : ℕ)
      → j < length nums
      → u.num_direct ≤ j
      → (table : List ℕ) × (indirect_table u blocks node ≡ some table)
        × (get_elem? table (j - u.num_direct) ≡ get_elem? nums j)

module _ {ℓ} {A : Type ℓ} where
  pub set-same :
      (xs : List A) (i : ℕ) (v a : A) → get_elem? xs i ≡ some a → get_elem? (set xs i v) i ≡ some v
  set-same [] i v a h = absurd cc
  set-same (x ∷ xs) zero v a h = refl
  set-same (x ∷ xs) (suc i) v a h = set-same xs i v a h

  pub set-other :
      (xs : List A) (i j : ℕ) (v : A) → j ≢ i → get_elem? (set xs i v) j ≡ get_elem? xs j
  set-other [] i j v h = refl
  set-other (x ∷ xs) zero zero v h = absurd (h refl)
  set-other (x ∷ xs) zero (suc j) v h = refl
  set-other (x ∷ xs) (suc i) zero v h = refl
  set-other (x ∷ xs) (suc i) (suc j) v h = set-other xs i j v (λ e. h (ap suc e))

Leads-Fresh :
    (blocks : List DataBlock) (nums : List ℕ) (bs : List DataBlock) (d : ℕ) (v : DataBlock)
    → Leads blocks nums bs
    → Fresh d nums
    → Leads (set blocks d v) nums bs
Leads-Fresh blocks nums [] d v leads fresh = tt
Leads-Fresh blocks [] (b ∷ bs) d v leads fresh = leads
Leads-Fresh blocks (n ∷ nums) (b ∷ bs) d v leads fresh =
    (set-other blocks d n v fresh.0 ∙ leads.0, Leads-Fresh blocks nums bs d v leads.1 fresh.1)

pub Fresh-elem : (nums : List ℕ) (e j d : ℕ) → Fresh e nums → get_elem? nums j ≡ some d → d ≢ e
Fresh-elem [] e j d fresh there = absurd cc
Fresh-elem (n ∷ nums) e zero d fresh there = λ h. fresh.0 (cc)
Fresh-elem (n ∷ nums) e (suc j) d fresh there = Fresh-elem nums e j d fresh.1 there

-- The block at `j` with its number.
pub elem_lem :
    (blocks : List DataBlock) (nums : List ℕ) (bs : List DataBlock) (j : ℕ)
    → Leads blocks nums bs
    → j < length bs
    → (d : ℕ) × (b : DataBlock) × (get_elem? nums j ≡ some d)
      × (get_elem? bs j ≡ some b)
      × (get_elem? blocks d ≡ some b)
elem_lem blocks nums [] j leads h = absurd (omega arith)
elem_lem blocks [] (b ∷ bs) j leads h = absurd leads
elem_lem blocks (n ∷ nums) (b ∷ bs) zero leads h = (n, b, refl, refl, leads.0)
elem_lem blocks (n ∷ nums) (b ∷ bs) (suc j) leads h =
    elem_lem blocks nums bs j leads.1 (omega arith)

pub Leads-set :
    (blocks : List DataBlock) (nums : List ℕ) (bs : List DataBlock) (j d : ℕ) (v : DataBlock)
    → Leads blocks nums bs
    → Distinct nums
    → get_elem? nums j ≡ some d
    → Leads (set blocks d v) nums (set bs j v)
Leads-set blocks nums [] j d v leads distinct there = tt
Leads-set blocks [] (b ∷ bs) j d v leads distinct there = absurd cc
Leads-set blocks (n ∷ nums) (b ∷ bs) zero d v leads distinct there =
    let e = some_inj there in
    (
      ap (λ x. get_elem? (set blocks x v) n) (sym e) ∙ set-same blocks n v b leads.0,
      subst (λ x. Leads (set blocks x v) nums bs) e
          (Leads-Fresh blocks nums bs n v leads.1 distinct.0),
    )
Leads-set blocks (n ∷ nums) (b ∷ bs) (suc j) d v leads distinct there = (
  set-other blocks d n v (λ e. Fresh-elem nums n j d distinct.0 there (sym e)) ∙ leads.0,
  Leads-set blocks nums bs j d v leads.1 distinct.1 there,
)

pub Whole-set :
    (size j : ℕ) (v : DataBlock) (bs : List DataBlock)
    → Whole size bs
    → length v ≡ size
    → Whole size (set bs j v)
Whole-set size j v [] whole e = tt
Whole-set size zero v (b ∷ bs) whole e = (e, whole.1)
Whole-set size (suc j) v (b ∷ bs) whole e = (whole.0, Whole-set size j v bs whole.1 e)

pub elem-Whole :
    (size j : ℕ) (b : DataBlock) (bs : List DataBlock)
    → Whole size bs
    → get_elem? bs j ≡ some b
    → length b ≡ size
elem-Whole size j b [] whole e = absurd cc
elem-Whole size zero b (c ∷ bs) whole e = ap length (sym (some_inj e)) ∙ whole.0
elem-Whole size (suc j) b (c ∷ bs) whole e = elem-Whole size j b bs whole.1 e
