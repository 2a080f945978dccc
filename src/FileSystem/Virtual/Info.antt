-- ===== src/FileSystem/Virtual/Info.antt =====
-- minixfs_virtual_read of finding_filesystems/minixfs.c: the string with the numbers of blocks.
use system_programming.Base.{
  ℕ, zero, suc, ◌+◌, ◌-◌, ◌%◌, ◌<◌, ◌≡◌, ◌⊎◌, inl, inr, refl, ap, sym, ◌∙◌, List, [], ◌∷◌, ◌++◌,
  some, length, arith, ltb, leb, ◌==◌, ◌||◌, true, false, Bool-cases, if◌then◌else◌, leb→le, leb→gt,
  ltb→lt, ltb→ge, append_assoc, length-append,
}
use system_programming.FileSystem.Write.Splices.{drop-right}
use system_programming.Clib.Strings.{newline, equals}
use system_programming.Clib.Decimal.{decimal, Digits, decimal-Digits, is_digit_byte}
use system_programming.FileSystem.Disk.{FileSystem, done, size_mod}
use system_programming.FileSystem.Slices.{slice, slice_behind, slice-over, length-slice}
use system_programming.FileSystem.Read.File.{reads, reads_lem}
use system_programming.FileSystem.Virtual.{
  count_blocks, free_title, used_title, info_string, skip_line, info_size, minixfs_virtual_read,
  info, myvir,
}

-- No byte is a newline.
abbrev OneLine : List ℕ → Type 0
OneLine [] = Unit {0}
OneLine (c ∷ cs) = ((c == newline) ≡ false) × OneLine cs

Digits-OneLine : (s : List ℕ) → Digits s → OneLine s
unfolding is_digit_byte
Digits-OneLine [] h = tt
Digits-OneLine (c ∷ s) h = (ground arith, Digits-OneLine s h.1)

OneLine-append : (s t : List ℕ) → OneLine s → OneLine t → OneLine (s ++ t)
OneLine-append [] t h k = k
OneLine-append (c ∷ s) t h k = (h.0, OneLine-append s t h.1 k)

skip_line-append : (s t : List ℕ) → OneLine s → skip_line (s ++ newline ∷ t) ≡ some (length s)
unfolding skip_line
skip_line-append [] t h = refl
skip_line-append (c ∷ s) t h = rw (h.0, skip_line-append s t h.1) refl

titled_lem : (title : List ℕ) (n : ℕ) → OneLine title → OneLine (title ++ decimal n)
titled_lem title n h =
    OneLine-append title (decimal n) h (Digits-OneLine (decimal n) (decimal-Digits n))

title_free : OneLine free_title
title_free = (
  refl,
  (
    refl,
    (refl, (refl, (refl, (refl, (refl, (refl, (refl, (refl, (refl, (refl, (refl, tt))))))))))),
  ),
)

title_used : OneLine used_title
title_used = (
  refl,
  (
    refl,
    (refl, (refl, (refl, (refl, (refl, (refl, (refl, (refl, (refl, (refl, (refl, tt))))))))))),
  ),
)

two_lines :
    (s t : List ℕ)
    → OneLine s
    → OneLine t
    → info_size (s ++ newline ∷ (t ++ newline ∷ []))
      ≡ some (length (s ++ newline ∷ (t ++ newline ∷ [])))
unfolding info_size
two_lines s t h k =
    let str = s ++ newline ∷ (t ++ newline ∷ []) in
    let total : length s + 1 + length t + 1 ≡ length str =
      omega
        (arith, length-append s (newline ∷ (t ++ newline ∷ [])), length-append t (newline ∷ [])) in
    rw
      (
        skip_line-append s (t ++ newline ∷ []) h,
        drop-right 1 s (newline ∷ (t ++ newline ∷ [])),
        skip_line-append t [] k,
      )
      (ap some total)

-- The string has two lines, and the loops find its end.
info_size-info_string : (a b : ℕ) → info_size (info_string a b) ≡ some (length (info_string a b))
unfolding info_string
info_size-info_string a b =
    let first = free_title ++ decimal a in
    let second = used_title ++ decimal b in
    let last : List ℕ = newline ∷ [] in
    let tail : used_title ++ (decimal b ++ last) ≡ second ++ last =
      sym (append_assoc used_title (decimal b) last) in
    let whole : info_string a b ≡ first ++ newline ∷ (second ++ last) =
      sym (append_assoc free_title (decimal a) _) ∙ ap (λ t. first ++ newline ∷ t) tail in
    ap info_size whole
    ∙ two_lines first second (titled_lem free_title a title_free)
        (titled_lem used_title b title_used)
    ∙ ap (λ str. some (length str)) (sym whole)

-- The map has a byte, 0 or 1, for each block.
abbrev Marks : ℕ → List ℕ → Type 0
Marks zero bytes = Unit {0}
Marks (suc k) [] = ⊥
Marks (suc k) (b ∷ bytes) = ((b ≡ 0) ⊎ (b ≡ 1)) × Marks k bytes

-- How many of the first k bytes are n.
abbrev pub times : ℕ → ℕ → List ℕ → ℕ
times n zero bytes = 0
times n (suc k) [] = 0
times n (suc k) (b ∷ bytes) = let rest = times n k bytes in if b == n then suc rest else rest

count_blocks_lem :
    (k : ℕ) (bytes : List ℕ)
    → Marks k bytes
    → (count_blocks k bytes ≡ some (times 0 k bytes, times 1 k bytes))
      × (times 0 k bytes + times 1 k bytes ≡ k)
unfolding count_blocks
count_blocks_lem zero bytes h = (refl, refl)
count_blocks_lem (suc k) [] h = absurd h
count_blocks_lem (suc k) (b ∷ bytes) (mark, h) =
    let (e, sum) = count_blocks_lem k bytes h in
    elim mark [
      | inl free ↦ (rw (e, free) refl, rw free (omega (arith, sum)))
      | inr taken ↦ (rw (e, taken) refl, rw taken (omega (arith, sum)))
    ]

-- For the virtual files, a map of data blocks with a byte, 0 or 1, for each block, and an offset
-- and count whose sum is below 2^64: minixfs_virtual_read returns the bytes of the string with the
-- numbers of free and used blocks from the offset on, as many as asked for and as there are. The
-- free blocks are those with byte 0 in the map, the used ones those with byte 1, and they are all
-- blocks.
pub minixfs_virtual_read-slice :
    (fs : FileSystem) (path : List ℕ) (count off : ℕ)
    → (equals path info || equals path myvir) ≡ true
    → Marks fs.dblock_count fs.data_map
    → off + count < size_mod
    → (minixfs_virtual_read fs path count off
        ≡ some (
            reads fs off (
              slice off count (
                info_string
                  (times 0 fs.dblock_count fs.data_map)
                  (times 1 fs.dblock_count fs.data_map)))))
      × (times 0 fs.dblock_count fs.data_map + times 1 fs.dblock_count fs.data_map
          ≡ fs.dblock_count)
unfolding minixfs_virtual_read
minixfs_virtual_read-slice fs path count off named marks fits =
    let unused = times 0 fs.dblock_count fs.data_map in
    let used = times 1 fs.dblock_count fs.data_map in
    let (counted, sum) = count_blocks_lem fs.dblock_count fs.data_map marks in
    let str = info_string unused used in
    let low : (off + count) % size_mod ≡ off + count = omega (arith, fits) in
    let still : off ≡ off + 0 = omega arith in
    (
      rw (named, counted, info_size-info_string unused used, low)
          (elim (Bool-cases (leb (length str) off)) [
            | inl past ↦
                rw (past, slice_behind off count str (leb→le _ _ past))
                  (ap (λ o. some (fs, done 0 o [])) still)
            | inr before ↦
                let inside = leb→gt (length str) off before in
                elim (Bool-cases (ltb (length str) (off + count))) [
                  | inl cut ↦
                      let long = ltb→lt _ _ cut in
                      rw (before, cut, slice-over off count str (omega (arith, long)))
                        (reads_lem fs off (length str - off) _
                          (length-slice off (length str - off) str (omega (arith, inside)))
                          (omega (arith, long, fits, inside)))
                  | inr short ↦
                      let whole = ltb→ge _ _ short in
                      rw (before, short)
                        (reads_lem fs off count _ (length-slice off count str whole) fits)
                ]
          ]),
      sum,
    )
