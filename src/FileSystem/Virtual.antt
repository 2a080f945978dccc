-- ===== src/FileSystem/Virtual.antt =====
-- finding_filesystems/minixfs.c: minixfs_virtual_read, and minixfs_read with it.
pub mod Info
use system_programming.Base.{
  ℕ, zero, suc, ◌+◌, ◌-◌, ◌%◌, List, [], ◌∷◌, ◌++◌, ltb, leb, ◌==◌, ◌||◌, if◌then◌else◌, Option,
  none, some, ◌>>=◌, get_elem?, drop, take,
}
use system_programming.Clib.Strings.{newline, equals}
use system_programming.Clib.Decimal.{decimal}
use system_programming.FileSystem.Disk.{
  Inode, FileSystem, Utils, Errno, enoent, Answer, failed, done, size_mod,
}
use system_programming.FileSystem.Read.{read_node}

-- The loop over the map: how many bytes are 0 and how many are 1.
unfoldable pub count_blocks : ℕ → List ℕ → Option (ℕ × ℕ)
count_blocks zero bytes = some (0, 0)
count_blocks (suc k) [] = none
count_blocks (suc k) (b ∷ bytes) = count_blocks k bytes >>= λ (unused, used).
    some (if b == 0 then suc unused else unused, if b == 1 then suc used else used)

abbrev pub free_title : List ℕ
free_title =
    b'F' ∷ b'r' ∷ b'e' ∷ b'e' ∷ b' ' ∷ b'b' ∷ b'l' ∷ b'o' ∷ b'c' ∷ b'k' ∷ b's' ∷ b':' ∷ b' ' ∷ []

abbrev pub used_title : List ℕ
used_title =
    b'U' ∷ b's' ∷ b'e' ∷ b'd' ∷ b' ' ∷ b'b' ∷ b'l' ∷ b'o' ∷ b'c' ∷ b'k' ∷ b's' ∷ b':' ∷ b' ' ∷ []

-- sprintf(str, "Free blocks: %lu\nUsed blocks: %lu\n", unused, used).
unfoldable pub info_string : ℕ → ℕ → List ℕ
info_string unused used =
    free_title ++ (decimal unused ++ (newline ∷ used_title ++ (decimal used ++ newline ∷ [])))

-- `while (*p != '\n') { p++; sz++; }`: the bytes in front of the next newline. Past the end of the
-- string it is a fault.
unfoldable pub skip_line : List ℕ → Option ℕ
skip_line [] = none
skip_line (c ∷ cs) =
    let later = (skip_line cs >>= λ n. some (suc n)) in if c == newline then some 0 else later

-- `sz`, up to the second newline and with it.
unfoldable pub info_size : List ℕ → Option ℕ
info_size str = skip_line str >>= λ a. skip_line (drop (a + 1) str) >>= λ b. some (a + 1 + b + 1)

abbrev pub info : List ℕ
info = b'i' ∷ b'n' ∷ b'f' ∷ b'o' ∷ []

abbrev pub myvir : List ℕ
myvir = b'm' ∷ b'y' ∷ b'v' ∷ b'i' ∷ b'r' ∷ []

unfoldable pub minixfs_virtual_read : FileSystem → List ℕ → ℕ → ℕ → Option (FileSystem × Answer)
minixfs_virtual_read fs path count off =
    if equals path info || equals path myvir
    then (count_blocks fs.dblock_count fs.data_map >>= λ (unused, used).
        let str = info_string unused used in
        info_size str >>= λ sz.
        let count' = if ltb sz ((off + count) % size_mod) then sz - off else count in
        if leb sz off
        then some (fs, done 0 off [])
        else some (fs, done count' ((off + count') % size_mod) (take count' (drop off str))))
    else some (fs, failed enoent)

abbrev read_at : Utils → FileSystem → ℕ → ℕ → ℕ → Option ℕ → Option (FileSystem × Answer)
read_at u fs now count off none = some (fs, failed enoent)
read_at u fs now count off (some i) =
    get_elem? fs.inode_root i >>= λ node. read_node u fs i node now count off

abbrev read_path : Utils → FileSystem → ℕ → Option (List ℕ) → ℕ → ℕ → Option (FileSystem × Answer)
read_path u fs now none count off = some (fs, failed enoent)
read_path u fs now (some path) count off = read_at u fs now count off (u.get_inode fs path)

abbrev read_virtual :
    Utils
    → FileSystem
    → ℕ
    → Option (List ℕ)
    → ℕ
    → ℕ
    → Option (List ℕ)
    → Option (FileSystem × Answer)
read_virtual u fs now path count off none = read_path u fs now path count off
read_virtual u fs now path count off (some virtual_path) =
    minixfs_virtual_read fs virtual_path count off

-- `now` is what clock_gettime gives.
unfoldable pub minixfs_read :
    Utils → FileSystem → ℕ → Option (List ℕ) → ℕ → ℕ → Option (FileSystem × Answer)
minixfs_read u fs now path count off = read_virtual u fs now path count off (u.is_virtual_path path)
