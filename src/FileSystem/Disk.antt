-- ===== src/FileSystem/Disk.antt =====
-- finding_filesystems/minixfs.c: the file system in memory. minixfs.h and minixfs_utils.c are not in
-- the repository: their sizes and functions are the fields of `Utils`.
use system_programming.Base.{
  ◌^◌, ℕ, zero, suc, List, [], ◌++◌, ltb, ◌==◌, if◌then◌else◌, Option, none, some, ◌>>=◌, Bool,
  get_elem?, set, take, drop,
}

pub record Inode : Type 0 where
  pub uid : ℕ
  pub gid : ℕ
  pub mode : ℕ
  pub atim : ℕ
  pub mtim : ℕ
  pub ctim : ℕ
  pub size : ℕ
  pub direct : List ℕ
  pub indirect : ℕ

abbrev pub DataBlock : Type 0
DataBlock = List ℕ

-- `data_map` is what GET_DATA_MAP gives: a byte for each of the `dblock_count` blocks.
pub record FileSystem : Type 0 where
  pub dblock_count : ℕ
  pub data_map : List ℕ
  pub inode_root : List Inode
  pub data_root : List DataBlock

-- `rwx_bits_number` is RWX_BITS_NUMBER. `barray` reads a block as its array of data_block_number; `get_inode` gives the place in inode_root,
-- or NULL; `min_blockcount` gives whether it succeeded.
pub record Utils : Type 0 where
  pub block_size : ℕ
  pub num_direct : ℕ
  pub num_indirect : ℕ
  pub rwx_bits_number : ℕ
  pub barray : DataBlock → List ℕ
  pub is_virtual_path : Option (List ℕ) → Option (List ℕ)
  pub get_inode : FileSystem → List ℕ → Option ℕ
  pub min_blockcount : FileSystem → List ℕ → ℕ → FileSystem × Bool

pub data Errno : Type 0 where
  enoent : Errno
  enospc : Errno

-- The return value: -1 with errno, or the count with the new `*off` and the bytes put into `buf`.
pub data Answer : Type 0 where
  failed : Errno → Answer
  done : ℕ → ℕ → List ℕ → Answer

abbrev pub size_mod : ℕ
size_mod = 2 ^ 64

-- A number of blocks is an int. One that does not fit is not followed: `none`.
unfoldable pub to_int : ℕ → Option ℕ
to_int n = if ltb n (2 ^ 31) then some n else none

unfoldable pub set_node : FileSystem → ℕ → Inode → FileSystem
set_node fs i node = record fs { inode_root = set fs.inode_root i node }

-- `barray` of the inode: a block number that is none of the data blocks' is a fault.
unfoldable pub indirect_table : Utils → List DataBlock → Inode → Option (List ℕ)
indirect_table u blocks node = get_elem? blocks node.indirect >>= λ block. some (u.barray block)

-- memcpy of `n` bytes from the block in `table` at `i`, from `start` on. The table is read at any `n`;
-- the block is not read for no bytes.
unfoldable pub copy_from : List DataBlock → List ℕ → ℕ → ℕ → ℕ → Option (List ℕ)
copy_from blocks table i start n = get_elem? table i >>= λ d.
    if n == 0 then some [] else (get_elem? blocks d >>= λ block. some (take n (drop start block)))

-- `rounds` whole blocks from the one in `table` at `i` on, one after the other.
unfoldable pub copy_blocks : ℕ → List DataBlock → List ℕ → ℕ → ℕ → Option (List ℕ)
copy_blocks size blocks table i zero = some []
copy_blocks size blocks table i (suc k) = copy_from blocks table i 0 size >>= λ bytes.
    copy_blocks size blocks table (suc i) k >>= λ rest. some (bytes ++ rest)

-- Appends what a copy gives to what is in the buffer.
abbrev pub then_copy : Option (List ℕ) → Option (List ℕ) → Option (List ℕ)
then_copy a b = a >>= λ x. b >>= λ y. some (x ++ y)
