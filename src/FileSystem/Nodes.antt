-- ===== src/FileSystem/Nodes.antt =====
-- finding_filesystems/minixfs.c: minixfs_chmod and minixfs_chown.
use Prim.Native.Nat.{bit_or}
use system_programming.Clib.Bits.{bit_or-disjoint}
use system_programming.Base.{
  arith, ◌≡◌, ◌-◌, [], refl, ◌<◌, ℕ, ◌*◌, ◌/◌, ◌%◌, ◌^◌, ◌==◌, if◌then◌else◌, List, Option, none,
  some, ◌>>=◌, get_elem?,
}
use system_programming.FileSystem.Disk.{
  Inode, FileSystem, Utils, enoent, Answer, failed, done, set_node,
}

-- strdup of the virtual path, or the path.
abbrev or_else : Option (List ℕ) → List ℕ → List ℕ
or_else none path = path
or_else (some mypath) path = mypath

-- `mode` and `perm` are of type uint16_t.
unfoldable pub new_mode : Utils → ℕ → ℕ → ℕ
new_mode u mode new_permissions =
    let file_type = mode / 2 ^ u.rwx_bits_number in
    let perm = new_permissions % 2 ^ 16 % 2 ^ 9 in
    bit_or (file_type * 2 ^ u.rwx_bits_number) perm % 2 ^ 16

abbrev on_node : (Inode → Inode) → FileSystem → Option ℕ → Option (FileSystem × Answer)
on_node f fs none = some (fs, failed enoent)
on_node f fs (some i) =
    get_elem? fs.inode_root i >>= λ node. some (set_node fs i (f node), done 0 0 [])

-- The int `new_permissions` is its bit pattern.
unfoldable pub minixfs_chmod : Utils → FileSystem → ℕ → List ℕ → ℕ → Option (FileSystem × Answer)
minixfs_chmod u fs now path new_permissions =
    on_node (λ node. record node { mode = new_mode u node.mode new_permissions; ctim = now }) fs
      (u.get_inode fs (or_else (u.is_virtual_path (some path)) path))

-- (uid_t)-1 and (gid_t)-1.
abbrev pub keep_id : ℕ
keep_id = 2 ^ 32 - 1

unfoldable pub minixfs_chown :
    Utils → FileSystem → ℕ → List ℕ → ℕ → ℕ → Option (FileSystem × Answer)
minixfs_chown u fs now path owner group =
    on_node
      (λ node. record node {
        uid = if owner == keep_id then node.uid else owner;
        gid = if group == keep_id then node.gid else group;
        ctim = now;
      })
      fs (u.get_inode fs (or_else (u.is_virtual_path (some path)) path))

-- With 9 permission bits, as the mask 0x01ff has them, minixfs_chmod changes these bits of the mode and
-- no others.
new_mode-fields :
    (u : Utils) (mode new_permissions : ℕ)
    → u.rwx_bits_number ≡ 9
    → mode < 2 ^ 16
    → (new_mode u mode new_permissions / 2 ^ 9 ≡ mode / 2 ^ 9)
      × (new_mode u mode new_permissions % 2 ^ 9 ≡ new_permissions % 2 ^ 9)
unfolding new_mode
new_mode-fields u mode new_permissions nine short =
    let joined =
      bit_or-disjoint 9 (mode / 2 ^ 9) (new_permissions % 2 ^ 16 % 2 ^ 9) (omega arith) in
    rw (nine, joined) (omega arith, omega arith)

-- With 9 permission bits, minixfs_chmod of a path that is not virtual and leads to an inode
-- replaces the permission bits of its mode, keeps the file type, sets the time of change and leaves
-- all else as it was.
minixfs_chmod-new_mode :
    (u : Utils) (fs : FileSystem) (now : ℕ) (path : List ℕ) (new_permissions i : ℕ) (node : Inode)
    → u.rwx_bits_number ≡ 9
    → u.is_virtual_path (some path) ≡ none
    → u.get_inode fs path ≡ some i
    → get_elem? fs.inode_root i ≡ some node
    → node.mode < 2 ^ 16
    → (m : ℕ) × (minixfs_chmod u fs now path new_permissions
        ≡ some (set_node fs i (record node { mode = m; ctim = now }), done 0 0 []))
      × (m / 2 ^ 9 ≡ node.mode / 2 ^ 9)
      × (m % 2 ^ 9 ≡ new_permissions % 2 ^ 9)
unfolding minixfs_chmod
minixfs_chmod-new_mode u fs now path new_permissions i node nine plain found there short =
    let (kept, set_bits) = new_mode-fields u node.mode new_permissions nine short in
    (new_mode u node.mode new_permissions, rw (plain, found, there) refl, kept, set_bits)
