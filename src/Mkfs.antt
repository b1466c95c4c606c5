-- ===== src/Mkfs.antt =====
-- fs/mkfs.c and fs/fs.h: the file system image that `main` makes.
pub mod FreeLists
mod Tests
use frog_os.Prelude.{ℕ, zero, suc, ◌+◌, ◌-◌, ◌*◌, ◌/◌, ◌^◌, u32, update}

-- `superblock_t`, which lies in the first block.
pub record Superblock : Type 0 where
  pub number_of_blocks : ℕ
  pub number_of_inodes : ℕ
  pub inode_start : ℕ
  pub data_start : ℕ
  pub free_inode_list : ℕ
  pub free_data_list : ℕ

abbrev pub sizeof_inode : ℕ
sizeof_inode = 32

abbrev pub sizeof_free_inode : ℕ
sizeof_free_inode = 16

abbrev pub sizeof_free_data : ℕ
sizeof_free_data = 1024

-- `next_node` is -1 at the end of a list.
abbrev pub last_node : ℕ
last_node = 2 ^ 32 - 1

-- The image: the superblock, and the 32-bit number that was written at each byte address. A new file
-- is zero.
pub record Image : Type 0 where
  pub superblock : Superblock
  pub words : ℕ → ℕ

-- `free[i].next_node = i+1;` for `n` rounds from `i` on, the nodes being `size` bytes from `start` on.
pub link_nodes : (n i start size : ℕ) → (ℕ → ℕ) → ℕ → ℕ
link_nodes zero i start size words = words
link_nodes (suc n) i start size words =
    link_nodes n (i + 1) start size (update words (start + i * size) (u32 (i + 1)))

-- A list of the nodes `first` to `count - 1`.
abbrev pub link_list : (first count start size : ℕ) → (ℕ → ℕ) → ℕ → ℕ
link_list first count start size words =
    update (link_nodes (count - 1 - first) first start size words) (start + (count - 1) * size)
      last_node

abbrev pub num_inodes : ℕ
num_inodes = 128

abbrev pub make_superblock : (num_blocks : ℕ) → Superblock
make_superblock num_blocks =
    let data_start = 2 + num_inodes * sizeof_inode / 1024 in
    record {
      number_of_blocks = u32 num_blocks;
      number_of_inodes = num_inodes;
      inode_start = 2;
      data_start = data_start;
      free_inode_list = 1;
      free_data_list = data_start;
    }

-- `main`, from the number of blocks on; what maps and closes the file is left out.
pub mkfs : (num_blocks : ℕ) → Image
mkfs num_blocks =
    let s = make_superblock num_blocks in
    let inodes =
      link_list s.free_inode_list s.number_of_inodes (s.inode_start * 1024) sizeof_free_inode
        λ _. 0 in
    record { superblock = s; words = link_list s.data_start num_blocks 0 sizeof_free_data inodes }
