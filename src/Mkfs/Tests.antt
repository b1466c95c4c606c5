-- ===== src/Mkfs/Tests.antt =====
-- Tests of fs/mkfs.c.
use frog_os.Prelude.{◌+◌, ◌-◌, ◌*◌, ◌≡◌, refl, arith}
use frog_os.Mkfs.{mkfs, link_nodes}
use frog_os.Mkfs.FreeLists.{Visits, range, mkfs-Visits}

-- Inode 1 is followed by node 2, whose link lies where inode 1 begins: an inode takes 32 bytes.
link_of_inode_1 : (mkfs 20).words (2 * 1024 + 1 * 16) ≡ 2
unfolding mkfs link_nodes
link_of_inode_1 = refl

link_inside_inode_1 : (mkfs 20).words (2 * 1024 + 1 * 32) ≡ 3
unfolding mkfs link_nodes
link_inside_inode_1 = refl

mkfs-Visits_example :
    let image = mkfs 1024 in
    let s = image.superblock in
    Visits image.words (s.inode_start * 1024) 16 s.free_inode_list (range 127 1)
    × Visits image.words 0 1024 s.free_data_list (range (1024 - s.data_start) s.data_start)
mkfs-Visits_example = mkfs-Visits 1024 (omega arith) (omega arith)
