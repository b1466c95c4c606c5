-- ===== src/Mkfs/FreeLists.antt =====
-- fs/mkfs.c: both free lists of a new image visit every free node once.
use frog_os.Prelude.{
  ℕ, zero, suc, ◌+◌, ◌-◌, ◌*◌, ◌^◌, ◌≤◌, ◌<◌, ◌≡◌, ◌≢◌, refl, ◌∙◌, List, [], ◌∷◌, u32, update,
  update_self, update_ne, subst, ◌==◌, Bool-cases, eq_of_==, ne_of_==, arith, inl, inr,
}
use frog_os.Mkfs.{link_nodes, link_list, mkfs, last_node}

-- The nodes that a list visits from `node` on, read off an image.
pub data Visits (words : ℕ → ℕ) (start size : ℕ) : ℕ → List ℕ → Type 0 where
  stop : Visits words start size last_node []
  go :
      {node : ℕ} {rest : List ℕ}
      → node ≢ last_node
      → Visits words start size (words (start + node * size)) rest
      → Visits words start size node (node ∷ rest)

-- `n` numbers from `i` on.
abbrev pub range : (n i : ℕ) → List ℕ
range zero i = []
range (suc n) i = i ∷ range n (i + 1)

-- Each address that is no `next_node` of the linked nodes keeps what it held.
link_nodes-get_other :
    (n i start size address : ℕ) (words : ℕ → ℕ)
    → ((j : ℕ) → i ≤ j → j < i + n → start + j * size ≢ address)
    → link_nodes n i start size words address ≡ words address
unfolding link_nodes
link_nodes-get_other zero i start size address words h = refl
link_nodes-get_other (suc n) i start size address words h =
    link_nodes-get_other n (i + 1) start size address
      (update words (start + i * size) (u32 (i + 1))) (λ j lo hi. h j (omega arith) (omega arith))
    ∙ ground (arith, h i (omega arith) (omega arith))

-- Nodes at different indices lie at different addresses.
abbrev Spread : (start size : ℕ) → Type 0
Spread start size = (i j : ℕ) → i ≢ j → start + i * size ≢ start + j * size

link_nodes-get :
    (n i start size j : ℕ) (words : ℕ → ℕ)
    → Spread start size
    → i ≤ j
    → j < i + n
    → link_nodes n i start size words (start + j * size) ≡ u32 (j + 1)
unfolding link_nodes
link_nodes-get zero i start size j words apart lo hi = absurd (omega arith)
link_nodes-get (suc n) i start size j words apart lo hi = elim (Bool-cases (i == j)) [
  | inl same ↦
      let e = eq_of_== i j same in
      link_nodes-get_other n (i + 1) start size (start + j * size)
        (update words (start + i * size) (u32 (i + 1))) (λ k low high. apart k j (omega arith))
      ∙ rw e (update_self words (start + j * size) (u32 (j + 1)))
  | inr other ↦
      let ne = ne_of_== i j other in
      link_nodes-get n (i + 1) start size j (update words (start + i * size) (u32 (i + 1))) apart
        (omega arith) (omega arith)
]

-- An image that links the nodes `first` to `count - 1`.
record Links (words : ℕ → ℕ) (start size first count : ℕ) : Type 0 where
  inner : (j : ℕ) → first ≤ j → j + 1 < count → words (start + j * size) ≡ j + 1
  outer : words (start + (count - 1) * size) ≡ last_node

link_list-Links :
    (first count start size : ℕ) (words : ℕ → ℕ)
    → Spread start size
    → first < count
    → count < 2 ^ 31
    → Links (link_list first count start size words) start size first count
link_list-Links first count start size words apart some_nodes few = record {
  inner = λ j lo hi.
      update_ne (link_nodes (count - 1 - first) first start size words) (start + (count - 1) * size)
        last_node (start + j * size) (apart (count - 1) j (omega arith))
      ∙ link_nodes-get (count - 1 - first) first start size j words apart lo (omega arith)
      ∙ omega arith;
  outer =
      update_self (link_nodes (count - 1 - first) first start size words)
        (start + (count - 1) * size) last_node;
}

-- Following such links visits the nodes in order.
Links-Visits :
    (n node start size first count : ℕ) (words : ℕ → ℕ)
    → Links words start size first count
    → first ≤ node
    → node + suc n ≡ count
    → count < 2 ^ 31
    → Visits words start size node (range (suc n) node)
Links-Visits zero node start size first count words l lo e few =
    let end : count - 1 ≡ node = omega arith in
    let last : words (start + node * size) ≡ last_node = rw end at l.outer in
    go (omega arith) (rw last stop)
Links-Visits (suc n) node start size first count words l lo e few = go (omega arith) (
    rw (l.inner node lo (omega arith))
      (Links-Visits n (node + 1) start size first count words l (omega arith) (omega arith) few))

-- The second list leaves the first as it is, where it writes to other addresses.
link_list-Links_other :
    (first count start size first' count' start' size' : ℕ) (words : ℕ → ℕ)
    → first < count
    → first' < count'
    → ((i j : ℕ) → i < count → first' ≤ j → start' + j * size' ≢ start + i * size)
    → Links words start size first count
    → Links (link_list first' count' start' size' words) start size first count
link_list-Links_other first count start size first' count' start' size' words some other apart l =
    let keeps : (i : ℕ)
        → i < count
        → link_list first' count' start' size' words (start + i * size) ≡ words (start + i * size) =
      λ i h.
        update_ne (link_nodes (count' - 1 - first') first' start' size' words)
          (start' + (count' - 1) * size') last_node (start + i * size)
          (apart i (count' - 1) h (omega arith))
        ∙ link_nodes-get_other (count' - 1 - first') first' start' size' (start + i * size) words
            (λ j lo hi. apart i j h lo) in
    record {
      inner = λ j lo hi. keeps j (omega arith) ∙ l.inner j lo hi;
      outer = keeps (count - 1) (omega arith) ∙ l.outer;
    }

-- With 7 blocks at least, and their number in an int, the free inodes of the image are 1 to 127 and
-- the free blocks those from `data_start` on; each list visits them once, in order, and ends. The
-- node of inode `i` is the one at 16 * `i` bytes.
pub mkfs-Visits :
    (num_blocks : ℕ)
    → 7 ≤ num_blocks
    → num_blocks < 2 ^ 31
    → let image = mkfs num_blocks in
      let s = image.superblock in
      Visits image.words (s.inode_start * 1024) 16 s.free_inode_list (range 127 1)
      × Visits image.words 0 1024 s.free_data_list (range (num_blocks - s.data_start) s.data_start)
unfolding mkfs
mkfs-Visits num_blocks enough few =
    let inodes =
      link_list-Links 1 128 2048 16 (λ _. 0) (λ i j h. omega arith) (omega arith) (omega arith) in
    let words = link_list 1 128 2048 16 (λ _. 0) in
    let both =
      link_list-Links_other 1 128 2048 16 6 num_blocks 0 1024 words (omega arith) (omega arith)
        (λ i j h lo. omega arith) inodes in
    let blocks =
      link_list-Links 6 num_blocks 0 1024 words (λ i j h. omega arith) (omega arith) few in
    let image = link_list 6 num_blocks 0 1024 words in
    (
      Links-Visits 126 1 2048 16 1 128 image both (omega arith) refl (omega arith),
      subst (λ n. Visits image 0 1024 6 (range n 6)) {x = suc (num_blocks - 7)} (omega arith)
          (Links-Visits (num_blocks - 7) 6 0 1024 6 num_blocks image blocks (omega arith)
            (omega arith) few),
    )
