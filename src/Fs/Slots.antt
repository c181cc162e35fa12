-- ===== src/Fs/Slots.antt =====
-- The blocks that an inode of xv6-core/fs.c names, and the bytes they hold.
use os_lab.Prelude.{
  ℕ, ◌+◌, ◌-◌, ◌*◌, ◌/◌, ◌%◌, ◌<◌, ◌≤◌, ◌≡◌, ◌≢◌, refl, ap, true, false, ◌==◌, ltb, if◌then◌else◌,
  arith,
}
use os_lab.Fs.Defs.{byte, word, Disk}
use os_lab.Fs.Bitmap.{in_use}
use os_lab.Fs.Alloc.{Layout}
use os_lab.Fs.Inode.{Inode}

-- The addresses in the inode are the slots below 13, the entries of its indirect block the 128 after them.
-- An empty slot holds 0.
unfoldable pub slot : Inode → Disk → ℕ → ℕ
slot i d k =
    if ltb k 13
    then i.addrs k
    else (if i.addrs 12 == 0 then 0 else word (d.block (i.addrs 12)) (4 * (k - 13)))

-- The slot of the file's block `bn`.
unfoldable pub place : ℕ → ℕ
place bn = if ltb bn 12 then bn else bn + 1

-- The byte at `p`: 0 where the file has no block.
unfoldable pub content : Inode → Disk → ℕ → ℕ
content i d p =
    if slot i d (place (p / 512)) == 0
    then 0
    else byte (d.block (slot i d (place (p / 512)))) (p % 512)

pub record Held (meta : ℕ) (d : Disk) (x : ℕ) : Type 0 where
  pub above : meta ≤ x
  pub inside : x < d.sb.size
  pub used : in_use d x ≡ true

-- The blocks of an inode are in use, and no two of its slots share one.
pub record FileOk (meta : ℕ) (i : Inode) (d : Disk) : Type 0 where
  pub layout : Layout meta d
  pub held : (k : ℕ) → k < 141 → slot i d k ≢ 0 → Held meta d (slot i d k)
  pub apart : (k l : ℕ) → k < 141 → l < 141 → slot i d k ≢ 0 → slot i d k ≡ slot i d l → k ≡ l

pub place_bound : (bn : ℕ) → bn < 140 → place bn < 141
unfolding place
place_bound bn h = ground arith

pub place_apart : (bn : ℕ) → place bn ≢ 12
unfolding place
place_apart bn = ground arith

pub place_eq : (a b : ℕ) → place a ≡ place b → a ≡ b
unfolding place
place_eq a b = ground arith

pub slot-addrs : (i : Inode) (d : Disk) (k : ℕ) → k < 13 → slot i d k ≡ i.addrs k
unfolding slot
slot-addrs i d k h = ground arith

pub slot-entry :
    (i : Inode) (d : Disk) (k : ℕ)
    → 13 ≤ k
    → i.addrs 12 ≢ 0
    → slot i d k ≡ word (d.block (i.addrs 12)) (4 * (k - 13))
unfolding slot
slot-entry i d k h ne = ground arith

pub slot-none : (i : Inode) (d : Disk) (k : ℕ) → 13 ≤ k → i.addrs 12 ≡ 0 → slot i d k ≡ 0
unfolding slot
slot-none i d k h e = ground arith

pub content_hole :
    (i : Inode) (d : Disk) (p : ℕ) → slot i d (place (p / 512)) ≡ 0 → content i d p ≡ 0
unfolding content
content_hole i d p e =
    let t : (slot i d (place (p / 512)) == 0) ≡ true = ground arith in rw (t) refl

pub content-at :
    (i : Inode) (d : Disk) (p a : ℕ)
    → slot i d (place (p / 512)) ≡ a
    → a ≢ 0
    → content i d p ≡ byte (d.block a) (p % 512)
unfolding content
content-at i d p a e ne =
    let t : (slot i d (place (p / 512)) == 0) ≡ false = ground (arith, e) in
    rw (t) (ap (λ x. byte (d.block x) (p % 512)) e)

-- The size of a file has no part in the blocks it names.
pub slot_size : (i : Inode) (d : Disk) (n k : ℕ) → slot (record i { size = n }) d k ≡ slot i d k
unfolding slot
slot_size i d n k = refl

pub content_size :
    (i : Inode) (d : Disk) (n p : ℕ) → content (record i { size = n }) d p ≡ content i d p
unfolding content slot
content_size i d n p = refl

pub FileOk-size :
    (meta : ℕ) (i : Inode) (d : Disk) (n : ℕ)
    → FileOk meta i d
    → FileOk meta (record i { size = n }) d
unfolding slot
FileOk-size meta i d n ok = record { layout = ok.layout; held = ok.held; apart = ok.apart }
