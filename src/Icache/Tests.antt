-- ===== src/Icache/Tests.antt =====
-- The cache of inodes, from boot: an inode is found, and a pointer to it copied.
use os_lab.Prelude.{ℕ, ◌<◌, ◌≡◌, refl, false, some, write, arith}
use os_lab.Fs.Defs.{Disk}
use os_lab.Fs.Inode.{Inode}
use os_lab.Icache.Defs.{Icache, iget, find_inode, remember, get_found, idup, add_ref, recycle}
use os_lab.Icache.Counts.{World, Step, get, dup, Counted, SameEntry}
use os_lab.Icache.Reach.{Step-Kept, AtBoot, boot, step, Reach-Counted}

abbrev no_inode : Inode
no_inode = record { inum = 0; type = 0; major = 0; minor = 0; nlink = 0; size = 0; addrs = λ k. 0 }

abbrev empty : Icache
empty k = record {
  dev = 0;
  inum = 0;
  ref = 0;
  lock = record { locked = false; pid = 0 };
  valid = false;
  inode = no_inode;
}

abbrev no_disk : Disk
no_disk = record {
  sb = record {
    size = 0;
    nblocks = 0;
    ninodes = 0;
    nlog = 0;
    logstart = 0;
    inodestart = 0;
    bmapstart = 0;
  };
  block = λ b i. 0;
}

abbrev start : World
start = record { cache = empty; disk = no_disk; refs = λ k. 0 }

abbrev one : World
one = record { cache = recycle 0 1 7 empty; disk = no_disk; refs = write (λ k. 0) 0 1 }

abbrev two : World
two = record { cache = add_ref 0 one.cache; disk = no_disk; refs = write one.refs 0 2 }

start-AtBoot : AtBoot start
start-AtBoot = record { unused = λ k. refl; no_refs = λ k. refl }

first_get : iget 1 7 empty ≡ some (0, recycle 0 1 7 empty)
unfolding iget find_inode remember get_found
first_get = refl

step_one : Step start one
step_one = get 1 7 0 one.cache first_get refl refl

step_two : Step one two
unfolding idup
step_two = dup 0 0 two.cache (omega arith) refl refl refl

start-Counted : Counted start
start-Counted = Reach-Counted start start start-AtBoot boot

Reach-Counted_example : Counted two
Reach-Counted_example =
    Reach-Counted start two start-AtBoot (step two (step one boot step_one) step_two)

one-Counted : Counted one
one-Counted = Reach-Counted start one start-AtBoot (step one boot step_one)

Step-Kept_example : Counted two × ((k : ℕ) → 0 < one.refs k → SameEntry (one.cache k) (two.cache k))
Step-Kept_example = Step-Kept one two one-Counted step_two
