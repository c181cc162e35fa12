-- ===== src/Dir/Tests.antt =====
-- A directory of two entries, one of them not in use, and a path.
use os_lab.Prelude.{ℕ, false, none, ◌==◌, if◌then◌else◌}
use os_lab.Fs.Defs.{Disk}
use os_lab.Fs.Inode.{Inode, Devsw}
use os_lab.Icache.Defs.{Icache}
use os_lab.Dir.Defs.{Name}

-- Block 5 has the entry "a" of inode 3, and an empty one.
abbrev disk : Disk
disk = record {
  sb = record {
    size = 40;
    nblocks = 35;
    ninodes = 8;
    nlog = 0;
    logstart = 2;
    inodestart = 2;
    bmapstart = 4;
  };
  block = λ b i.
      if b == 4
      then (if i == 0 then 63 else 0)
      else (if b == 5 then (if i == 0 then 3 else (if i == 2 then 97 else 0)) else 0);
}

abbrev dir : Inode
dir = record {
  inum = 1;
  type = 1;
  major = 0;
  minor = 0;
  nlink = 1;
  size = 32;
  addrs = λ k. if k == 0 then 5 else 0;
}

abbrev no_devices : Devsw
no_devices = record { read = λ m. none; write = λ m. none }

-- "b"
abbrev b : Name
b k = if k == 0 then 98 else 0

abbrev no_cache : Icache
no_cache k = record {
  dev = 0;
  inum = 0;
  ref = 0;
  lock = record { locked = false; pid = 0 };
  valid = false;
  inode = dir;
}

abbrev zeros : ℕ → ℕ
zeros k = 0
