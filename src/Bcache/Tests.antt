-- ===== src/Bcache/Tests.antt =====
-- The buffer cache from boot.
use os_lab.Prelude.{
  ℕ, ◌+◌, ◌≡◌, refl, subst, true, false, some, ◌==◌, if◌then◌else◌, arith, List, ◌∷◌, ◌++◌,
}
use os_lab.Locks.Defs.{initsleeplock, holdingsleep, acquiresleep}
use os_lab.Bcache.Defs.{
  Bcache, done, is_block, set_buf, bget, brelse, binit, link_all, insert_front, walk, lock_buf,
  recycle, bget_cached, bget_unused,
}
use os_lab.Bcache.Walk.{find}
use os_lab.Bcache.Order.{Ordered, take, bget_lem}
use os_lab.Bcache.Bget.{Right, Ordered-set_buf}
use os_lab.Bcache.Reach.{boot, step, gets, Reach-Right, brelse_lem, split_at}

abbrev blank : Bcache
blank = record {
  buf = λ i. record {
    valid = false;
    dirty = false;
    dev = 0;
    blockno = 0;
    lock = record { locked = false; pid = 0 };
    refcnt = 0;
    bytes = λ k. 0;
  };
  links = record { next = λ i. 0; prev = λ i. 0 };
}

booted-Right : Right (binit blank)
booted-Right = Reach-Right blank (binit blank) (λ i. refl) boot

bget_lem_example :
    bget 4 1 9 (binit blank)
    ≡ take booted-Right.order
        (binit blank)
        4
        1
        9
        (find (is_block 1 9 (binit blank)) booted-Right.order)
bget_lem_example = bget_lem booted-Right.order (binit blank) 4 1 9 booted-Right.ordered

-- The first block goes to buffer 0, the last in the order.
abbrev filled : Bcache
filled =
    set_buf 0
      (record ((recycle 0 1 9 (binit blank)).buf 0) { lock = record { locked = true; pid = 4 } })
      (recycle 0 1 9 (binit blank))

first_block : bget 4 1 9 (binit blank) ≡ done (0, filled)
unfolding bget bget_cached bget_unused walk lock_buf recycle set_buf binit link_all insert_front
    acquiresleep initsleeplock
first_block = refl

Reach-Right_example : Right filled
Reach-Right_example = Reach-Right blank filled (λ i. refl) (step boot (gets 4 1 9 0 first_block))

parts : (xs : List ℕ) × (ys : List ℕ) × (booted-Right.order ≡ xs ++ 5 ∷ ys)
parts = split_at 5 booted-Right.order (booted-Right.ordered.all 5 (omega arith))

abbrev locked : Bcache
locked =
    set_buf 5
      (record ((binit blank).buf 5) { lock = record { locked = true; pid = 7 }; refcnt = 1 })
      (binit blank)

locked-Ordered : Ordered (parts.0 ++ 5 ∷ parts.1) locked
locked-Ordered =
    Ordered-set_buf (parts.0 ++ 5 ∷ parts.1) 5 _ (binit blank)
      (subst (λ zs. Ordered zs (binit blank)) (parts.2) booted-Right.ordered)

locked_held : holdingsleep 7 (locked.buf 5).lock ≡ true
unfolding holdingsleep set_buf
locked_held = refl

locked_count : (locked.buf 5).refcnt ≡ 0 + 1
unfolding set_buf
locked_count = refl

brelse_lem_example :
    (u : Bcache) × (brelse 7 5 locked ≡ some u)
    × ((u.buf 5).refcnt ≡ 0)
    × Ordered (if 0 == 0 then 5 ∷ parts.0 ++ parts.1 else parts.0 ++ 5 ∷ parts.1) u
brelse_lem_example =
    brelse_lem 7 5 0 (parts.0) (parts.1) locked locked-Ordered locked_held locked_count
