-- ===== src/Proc/Steps.antt =====
-- exit, wait, kill, sleep, wakeup, yield and the scheduler of xv6-core/proc.c.
use os_lab.Prelude.{
  ℕ, zero, suc, ◌+◌, Bool, true, false, not, ◌&&◌, ◌||◌, Option, none, some, [], ◌∷◌, ◌==◌,
  if◌then◌else◌, replicate,
}
use os_lab.Proc.Defs.{
  nproc, Chan, Proc, Ptable, is_zombie, is_sleeping, is_runnable, chan_eq, is_child_of, put,
  find_slot, unused, sleeping, runnable, running, zombie, nowhere, on_proc,
}

-- `wakeup1` over the whole table.
unfoldable pub wakeup1 : Chan → (ℕ → Proc) → ℕ → Proc
wakeup1 c f i =
    if is_sleeping (f i).state && chan_eq (f i).chan c
    then record (f i) { state = runnable }
    else f i

-- One round of the loop of `exit` that passes abandoned children to init.
unfoldable pub pass_one : ℕ → ℕ → ℕ → (ℕ → Proc) → ℕ → Proc
pass_one init cur i f =
    if is_child_of cur (f i).parent
    then (if is_zombie (f i).state
        then wakeup1 (on_proc init) (put f i (record (f i) { parent = some init }))
        else put f i (record (f i) { parent = some init }))
    else f

-- The loop over `n` slots from `i` on.
unfoldable pub pass_children : ℕ → ℕ → ℕ → ℕ → (ℕ → Proc) → ℕ → Proc
pass_children init cur zero i f = f
pass_children init cur (suc n) i f = pass_children init cur n (i + 1) (pass_one init cur i f)

abbrev pub parent_chan : Option ℕ → Chan
parent_chan none = nowhere
parent_chan (some j) = on_proc j

-- The body of `exit` by process `cur`; the references in `ofile` and `cwd` are given up through
-- fileclose and iput.
unfoldable pub exit_table : ℕ → ℕ → (ℕ → Proc) → ℕ → Proc
exit_table init cur f =
    let closed = put f cur (record (f cur) { ofile = replicate 16 0; cwd = 0 }) in
    let passed = pass_children init cur nproc 0 (wakeup1 (parent_chan (f cur).parent) closed) in
    put passed cur (record (passed cur) { state = zombie })

-- `exit` by process `cur`; none is the panic "init exiting".
unfoldable pub exit : ℕ → ℕ → Ptable → Option Ptable
exit init cur t =
    if cur == init then none else some (record t { proc = exit_table init cur t.proc })

pub data WaitResult : Type 0 where
  -- the pid of the child, and its slot
  reaped : ℕ → ℕ → WaitResult
  no_children : WaitResult
  waits : WaitResult

-- The scan of `wait` from slot `i` on; `have` is havekids.
unfoldable pub wait_scan : ℕ → Bool → ℕ → ℕ → (ℕ → Proc) → WaitResult
wait_scan cur have zero i f = if not have || (f cur).killed then no_children else waits
wait_scan cur have (suc n) i f =
    let found = reaped (f i).pid i in
    let kin = is_child_of cur (f i).parent in
    let rest = wait_scan cur (have || kin) n (i + 1) f in
    if kin && is_zombie (f i).state then found else rest

-- What `wait` leaves in the slot of the child that it reaps.
unfoldable pub reap : Proc → Proc
reap p = record p {
  kstack = false;
  pgdir = false;
  pid = 0;
  parent = none;
  name = 0 ∷ [];
  killed = false;
  state = unused;
}

unfoldable pub after_wait : ℕ → Ptable → WaitResult → Ptable
after_wait cur t (reaped pid i) = record t { proc = put t.proc i (reap (t.proc i)) }
after_wait cur t no_children = t
after_wait cur t waits = record t {
  proc = put t.proc cur (record (t.proc cur) { chan = on_proc cur; state = sleeping });
}

-- One round of `wait` by process `cur`; where it waits, it then sleeps on its own slot.
unfoldable pub wait : ℕ → Ptable → Ptable × WaitResult
wait cur t = let r = wait_scan cur false nproc 0 t.proc in (after_wait cur t r, r)

unfoldable pub kill_at : Ptable → Option ℕ → Ptable × Bool
kill_at t none = (t, false)
kill_at t (some i) = (
  record t {
    proc = put t.proc i (record (t.proc i) {
      killed = true;
      state = if is_sleeping (t.proc i).state then runnable else (t.proc i).state;
    });
  },
  true,
)

-- `kill`; the result says whether the pid was found.
unfoldable pub kill : ℕ → Ptable → Ptable × Bool
kill pid t = kill_at t (find_slot (λ p. p.pid == pid) nproc 0 t.proc)

-- `sleep` up to sched, and after it.
unfoldable pub sleep : ℕ → Chan → Ptable → Ptable
sleep cur c t = record t {
  proc = put t.proc cur (record (t.proc cur) { chan = c; state = sleeping });
}

unfoldable pub awake : ℕ → Ptable → Ptable
awake cur t = record t { proc = put t.proc cur (record (t.proc cur) { chan = nowhere }) }

unfoldable pub wakeup : Chan → Ptable → Ptable
wakeup c t = record t { proc = wakeup1 c t.proc }

unfoldable pub yield : ℕ → Ptable → Ptable
yield cur t = record t { proc = put t.proc cur (record (t.proc cur) { state = runnable }) }

-- The scheduler at slot `i`.
unfoldable pub schedule : ℕ → Ptable → Ptable
schedule i t =
    if is_runnable (t.proc i).state
    then record t { proc = put t.proc i (record (t.proc i) { state = running }) }
    else t

-- `sys_get_parent_pid` called by `cur`; none where it would follow a null pointer.
unfoldable pub get_parent_pid : ℕ → Ptable → Option ℕ
get_parent_pid cur t = elim (t.proc cur).parent [ none ↦ none | some p ↦ some (t.proc p).pid ]
