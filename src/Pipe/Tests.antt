-- ===== src/Pipe/Tests.antt =====
-- Runs of the pipe code, and the theorems at concrete pipes.
use os_lab.Prelude.{ℕ, ◌≡◌, refl, true, false, List, [], ◌∷◌, ◌++◌, arith, take, replicate, ◌-◌}
use os_lab.Pipe.Defs.{
  Pipe, pipesize, failed, pipe_init, is_full, is_empty, put, next_byte, advance, write_loop,
  read_loop, piperead,
}
use os_lab.Pipe.Contents.{used, contents, IsValid}
use os_lab.Pipe.Calls.{pipewrite}
use os_lab.Pipe.History.{
  Link, Reach, Step, received-append-contents, killed_write_wakes_none, after_write,
}

abbrev page : List ℕ
page = replicate 512 7

-- Two bytes in the buffer, at the top of the counters' range.
abbrev wrapping : Pipe
wrapping = record { buf = page; nread = 4294967295; nwrite = 1; readopen = true; writeopen = true }

wrapping-IsValid : IsValid wrapping
unfolding used
wrapping-IsValid = omega arith

write_then_read :
    (piperead false (pipewrite false wrapping (1 ∷ 2 ∷ [])).pipe 3).got ≡ 7 ∷ 7 ∷ 1 ∷ []
unfolding piperead pipewrite read_loop write_loop put is_full is_empty next_byte advance
write_then_read = refl

abbrev fresh : Link
fresh = record {
  pipe = pipe_init page;
  writer_asleep = false;
  reader_asleep = false;
  sent = [];
  received = [];
}

-- The writer fills the buffer and sleeps.
abbrev filled : Link
filled = after_write fresh (replicate 600 3) (pipewrite false fresh.pipe (replicate 600 3))

filled-Reach : Reach page filled
filled-Reach = Reach.later Reach.start (Step.write (replicate 600 3))

received-append-contents_example : filled.received ++ contents filled.pipe ≡ filled.sent
received-append-contents_example = received-append-contents refl filled-Reach

killed_write_wakes_none_example :
    ((pipewrite true wrapping (replicate 511 3)).woken ≡ [])
    × ((pipewrite true wrapping (replicate 511 3)).outcome ≡ failed)
    × (contents (pipewrite true wrapping (replicate 511 3)).pipe
        ≡ contents wrapping ++ take (pipesize - used wrapping) (replicate 511 3))
unfolding used
killed_write_wakes_none_example =
    killed_write_wakes_none wrapping (replicate 511 3) wrapping-IsValid (omega arith)
