-- ===== src/Args/Tests.antt =====
-- Concrete arguments.
use os_lab.Prelude.{◌+◌, ◌<◌, ◌≤◌, ◌^◌, ◌≡◌, refl, some, none, [], ◌∷◌, get_or, arith}
use os_lab.Args.Defs.{Caller, argint, argptr, fetchint, check_block, fetchstr, scan_string}
use os_lab.Args.Bounds.{argptr_lem}

-- A process of 40 bytes with "hi" at 4, and the arguments 4 and 8 above its stack pointer 16.
abbrev caller : Caller
caller = record {
  sz = 40;
  esp = 16;
  mem = λ a.
      get_or
        (0 ∷ 0 ∷ 0 ∷ 0 ∷ 104 ∷ 105 ∷ 0 ∷ 0 ∷ 0 ∷ 0 ∷ 0 ∷ 0 ∷ 0 ∷ 0 ∷ 0 ∷ 0 ∷ 0 ∷ 0 ∷ 0 ∷ 0 ∷ 4 ∷ 0
          ∷ 0 ∷ 0 ∷ 8 ∷ [])
        a 0;
}

accepts : argptr 0 8 caller ≡ some 4
unfolding argptr argint fetchint check_block
accepts = refl

refuses : argptr 0 37 caller ≡ none
unfolding argptr argint fetchint check_block
refuses = refl

argptr_lem_example :
    (argint 0 caller ≡ some 4) × (8 < 2 ^ 31) × (4 < caller.sz) × (4 + 8 ≤ caller.sz)
argptr_lem_example = argptr_lem 0 8 caller (omega arith) accepts

length_of_hi : fetchstr 4 caller ≡ some 2
unfolding fetchstr scan_string
length_of_hi = refl
