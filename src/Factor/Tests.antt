-- ===== src/Factor/Tests.antt =====
-- flpf at small arguments.
use os_lab.Prelude.{ℕ, ◌≤◌, ◌≡◌, refl, some, arith}
use os_lab.Factor.Division.{flpf, flpf_loop}
use os_lab.Factor.Largest.{flpf-IsLargestPrimeFactor, IsLargestPrimeFactor}

flpf_84 : flpf 84 ≡ some 7
unfolding flpf flpf_loop
flpf_84 = refl

flpf_97 : flpf 97 ≡ some 97
unfolding flpf flpf_loop
flpf_97 = refl

flpf-IsLargestPrimeFactor_example :
    (p : ℕ) × (flpf 84 ≡ some p) × IsLargestPrimeFactor p 84 × (p ≤ 84)
flpf-IsLargestPrimeFactor_example = flpf-IsLargestPrimeFactor 84 (omega arith)
