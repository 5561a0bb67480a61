-- ===== src/Agent/Ports.antt =====
-- The ports that `NewAllocatedPort` of agent.go hands out.
use kubejob.Prelude.{
  ℕ, zero, suc, ◌+◌, ◌-◌, ◌%◌, ◌≤◌, ◌<◌, ◌≡◌, refl, ap, subst, ◌∙◌, true, false, List, [], ◌∷◌, inl,
  inr, arith, Bool-cases, ◌==◌, leb, replicate,
}
use kubejob.Errors.{Result, ok, err}
use kubejob.Agent.{
  AgentConfig, excluded, lookup_from, lookup_new_port, allocated, new_allocated_port, max_port_num,
  set_allocation_start_port,
}

-- What a search for a port in `lo ≤ i < hi` is to return: the least port that is not excluded, and
-- an error only if every port is.
abbrev pub IsLeastFree : List ℕ → ℕ → ℕ → Result ℕ → Type 0
IsLeastFree exclude_ports lo hi (ok p) =
    (lo ≤ p)
    × (p < hi)
    × (excluded exclude_ports p ≡ false)
    × ((q : ℕ) → lo ≤ q → q < p → excluded exclude_ports q ≡ true)
IsLeastFree exclude_ports lo hi (err e) =
    (q : ℕ) → lo ≤ q → q < hi → excluded exclude_ports q ≡ true

taken_from :
    (ex : List ℕ) (i q : ℕ)
    → excluded ex i ≡ true
    → i ≤ q
    → (suc i ≤ q → excluded ex q ≡ true)
    → excluded ex q ≡ true
taken_from ex i q taken a later = elim (Bool-cases (q == i)) [
  | inl same ↦ let e : i ≡ q = ground arith in subst (λ k. excluded ex k ≡ true) e taken
  | inr other ↦ later (ground arith)
]

skip_excluded :
    (ex : List ℕ) (i hi : ℕ) (r : Result ℕ)
    → excluded ex i ≡ true
    → IsLeastFree ex (suc i) hi r
    → IsLeastFree ex i hi r
skip_excluded ex i hi (ok p) taken (above, below, free, least) =
    (omega arith, below, free, λ q a b. taken_from ex i q taken a (λ c. least q c b))
skip_excluded ex i hi (err e) taken all = λ q a b. taken_from ex i q taken a (λ c. all q c b)

lookup_from-IsLeastFree :
    (ex : List ℕ) (rounds i hi : ℕ)
    → i + rounds ≡ hi
    → IsLeastFree ex i hi (lookup_from ex rounds i)
unfolding lookup_from
lookup_from-IsLeastFree ex zero i hi e = λ q a b. absurd (omega arith)
lookup_from-IsLeastFree ex (suc rounds) i hi e = elim (Bool-cases (excluded ex i)) [
  | inl taken ↦
      rw taken
        (skip_excluded ex i hi _ taken (lookup_from-IsLeastFree ex rounds (suc i) hi (omega arith)))
  | inr free ↦ rw free (omega arith, omega arith, free, λ q a b. absurd (omega arith))
]

-- The port last handed out after a call.
abbrev pub last_after : AgentConfig → Result ℕ → ℕ
last_after c (ok p) = p
last_after c (err e) = c.last_allocated_port

abbrev pub next_port : AgentConfig → ℕ
next_port c = (c.last_allocated_port + 1) % 65536

lookup_new_port-IsLeastFree :
    (c : AgentConfig) (base : ℕ)
    → IsLeastFree c.exclude_ports base max_port_num (lookup_new_port c base)
unfolding lookup_new_port lookup_from
lookup_new_port-IsLeastFree c base = elim (Bool-cases (leb base max_port_num)) [
  | inl below ↦
      lookup_from-IsLeastFree c.exclude_ports (max_port_num - base) base max_port_num (ground arith)
  | inr above ↦
      let none_left : max_port_num - base ≡ 0 = ground arith in
      rw (none_left, lookup_from) (λ q a b. absurd (ground arith))
]

allocated_lem :
    (c : AgentConfig) (r : Result ℕ)
    → ((allocated c r).0 ≡ r)
      × ((allocated c r).1 ≡ record c { last_allocated_port = last_after c r })
allocated_lem c (ok p) = (refl, refl)
allocated_lem c (err e) = (refl, refl)

new_allocated_port_lem :
    (c : AgentConfig)
    → 0 < c.last_allocated_port
    → new_allocated_port c ≡ allocated c (lookup_new_port c (next_port c))
unfolding new_allocated_port
new_allocated_port_lem c h = ground arith

-- When a port other than 0 and 65535 was handed out before, the next call returns the least port
-- above it that is below 9000 and not excluded, and fails only if all of these are excluded. Only
-- the last port changes in the configuration, and a failure changes nothing.
pub new_allocated_port-IsLeastFree :
    (c : AgentConfig)
    → 0 < c.last_allocated_port
    → c.last_allocated_port < 65535
    → let r = new_allocated_port c in
      IsLeastFree c.exclude_ports (c.last_allocated_port + 1) max_port_num r.0
      × (r.1 ≡ record c { last_allocated_port = last_after c r.0 })
new_allocated_port-IsLeastFree c h k =
    let r = lookup_new_port c (next_port c) in
    let e = new_allocated_port_lem c h in
    let split = allocated_lem c r in
    let wraps : next_port c ≡ c.last_allocated_port + 1 = omega arith in
    rw (e, split.0, split.1)
      (
        subst (λ b. IsLeastFree c.exclude_ports b max_port_num r) wraps
            (lookup_new_port-IsLeastFree c (next_port c)),
        refl,
      )

-- The ports of `n` calls in a row; a call that fails hands out none.
cons_ok : Result ℕ → List ℕ → List ℕ
cons_ok (ok p) ps = p ∷ ps
cons_ok (err e) ps = ps

pub ports_of : ℕ → AgentConfig → List ℕ
unfolding cons_ok
ports_of zero c = []
ports_of (suc n) c = let r = new_allocated_port c in cons_ok r.0 (ports_of n r.1)

-- Every entry is above the one before it, and the first is above `lo`.
abbrev pub IsRising : ℕ → List ℕ → Type 0
IsRising lo [] = Unit {0}
IsRising lo (p ∷ ps) = (lo < p) × IsRising p ps

IsRising-cons_ok :
    (c : AgentConfig) (r : Result ℕ) (ps : List ℕ)
    → IsLeastFree c.exclude_ports (c.last_allocated_port + 1) max_port_num r
    → IsRising (last_after c r) ps
    → IsRising c.last_allocated_port (cons_ok r ps)
unfolding cons_ok
IsRising-cons_ok c (ok p) ps found rising = (omega (arith, found.0), rising)
IsRising-cons_ok c (err e) ps found rising = rising

last_after_bounds :
    (c : AgentConfig) (r : Result ℕ)
    → 0 < c.last_allocated_port
    → c.last_allocated_port < 65535
    → IsLeastFree c.exclude_ports (c.last_allocated_port + 1) max_port_num r
    → (0 < last_after c r) × (last_after c r < 65535)
last_after_bounds c (ok p) h k found = (omega (arith, found.0), omega (arith, found.1))
last_after_bounds c (err e) h k found = (h, k)

ports_of-IsRising :
    (n : ℕ) (c : AgentConfig)
    → 0 < c.last_allocated_port
    → c.last_allocated_port < 65535
    → IsRising c.last_allocated_port (ports_of n c)
unfolding ports_of
ports_of-IsRising zero c h k = tt
ports_of-IsRising (suc n) c h k =
    let r = new_allocated_port c in
    let (found, next) = new_allocated_port-IsLeastFree c h k in
    let bounds = last_after_bounds c r.0 h k found in
    let e = ap (λ (d : AgentConfig). d.last_allocated_port) next in
    IsRising-cons_ok c r.0 (ports_of n r.1) found (
      subst (λ l. IsRising l (ports_of n r.1)) e
        (ports_of-IsRising n r.1 (rw e bounds.0) (rw e bounds.1)))

-- The ports of a fresh configuration begin with the start port, if that is neither 0 nor 65535, and
-- rise strictly from there, so that no two containers get the same port.
pub fresh-ports_of-IsRising :
    (n : ℕ) (c : AgentConfig)
    → c.last_allocated_port ≡ 0
    → 0 < c.allocation_start_port
    → c.allocation_start_port < 65535
    → (ps : List ℕ) × (ports_of (suc n) c ≡ c.allocation_start_port ∷ ps)
      × IsRising c.allocation_start_port ps
unfolding ports_of new_allocated_port
fresh-ports_of-IsRising n c fresh h k =
    let d : AgentConfig = record c { last_allocated_port = c.allocation_start_port } in
    let first : new_allocated_port c ≡ (ok c.allocation_start_port, d) = ground arith in
    (ports_of n d, ap (λ r. cons_ok r.0 (ports_of n r.1)) first, ports_of-IsRising n d h k)

-- The first port is handed out whether it is excluded or not.
pub first_port_may_be_excluded :
    (c : AgentConfig)
    → c.last_allocated_port ≡ 0
    → excluded c.exclude_ports c.allocation_start_port ≡ true
    → ¬ ((p : ℕ) → (new_allocated_port c).0 ≡ ok p → excluded c.exclude_ports p ≡ false)
unfolding new_allocated_port
first_port_may_be_excluded c fresh taken all =
    let first : (new_allocated_port c).0 ≡ ok c.allocation_start_port = ground arith in
    cc (all c.allocation_start_port first)

zero_again :
    (n : ℕ) (c : AgentConfig)
    → c.last_allocated_port ≡ 0
    → c.allocation_start_port ≡ 0
    → ports_of n c ≡ replicate n 0
unfolding ports_of new_allocated_port
zero_again zero c l s = refl
zero_again (suc n) c l s =
    let again : new_allocated_port c ≡ (ok 0, c) = ground arith in
    ap (λ r. cons_ok r.0 (ports_of n r.1)) again ∙ ap (◌∷◌ 0) (zero_again n c l s)

-- With the start port 0, which marks "none so far", every call hands out port 0 again.
pub start_port_zero_repeats :
    (n : ℕ) (c : AgentConfig)
    → c.last_allocated_port ≡ 0
    → ports_of n (set_allocation_start_port c 0) ≡ replicate n 0
unfolding set_allocation_start_port
start_port_zero_repeats n c l = zero_again n (set_allocation_start_port c 0) l refl
