-- ===== src/Pool/Sharing.antt =====
-- All the allocations of all the workers, in the order in which they are made.
use wasmer_js.Prelude.{
  ℕ, ◌+◌, ◌%◌, ◌≤◌, ◌≡◌, ◌∙◌, refl, sym, subst, Bool, true, false, ==→eq, List, [], ◌∷◌, Option,
  none, some, arith, ltb, leb, ◌==◌, if◌then◌else◌,
}
use wasmer_js.Memory.{Memory, word_mod, load, store}
use wasmer_js.Memory.Laws.{load-store_self, store_other}
use wasmer_js.Pool.{
  pipe_pool_size, pool_header_size, create_pipe_pool, claim_once, claim, allocate_from_pool,
  keep_region, rivals_given,
}
use wasmer_js.Pool.Regions.{
  IsPool, Given, Claims, create_pipe_pool-IsPool, claim_once-Claims, claim-Claims,
}

-- Each call is the size it asks for, with the sizes that rivals take in its contended rounds.
abbrev pub Calls : Type 0
Calls = List (ℕ × List ℕ)

-- Every region that anybody is given, the callers and their rivals.
unfoldable pub regions : Memory → Calls → List (ℕ × ℕ)
regions m [] = []
regions m ((size, rivals) ∷ calls) =
    let (given, m') = allocate_from_pool true m size rivals in
    rivals_given m size rivals (keep_region given size (regions m' calls))

-- Regions in rising order, none of which reaches into the next, all inside the pool.
abbrev pub Ascending : ℕ → List (ℕ × ℕ) → Type 0
Ascending low [] = Unit {0}
Ascending low ((o, size) ∷ rest) =
    (low ≤ o) × (o + size ≤ pipe_pool_size) × Ascending (o + size) rest

Ascending-mono : (a b : ℕ) (rs : List (ℕ × ℕ)) → a ≤ b → Ascending b rs → Ascending a rs
Ascending-mono a b [] h v = tt
Ascending-mono a b ((o, size) ∷ rs) h v = (omega arith, v.1, v.2)

keep-Ascending :
    (low size high : ℕ) (o : Option ℕ) (rs : List (ℕ × ℕ))
    → Given low size high o
    → low ≤ high
    → high ≤ pipe_pool_size
    → Ascending high rs
    → Ascending low (keep_region o size rs)
unfolding keep_region
keep-Ascending low size high none rs g h k v = Ascending-mono low high rs h v
keep-Ascending low size high (some o) rs g h k v =
    (g.0, omega arith, Ascending-mono (o + size) high rs g.1 v)

-- One contended round, for what its tests and the rival's call came to.
round-Ascending :
    (m m' n : Memory) (size rival : ℕ) (given : Option ℕ) (rs : List (ℕ × ℕ))
    (retry : Option ℕ × Memory) (rest : List (ℕ × ℕ) → List (ℕ × ℕ)) (over past won : Bool)
    → Given (load m 0) rival (load m' 0) given
    → load m 0 ≤ load m' 0
    → load m' 0 ≤ pipe_pool_size
    → (past ≡ false → load m 0 + size ≤ pipe_pool_size)
    → (over ≡ false → past ≡ false → load n 0 ≡ load m 0 + size)
    → (won ≡ true → load m' 0 ≡ load m 0)
    → (Ascending (load retry.1 0) rs → Ascending (load m' 0) (rest (keep_region retry.0 size rs)))
    → let r : Option ℕ × Memory =
        if over
        then (none, m)
        else if past
        then (none, m)
        else if won
        then (some (load m 0), n)
        else retry in
      Ascending (load r.1 0) rs
      → Ascending (load m 0) (
          let own = keep_region r.0 size rs in
          if over
          then own
          else if past
          then own
          else if won
          then keep_region given rival own
          else keep_region given rival (rest own))
unfolding keep_region
round-Ascending m m' n size rival given rs retry rest true past won g h k fits new same ih a = a
round-Ascending m m' n size rival given rs retry rest false true won g h k fits new same ih a = a
round-Ascending m m' n size rival given rs retry rest false false true g h k fits new same ih a =
    keep-Ascending (load m 0) rival (load m' 0) given ((load m 0, size) ∷ rs) g h k (
      omega (arith, same refl),
      fits refl,
      Ascending-mono (load m 0 + size) (load n 0) rs (omega (arith, new refl refl)) a,
    )
round-Ascending m m' n size rival given rs retry rest false false false g h k fits new same ih a =
    keep-Ascending (load m 0) rival (load m' 0) given (rest (keep_region retry.0 size rs)) g h k
      (ih a)

-- A call's rivals are given regions in front of its own, and it is given none of theirs.
call-Ascending :
    (m : Memory) (size : ℕ) (rivals : List ℕ) (rs : List (ℕ × ℕ))
    → IsPool m
    → Ascending (load (claim m size rivals).1 0) rs
    → Ascending
        (load m 0)
        (rivals_given m size rivals (keep_region (claim m size rivals).0 size rs))
unfolding rivals_given claim
call-Ascending m size [] rs v a =
    let c = claim_once-Claims m size v in
    keep-Ascending (load m 0) size (load (claim_once m size).1 0) (claim_once m size).0 rs c.given
      c.grows c.valid.inside a
call-Ascending m size (rival ∷ rivals) rs v a =
    let c = claim_once-Claims m rival v in
    let m' = (claim_once m rival).1 in
    round-Ascending m m' (store m' 0 (load m 0 + size)) size rival (claim_once m rival).0 rs
      (claim m' size rivals) (rivals_given m' size rivals) (leb word_mod (load m 0 + size))
      (ltb pipe_pool_size (load m 0 + size)) (load m' 0 == load m 0) c.given c.grows c.valid.inside
      (λ e. ground arith) (λ e f. load-store_self m' 0 (load m 0 + size) (ground arith))
      (λ e. ==→eq (load m' 0) (load m 0) e) (call-Ascending m' size rivals rs c.valid) a

regions_from : (m : Memory) (calls : Calls) → IsPool m → Ascending (load m 0) (regions m calls)
unfolding regions allocate_from_pool
regions_from m [] v = tt
regions_from m ((size, rivals) ∷ calls) v =
    let c = claim-Claims m size rivals v in
    call-Ascending m size rivals (regions (claim m size rivals).1 calls) v
      (regions_from (claim m size rivals).1 calls c.valid)

-- From a fresh pool, the regions given out by any sequence of contended allocations, to the callers
-- and to the rivals that come between them, lie past the pool's header and inside the pool, and each
-- begins where or after the one before it ends: no byte of the pool belongs to two pipes.
pub regions-Ascending :
    (calls : Calls) → Ascending pool_header_size (regions create_pipe_pool calls)
regions-Ascending calls =
    Ascending-mono pool_header_size (load create_pipe_pool 0) (regions create_pipe_pool calls)
      create_pipe_pool-IsPool.past_header
      (regions_from create_pipe_pool calls create_pipe_pool-IsPool)

claim_once_other : (m : Memory) (size b : ℕ) → 4 ≤ b → (claim_once m size).1 b ≡ m b
unfolding claim_once
claim_once_other m size b h = ground (arith, store_other m 0 (load m 0 + size) b)

round_other :
    (m : Memory) (size b : ℕ) (m' : Memory) (retry : Option ℕ × Memory)
    → 4 ≤ b
    → m' b ≡ m b
    → retry.1 b ≡ m b
    → (if leb word_mod (load m 0 + size)
          then (none, m)
          else if ltb pipe_pool_size (load m 0 + size)
          then (none, m)
          else if load m' 0 == load m 0
          then (some (load m 0), store m' 0 (load m 0 + size))
          else retry).1
        b
      ≡ m b
round_other m size b m' retry h p q = ground (arith, store_other m' 0 (load m 0 + size) b)

-- An allocation, rivals included, changes no byte past the pool's header.
pub claim_other :
    (m : Memory) (size : ℕ) (rivals : List ℕ) (b : ℕ) → 4 ≤ b → (claim m size rivals).1 b ≡ m b
unfolding claim
claim_other m size [] b h = claim_once_other m size b h
claim_other m size (rival ∷ rivals) b h =
    round_other m size b (claim_once m rival).1 (claim (claim_once m rival).1 size rivals) h
      (claim_once_other m rival b h)
      (claim_other (claim_once m rival).1 size rivals b h ∙ claim_once_other m rival b h)

-- The regions end where a region at the place begins, or before.
abbrev pub AllBelow : ℕ → List (ℕ × ℕ) → Type 0
AllBelow o [] = Unit {0}
AllBelow o ((p, n) ∷ rest) = (p + n ≤ o) × AllBelow o rest

keep-AllBelow :
    (low size high o : ℕ) (given : Option ℕ) (rs : List (ℕ × ℕ))
    → Given low size high given
    → high ≤ o
    → AllBelow o rs
    → AllBelow o (keep_region given size rs)
unfolding keep_region
keep-AllBelow low size high o none rs g h b = b
keep-AllBelow low size high o (some p) rs g h b = (omega (arith, g.1), b)

round-AllBelow :
    (m m' n : Memory) (rival o : ℕ) (given : Option ℕ) (retry : Option ℕ × Memory)
    (later : List (ℕ × ℕ)) (over past won : Bool)
    → Given (load m 0) rival (load m' 0) given
    → (won ≡ true → load m' 0 ≡ load m 0)
    → (retry.0 ≡ some o → (load m' 0 ≤ o) × AllBelow o later)
    → (if over
        then (none, m)
        else if past
        then (none, m)
        else if won
        then (some (load m 0), n)
        else retry).0
      ≡ some o
    → AllBelow o (
        if over
        then []
        else if past
        then []
        else if won
        then keep_region given rival []
        else keep_region given rival later)
round-AllBelow m m' n rival o given retry later true past won g same ih e = tt
round-AllBelow m m' n rival o given retry later false true won g same ih e = tt
round-AllBelow m m' n rival o given retry later false false true g same ih e =
    let here : load m 0 ≡ o = cc in
    keep-AllBelow (load m 0) rival (load m' 0) o given [] g (omega (arith, same refl, here)) tt
round-AllBelow m m' n rival o given retry later false false false g same ih e =
    keep-AllBelow (load m 0) rival (load m' 0) o given later g (ih e).0 (ih e).1

-- Where a contended call is given a region, it lies past all those that its rivals are given.
pub claim-AllBelow :
    (m : Memory) (size : ℕ) (rivals : List ℕ) (o : ℕ)
    → IsPool m
    → (claim m size rivals).0 ≡ some o
    → AllBelow o (rivals_given m size rivals [])
unfolding rivals_given claim
claim-AllBelow m size [] o v e = tt
claim-AllBelow m size (rival ∷ rivals) o v e =
    let c = claim_once-Claims m rival v in
    let m' = (claim_once m rival).1 in
    round-AllBelow m m' (store m' 0 (load m 0 + size)) rival o (claim_once m rival).0
      (claim m' size rivals) (rivals_given m' size rivals []) (leb word_mod (load m 0 + size))
      (ltb pipe_pool_size (load m 0 + size)) (load m' 0 == load m 0) c.given
      (λ f. ==→eq (load m' 0) (load m 0) f)
      (λ f. (
        given_past (claim m' size rivals) f (claim-Claims m' size rivals c.valid),
        claim-AllBelow m' size rivals o c.valid f,
      ))
      e
  where
    given_past :
        {n : Memory} (r : Option ℕ × Memory) → r.0 ≡ some o → Claims n size r → load n 0 ≤ o
    given_past {n} r f d =
        subst (λ (g : Option ℕ). Given (load n 0) size (load r.1 0) g → load n 0 ≤ o) (sym f)
          (λ g. g.0) d.given

abbrev pub AllAligned : List ℕ → Type 0
AllAligned [] = Unit {0}
AllAligned (n ∷ ns) = (n % 4 ≡ 0) × AllAligned ns

abbrev pub AlignedAt : Option ℕ → Type 0
AlignedAt none = Unit {0}
AlignedAt (some o) = o % 4 ≡ 0

claim_once_aligned :
    (m : Memory) (size : ℕ)
    → IsPool m
    → load m 0 % 4 ≡ 0
    → size % 4 ≡ 0
    → (load (claim_once m size).1 0 % 4 ≡ 0) × AlignedAt (claim_once m size).0
unfolding claim_once
claim_once_aligned m size v a s = ground (arith, load-store_self m 0 (load m 0 + size))

round_aligned :
    (m : Memory) (size : ℕ) (m' : Memory) (retry : Option ℕ × Memory)
    → load m 0 % 4 ≡ 0
    → size % 4 ≡ 0
    → IsPool m
    → (load retry.1 0 % 4 ≡ 0) × AlignedAt retry.0
    → let out =
        if leb word_mod (load m 0 + size)
        then (none, m)
        else if ltb pipe_pool_size (load m 0 + size)
        then (none, m)
        else if load m' 0 == load m 0
        then (some (load m 0), store m' 0 (load m 0 + size))
        else retry in
      (load out.1 0 % 4 ≡ 0) × AlignedAt out.0
round_aligned m size m' (none, m'') a s v r = ground (arith, load-store_self m' 0 (load m 0 + size))
round_aligned m size m' (some o, m'') a s v r =
    ground (arith, load-store_self m' 0 (load m 0 + size))

pub claim_aligned :
    (m : Memory) (size : ℕ) (rivals : List ℕ)
    → IsPool m
    → load m 0 % 4 ≡ 0
    → size % 4 ≡ 0
    → AllAligned rivals
    → (load (claim m size rivals).1 0 % 4 ≡ 0) × AlignedAt (claim m size rivals).0
unfolding claim
claim_aligned m size [] v a s r = claim_once_aligned m size v a s
claim_aligned m size (rival ∷ rivals) v a s r =
    let c = claim_once-Claims m rival v in
    round_aligned m size (claim_once m rival).1 (claim (claim_once m rival).1 size rivals) a s v (
      claim_aligned (claim_once m rival).1 size rivals c.valid
        (claim_once_aligned m rival v a r.0).0 s r.1)
