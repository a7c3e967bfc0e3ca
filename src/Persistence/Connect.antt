-- ===== src/Persistence/Connect.antt =====
-- internal/persistence/pool.go: NewPool, WaitForDB and Close. pgxpool is a parameter: the errors of
-- its calls, by the number of the attempt. The pools that are open are counted.
use soarcore.Common.{
  ℕ, zero, suc, Bool, true, if◌then◌else◌, ◌+◌, ◌-◌, ◌≡◌, refl, sym, ap, ◌∙◌, String, Option, none,
  some, arith,
}
use soarcore.Errors.{Error, wrapped, Result, ok, err}
use soarcore.Startup.{unreachable, attempt}

pub record Pgx : Type 0 where
  pub parse_config : String → Option Error
  pub new_pool : ℕ → Option Error
  pub ping : ℕ → Option Error

-- `Close`, by whether the pointer is not nil.
unfoldable pub close : Bool → ℕ → ℕ
close made open_pools = if made then open_pools - 1 else open_pools

module _ (pgx : Pgx) (dsn : String) where
  -- `NewPool`, as attempt `i`, on the number of open pools.
  unfoldable pub new_pool : ℕ → ℕ → Result (Unit {0}) × ℕ
  new_pool i open_pools = elim (pgx.parse_config dsn) [
    | some e ↦ (err (wrapped "parse pgx config" e), open_pools)
    | none ↦ elim (pgx.new_pool i) [
      | some e ↦ (err (wrapped "new pgx pool" e), open_pools)
      | none ↦ elim (pgx.ping i) [
        | some e ↦ (err (wrapped "ping postgres" e), open_pools + 1 - 1)
        | none ↦ (ok tt, open_pools + 1)
      ]
    ]
  ]

  -- `WaitForDB` from attempt `i` on, of which `n` are left.
  unfoldable pub wait_for_pool : ℕ → ℕ → Option Error → ℕ → Result (Unit {0}) × ℕ
  wait_for_pool i zero last open_pools = (err (unreachable "postgres unreachable" last), open_pools)
  wait_for_pool i (suc n) last open_pools =
      let made = new_pool i open_pools in
      elim made.0 [ ok u ↦ (ok u, made.1) | err e ↦ wait_for_pool (suc i) n (some e) made.1 ]

  -- The pools that are open after an attempt, or a wait, that began with `open_pools`.
  abbrev pub open_after : Result (Unit {0}) → ℕ → ℕ
  open_after (ok u) open_pools = open_pools + 1
  open_after (err e) open_pools = open_pools

  -- The pools that are open once a pool that a wait has returned is closed.
  abbrev pub released : Result (Unit {0}) × ℕ → ℕ
  released (ok u, open_pools) = close true open_pools
  released (err e, open_pools) = open_pools

  new_pool-open_after :
      (i open_pools : ℕ)
      → (new_pool i open_pools).1 ≡ open_after (new_pool i open_pools).0 open_pools
  unfolding new_pool
  new_pool-open_after i open_pools = ground arith

  new_pool-any : (i open_pools : ℕ) → (new_pool i open_pools).0 ≡ (new_pool i 0).0
  unfolding new_pool
  new_pool-any i open_pools = ground arith

  wait_step :
      (i n open_pools : ℕ) (last : Option Error) (x : Result (Unit {0}))
      → (new_pool i open_pools).0 ≡ x
      → ((l : Option Error) (k : ℕ)
          → ((wait_for_pool (suc i) n l k).0
              ≡ attempt "postgres unreachable" (λ j. (new_pool j 0).0) (suc i) n l)
            × ((wait_for_pool (suc i) n l k).1 ≡ open_after (wait_for_pool (suc i) n l k).0 k))
      → ((wait_for_pool i (suc n) last open_pools).0
          ≡ attempt "postgres unreachable" (λ j. (new_pool j 0).0) i (suc n) last)
        × ((wait_for_pool i (suc n) last open_pools).1
            ≡ open_after (wait_for_pool i (suc n) last open_pools).0 open_pools)
  unfolding wait_for_pool attempt
  wait_step i n open_pools last (ok u) h rest =
      let none_yet : (new_pool i 0).0 ≡ ok u = sym (new_pool-any i open_pools) ∙ h in
      let one_more : (new_pool i open_pools).1 ≡ open_pools + 1 =
        new_pool-open_after i open_pools ∙ ap (λ r. open_after r open_pools) h in
      (rw (h, wait_for_pool) (rw (none_yet, attempt) refl), rw (h, wait_for_pool) one_more)
  wait_step i n open_pools last (err e) h rest =
      let none_yet : (new_pool i 0).0 ≡ err e = sym (new_pool-any i open_pools) ∙ h in
      let same : (new_pool i open_pools).1 ≡ open_pools =
        new_pool-open_after i open_pools ∙ ap (λ r. open_after r open_pools) h in
      let (one, two) = rest (some e) open_pools in
      (
        rw (h, wait_for_pool) (rw (none_yet, attempt) (rw same one)),
        rw (h, wait_for_pool) (rw same two),
      )

  wait_for_pool-keeps :
      (i n open_pools : ℕ) (last : Option Error)
      → ((wait_for_pool i n last open_pools).0
          ≡ attempt "postgres unreachable" (λ j. (new_pool j 0).0) i n last)
        × ((wait_for_pool i n last open_pools).1
            ≡ open_after (wait_for_pool i n last open_pools).0 open_pools)
  unfolding wait_for_pool attempt
  wait_for_pool-keeps i zero open_pools last = (refl, refl)
  wait_for_pool-keeps i (suc n) open_pools last =
      wait_step i n open_pools last _ refl (λ l k. wait_for_pool-keeps (suc i) n k l)

  released-open_after :
      (x : Result (Unit {0}) × ℕ) (open_pools : ℕ)
      → x.1 ≡ open_after x.0 open_pools
      → released x ≡ open_pools
  unfolding close
  released-open_after (ok u, n) open_pools h = ground arith
  released-open_after (err e, n) open_pools h = h

  -- `WaitForDB` returns what the loop over `NewPool` returns, and leaves exactly the pool that it
  -- returns open: every failed attempt, also one whose ping fails after the pool was made, has closed
  -- what it opened; and closing what it returned leaves what was open before.
  pub wait_for_pool-open_after :
      (i n open_pools : ℕ) (last : Option Error)
      → ((wait_for_pool i n last open_pools).0
          ≡ attempt "postgres unreachable" (λ j. (new_pool j 0).0) i n last)
        × ((wait_for_pool i n last open_pools).1
            ≡ open_after (wait_for_pool i n last open_pools).0 open_pools)
        × (released (wait_for_pool i n last open_pools) ≡ open_pools)
  wait_for_pool-open_after i n open_pools last =
      let (same, kept) = wait_for_pool-keeps i n open_pools last in
      (same, kept, released-open_after (wait_for_pool i n last open_pools) open_pools kept)
