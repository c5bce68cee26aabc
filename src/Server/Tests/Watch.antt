-- ===== src/Server/Tests/Watch.antt =====
-- The pool watcher on a contract in memory: a client redeems between two rounds.
use sponsor.Common.{ℕ, ◌+◌, ◌-◌, ◌≡◌, refl, ap, true, false, List, [], ◌∷◌, arith}
use sponsor.Common.Result.{ok}
use sponsor.Common.Text.{lit, Text}
use sponsor.Samples.{sample_crates}
use sponsor.Server.Treasury.{
  Client, DecdnTreasury, Pool, as_treasury, remaining, top_up, u64_or_max,
}
use sponsor.Server.Treasury.Contract.{IsContract}
use sponsor.Server.PoolWatch.{run, tick, idle, topped_up, needs_refill}
use sponsor.Server.PoolWatch.Level.{Redeems, Level, addable, left_over, run-contract}

-- The chain is what the deposit exceeds the redeemed total by.
abbrev pool : ℕ → Pool sample_crates
pool c = record { owner = true; deposit = 20 + c; total_redeemed = 20 }

abbrev client : Client sample_crates ℕ Text
client = record {
  build_provider = λ url key. ok url;
  usdc = λ pool_address provider c. (ok false, c);
  get_pool = λ pool_address provider id c. (ok (pool c), c);
  ensure_allowance = λ provider token holder spender amount c. (ok tt, c);
  top_up = λ pool_address provider id amount c. (ok amount, c + amount);
}

abbrev treasury : DecdnTreasury sample_crates Text
treasury = record {
  provider = lit "http://localhost:8545";
  self_address = true;
  token = false;
  payment_pool = false;
}

sum : (c m : ℕ) → 20 + (c + m) ≡ 20 + c + m
sum c m = omega arith

contract : IsContract sample_crates client treasury true pool
contract = record {
  redeemed_le = λ c. omega arith;
  get_pool-Ends = λ c. (refl, refl);
  allowance-Ends = λ m c. refl;
  top_up-Ends =
      λ m c. ap (λ (d : ℕ). record { owner = true; deposit = d; total_redeemed = 20 }) (sum c m);
}

abbrev drifts : List (ℕ → ℕ)
drifts = (λ c. c - 25) ∷ (λ c. c) ∷ []

redeems :
    Redeems
      (left_over sample_crates client treasury
        (record { micros = 10 })
        (record { micros = 100 })
        true
        pool
        contract)
      drifts
      25
unfolding Redeems
redeems = (
  25,
  0,
  omega arith,
  (λ c. (omega arith, omega arith)),
  (0, 0, omega arith, (λ c. (omega arith, omega arith)), tt),
)

logged :
    run sample_crates
      (as_treasury sample_crates client treasury)
      (record { micros = 10 })
      (record { micros = 100 })
      true
      drifts
      30
    ≡ (topped_up 5 100 ∷ idle ∷ [], 105)
unfolding run tick remaining top_up needs_refill u64_or_max
logged = refl

run-contract_example :
    Level 10 100
      (20 + 30 - 20)
      (20
        + (run sample_crates
            (as_treasury sample_crates client treasury)
            (record { micros = 10 })
            (record { micros = 100 })
            true
            drifts
            30).1
        - 20)
      25
      (addable 100
        (run sample_crates
          (as_treasury sample_crates client treasury)
          (record { micros = 10 })
          (record { micros = 100 })
          true
          drifts
          30).0)
run-contract_example =
    run-contract sample_crates client treasury (record { micros = 10 }) (record { micros = 100 })
      true pool contract drifts 25 30 redeems
