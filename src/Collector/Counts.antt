-- ===== src/Collector/Counts.antt =====
-- What the counts of the collector mean.
use chrono_flow.Common.{
  if◌then◌else◌, Bool-cases, length, ℕ, ◌+◌, String, ◌≡◌, refl, ap, ◌∙◌, inl, inr, Bool, true,
  false, List, [], ◌∷◌, ◌++◌, arith, str_eq,
}
use chrono_flow.Collector.{
  snapshot, load, count_total, ask, classify, Collector, Step, arrives, asks, counts, Served,
  started, step,
}

abbrev pub Distinct : List String → Type 0
Distinct [] = Unit {0}
Distinct (key ∷ keys) = (load key keys ≡ false) × Distinct keys

-- The requests in flight that were first with their key.
abbrev pub firsts : List Bool → ℕ
firsts [] = 0
firsts (true ∷ asked) = firsts asked
firsts (false ∷ asked) = firsts asked + 1

record Balanced (c : Collector) : Type 0 where
  sum : c.total ≡ c.unique + c.duplicates + c.missing + length c.counted + length c.asked
  keyed : length c.keys ≡ c.unique + firsts c.asked
  distinct : Distinct c.keys

length-middle {ℓ} :
    {A : Type ℓ} (xs ys : List A) (x : A) → length (xs ++ x ∷ ys) ≡ length (xs ++ ys) + 1
length-middle [] ys x = omega arith
length-middle (y ∷ xs) ys x = omega (arith, length-middle xs ys x)

firsts-middle :
    (xs ys : List Bool) (b : Bool)
    → firsts (xs ++ b ∷ ys) ≡ firsts (xs ++ ys) + (if b then 0 else 1)
firsts-middle [] ys true = omega arith
firsts-middle [] ys false = refl
firsts-middle (true ∷ xs) ys b = firsts-middle xs ys b
firsts-middle (false ∷ xs) ys b = omega (arith, firsts-middle xs ys b)

module _ (c : Collector) (b : Balanced c) where
  ask-Balanced :
      (xs ys : List String) (key : String)
      → c.counted ≡ xs ++ key ∷ ys
      → Balanced (ask (xs ++ ys) key c)
  unfolding ask
  ask-Balanced xs ys key e =
      let n = ap length e ∙ length-middle xs ys key in
      elim (Bool-cases (str_eq key "")) [
        | inl t ↦
            rw t (record { sum = omega (arith, n, b.sum); keyed = b.keyed; distinct = b.distinct })
        | inr t ↦ elim (Bool-cases (load key c.keys)) [
          | inl l ↦
              rw (t, l)
                (record { sum = omega (arith, n, b.sum); keyed = b.keyed; distinct = b.distinct })
          | inr l ↦
              rw (t, l)
                (record {
                  sum = omega (arith, n, b.sum);
                  keyed = omega (arith, b.keyed);
                  distinct = (l, b.distinct);
                })
        ]
      ]

  classify-Balanced :
      (xs ys : List Bool) (loaded : Bool)
      → c.asked ≡ xs ++ loaded ∷ ys
      → Balanced (classify (xs ++ ys) loaded c)
  unfolding classify
  classify-Balanced xs ys true e =
      let n = ap length e ∙ length-middle xs ys true in
      let m = ap firsts e ∙ firsts-middle xs ys true in
      record {
        sum = omega (arith, n, b.sum);
        keyed = omega (arith, m, b.keyed);
        distinct = b.distinct;
      }
  classify-Balanced xs ys false e =
      let n = ap length e ∙ length-middle xs ys false in
      let m = ap firsts e ∙ firsts-middle xs ys false in
      record {
        sum = omega (arith, n, b.sum);
        keyed = omega (arith, m, b.keyed);
        distinct = b.distinct;
      }

  count_total-Balanced : (key : String) → Balanced (count_total key c)
  unfolding count_total
  count_total-Balanced key = record {
    sum = omega (arith, b.sum);
    keyed = b.keyed;
    distinct = b.distinct;
  }

Step-Balanced : {c d : Collector} → Balanced c → Step c d → Balanced d
Step-Balanced {c} b (arrives key) = count_total-Balanced c b key
Step-Balanced {c} b (asks xs ys key e) = ask-Balanced c b xs ys key e
Step-Balanced {c} b (counts xs ys loaded e) = classify-Balanced c b xs ys loaded e

Served-Balanced : {c : Collector} → Served c → Balanced c
Served-Balanced started = record { sum = omega arith; keyed = omega arith; distinct = tt }
Served-Balanced (step r s) = Step-Balanced (Served-Balanced r) s

-- However the atomic steps of the requests interleave after a reset: the keys in the map are distinct,
-- and in a snapshot with no step between its four loads the total is the sum of the three other counts
-- and of the requests in flight, and there are as many keys as requests that were counted as unique or
-- are in flight and were the first with their key.
pub snapshot_balanced :
    (c : Collector)
    → Served c
    → Distinct c.keys
      × ((snapshot c c c c).total
          ≡ (snapshot c c c c).unique
            + (snapshot c c c c).duplicates
            + (snapshot c c c c).missing_idempotency_key
            + length c.counted
            + length c.asked)
      × (length c.keys ≡ (snapshot c c c c).unique + firsts c.asked)
unfolding snapshot
snapshot_balanced c s = let b = Served-Balanced s in (b.distinct, b.sum, b.keyed)
