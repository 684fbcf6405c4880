-- ===== src/Synthetic/Baseline.antt =====
-- What the baseline features are like, on which the prefilter is fitted.
use vaultwatch.Base.{
  Bool, false, ℕ, ◌≤◌, ◌≡◌, refl, ◌⊎◌, inl, inr, List, [], ◌∷◌, length, true, arith, if◌then◌else◌,
}
use vaultwatch.Base.Int.{pos}
use vaultwatch.Base.Exec.{ok}
use vaultwatch.Runtime.{Runtime}
use vaultwatch.Prefilter.Scores.{Compares}
use vaultwatch.Synthetic.{Library, at_least_one, baseline_row, generate_baseline_features}
use vaultwatch.Synthetic.Draws.{
  DrawsInRange, Each, Gives, after, gives-value, collect-Each, choice-Each,
}
use vaultwatch.Synthetic.Accounts.{at_least_one-le}

module _ (rt : Runtime) (lib : Library rt) where
  open rt use {Num}

  -- a flag of the features
  abbrev IsFlag : Num → Type 0
  IsFlag x = (x ≡ rt.of_ℤ (pos 0)) ⊎ (x ≡ rt.of_ℤ (pos 1))

  IsFlag-if : (b : Bool) → IsFlag (if b then rt.of_ℤ (pos 1) else rt.of_ℤ (pos 0))
  IsFlag-if true = inr refl
  IsFlag-if false = inl refl

  -- The six features of a transaction of the baseline: its amount, its deviation, its hour, its count and two flags.
  pub record IsBaseline (row : List Num) : Type 0 where
    pub amount : Num
    pub z : Num
    pub hour : ℕ
    pub count : ℕ
    pub beneficiary : Num
    pub device : Num
    pub columns :
        row ≡ amount ∷ z ∷ rt.of_ℤ (pos hour) ∷ rt.of_ℤ (pos count) ∷ beneficiary ∷ device ∷ []
    pub positive : rt.le (rt.of_ℤ (pos 1)) amount ≡ true
    pub of_day : hour ≤ 23
    pub few : count ≤ 3
    pub flags : IsFlag beneficiary × IsFlag device

  module _ (draws : DrawsInRange rt lib) where
    baseline_row-IsBaseline :
        Compares rt → (s : lib.State) → Gives IsBaseline (baseline_row rt lib s)
    unfolding baseline_row
    baseline_row-IsBaseline c s =
        let (x, s₁) = lib.gauss (rt.of_ℤ (pos 60)) (rt.of_ℤ (pos 30)) s in
        let (z, s₂) = lib.gauss (rt.of_ℤ (pos 0)) (rt.of_ℤ (pos 1)) s₁ in
        let (hour, s₃) = lib.randint 0 23 s₂ in
        after _ _
          (choice-Each rt lib draws (λ n. n ≤ 3) (0 ∷ 1 ∷ 1 ∷ 2 ∷ 2 ∷ 3 ∷ []) s₃ (omega arith)
            (omega arith))
          λ count s₄ few.
            let (a, s₅) = lib.random s₄ in
            let (b, s₆) = lib.random s₅ in
            record {
              at = record {
                amount = at_least_one rt x;
                z = z;
                hour = hour;
                count = count;
                beneficiary = _;
                device = _;
                columns = refl;
                positive = at_least_one-le rt lib c x;
                of_day = draws.randint-high 0 23 s₂ (omega arith);
                few = few;
                flags =
                    (IsFlag-if (rt.lt a (rt.decimal 5 2)), IsFlag-if (rt.lt b (rt.decimal 2 2)));
              };
            }

    -- With draws in their ranges, the baseline has as many rows as are wanted, each of six features: an
    -- amount of at least 1.0, a deviation, an hour of the day, a count up to 3, and two flags.
    pub generate_baseline_features-IsBaseline :
        Compares rt
        → (n seed : ℕ)
        → (rows : List (List Num)) × (generate_baseline_features rt lib n seed ≡ ok rows)
          × ((length rows ≡ n) × Each IsBaseline rows)
    unfolding generate_baseline_features
    generate_baseline_features-IsBaseline c n seed =
        gives-value _ (collect-Each n _ (lib.seeded seed) (baseline_row-IsBaseline c))
