-- ===== src/Prefilter.antt =====
-- agents-python/app/prefilter.py: the features of a transaction, and the verdict that is made of the
-- score of an isolation forest. scikit-learn's forest and numpy's statistics are a parameter.
pub mod Scores
use vaultwatch.Base.{
  ℕ, String, Bool, true, false, not, ◌&&◌, Option, none, some, List, [], ◌∷◌, contains, truthy,
  if◌then◌else◌,
}
use vaultwatch.Base.Int.{ℤ, pos, negsuc}
use vaultwatch.Base.Exec.{Result, ok, err, runtime_error}
use vaultwatch.Base.Exec.Results.{◌>>=◌}
use vaultwatch.Runtime.{Runtime}
use vaultwatch.Models.{Transaction, ScoringContext, PreFilterVerdict}

-- What numpy, scikit-learn and `datetime` provide. `Model` is an `IsolationForest`,
-- which rejects some features, such as infinite ones.
pub record Statistics (N : Type 0) : Type 1 where
  pub mean : List N → N
  pub std : List N → N
  pub hour : ℕ → ℕ
  pub Model : Type 0
  pub fit_model : List (List N) → Model → Model
  pub decision_function : Model → List N → Result N
  pub predict : Model → List N → Result ℤ

-- `prediction == -1`
abbrev pub is_outlier : ℤ → Bool
is_outlier (negsuc Prim.Native.Nat.zero) = true
is_outlier (negsuc (Prim.Native.Nat.suc _)) = false
is_outlier (pos _) = false

module _ (rt : Runtime) (st : Statistics rt.Num) where
  open rt use {Num}

  -- `1.0 if x and x not in known else 0.0`
  unfoldable pub is_new : Option String → List String → Num
  is_new none known = rt.of_ℤ (pos 0)
  is_new (some x) known =
      if truthy x && not (contains known x) then rt.of_ℤ (pos 1) else rt.of_ℤ (pos 0)

  -- `x or 1.0`
  or_one : Num → Num
  or_one x = if rt.is_zero x then rt.of_ℤ (pos 1) else x

  z_score : List Num → Num → Num
  unfolding or_one
  z_score [] amount = rt.of_ℤ (pos 0)
  z_score (x ∷ xs) amount = rt.div (rt.sub amount (st.mean (x ∷ xs))) (or_one (st.std (x ∷ xs)))

  unfoldable pub extract_features : Transaction Num → ScoringContext Num → List Num
  unfolding is_new z_score
  extract_features tx ctx =
      tx.amount
      ∷ z_score ctx.recent_amounts tx.amount
      ∷ rt.of_ℤ (pos (st.hour tx.timestamp))
      ∷ rt.of_ℤ ctx.recent_count_last_hour
      ∷ is_new tx.beneficiary_id ctx.known_beneficiaries
      ∷ is_new tx.device_id ctx.known_devices
      ∷ []

  -- `max(0.0, min(1.0, x))`: each gives its first argument unless the second is strictly beyond it
  unfoldable pub clamp : Num → Num
  clamp x =
      let y = if rt.lt x (rt.of_ℤ (pos 1)) then x else rt.of_ℤ (pos 1) in
      if rt.lt (rt.of_ℤ (pos 0)) y then y else rt.of_ℤ (pos 0)

  pub record AnomalyPreFilter : Type 0 where
    pub model : st.Model
    pub fitted : Bool

  -- `fit`; `baseline` is what `generate_baseline_features()` gives
  unfoldable pub fit :
      List (List Num) → Option (List (List Num)) → AnomalyPreFilter → AnomalyPreFilter
  fit baseline features self = record {
    model = st.fit_model (elim features [ none ↦ baseline | some given ↦ given ]) self.model;
    fitted = true;
  }

  unfoldable pub score :
      AnomalyPreFilter → Transaction Num → ScoringContext Num → Result (PreFilterVerdict Num)
  unfolding extract_features clamp
  score self tx ctx =
      if not self.fitted
      then err (runtime_error "AnomalyPreFilter.fit() must be called before score()")
      else (let features = extract_features tx ctx in
          do
            raw ← st.decision_function self.model features
            prediction ← st.predict self.model features
            ok (record {
              anomaly_score = clamp (rt.sub (rt.decimal 5 1) raw);
              is_anomaly = is_outlier prediction;
            }))
