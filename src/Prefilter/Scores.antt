-- ===== src/Prefilter/Scores.antt =====
-- What the prefilter's verdict is like, whatever the forest answers.
use vaultwatch.Base.{◌≡◌, ◌↔◌, inl, inr, Bool-cases, refl, true, false, arith}
use vaultwatch.Base.Int.{ℤ, pos, negsuc}
use vaultwatch.Base.Exec.{Exc, Result, ok, err, runtime_error}
use vaultwatch.Base.Exec.Results.{◌>>=◌}
use vaultwatch.Runtime.{Runtime}
use vaultwatch.Models.{Transaction, ScoringContext, PreFilterVerdict}
use vaultwatch.Llm.Verdicts.{in_unit}
use vaultwatch.Prefilter.{Statistics, is_outlier, AnomalyPreFilter, extract_features, clamp, score}

-- The comparisons of floats that the bounds need; no law of arithmetic.
pub record Compares (rt : Runtime) : Type 0 where
  pub lt-le : (x y : rt.Num) → rt.lt x y ≡ true → rt.le x y ≡ true
  pub zero-le : rt.le (rt.of_ℤ (pos 0)) (rt.of_ℤ (pos 0)) ≡ true
  pub one-le : rt.le (rt.of_ℤ (pos 1)) (rt.of_ℤ (pos 1)) ≡ true
  pub zero-one : rt.le (rt.of_ℤ (pos 0)) (rt.of_ℤ (pos 1)) ≡ true

is_outlier_iff : (z : ℤ) → (is_outlier z ≡ true) ↔ (z ≡ negsuc 0)
is_outlier_iff (pos n) = ground arith
is_outlier_iff (negsuc n) = ground arith

module _ (rt : Runtime) (st : Statistics rt.Num) where
  open rt use {Num}

  clamp-in_unit : Compares rt → (x : Num) → in_unit rt (clamp rt st x) ≡ true
  unfolding clamp
  clamp-in_unit c x = ground (
    arith,
    c.lt-le x (rt.of_ℤ (pos 1)),
    c.lt-le (rt.of_ℤ (pos 0)) x,
    c.lt-le (rt.of_ℤ (pos 0)) (rt.of_ℤ (pos 1)),
    c.zero-le,
    c.one-le,
    c.zero-one,
  )

  -- A verdict's score stands between 0 and 1, and it says anomaly exactly if the forest predicts -1.
  pub record IsVerdict (prediction : ℤ) (v : PreFilterVerdict Num) : Type 0 where
    pub bounds : in_unit rt v.anomaly_score ≡ true
    pub flagged : (v.is_anomaly ≡ true) ↔ (prediction ≡ negsuc 0)

  -- What scoring gives: an error before the fit, what the forest raises of the features, or a verdict.
  pub data IsScored (self : AnomalyPreFilter rt st) (tx : Transaction Num)
      (ctx : ScoringContext Num) (r : Result (PreFilterVerdict Num)) : Type 0 where
    unfitted :
        self.fitted ≡ false
        → r ≡ err (runtime_error "AnomalyPreFilter.fit() must be called before score()")
        → IsScored self tx ctx r
    unscored :
        self.fitted ≡ true
        → (e : Exc) → st.decision_function self.model (extract_features rt st tx ctx) ≡ err e
        → r ≡ err e
        → IsScored self tx ctx r
    unpredicted :
        self.fitted ≡ true
        → (e : Exc) → st.predict self.model (extract_features rt st tx ctx) ≡ err e
        → r ≡ err e
        → IsScored self tx ctx r
    scored :
        self.fitted ≡ true
        → (raw : Num) → st.decision_function self.model (extract_features rt st tx ctx) ≡ ok raw
        → (prediction : ℤ) → st.predict self.model (extract_features rt st tx ctx) ≡ ok prediction
        → (v : PreFilterVerdict Num) → r ≡ ok v
        → IsVerdict prediction v
        → IsScored self tx ctx r

  -- the verdict of the forest's two answers
  abbrev judged : Result Num → Result ℤ → Result (PreFilterVerdict Num)
  judged raws predictions = do
    raw ← raws
    prediction ← predictions
    ok (record {
      anomaly_score = clamp rt st (rt.sub (rt.decimal 5 1) raw);
      is_anomaly = is_outlier prediction;
    })

  judged-IsScored :
      Compares rt
      → (self : AnomalyPreFilter rt st) (tx : Transaction Num) (ctx : ScoringContext Num)
      → self.fitted ≡ true
      → (raws : Result Num) (predictions : Result ℤ)
      → st.decision_function self.model (extract_features rt st tx ctx) ≡ raws
      → st.predict self.model (extract_features rt st tx ctx) ≡ predictions
      → IsScored self tx ctx (judged raws predictions)
  judged-IsScored c self tx ctx f (err e) p a b = unscored f e a refl
  judged-IsScored c self tx ctx f (ok raw) (err e) a b = unpredicted f e b refl
  judged-IsScored c self tx ctx f (ok raw) (ok z) a b =
      scored f raw a z b _ refl (record { bounds = clamp-in_unit c _; flagged = is_outlier_iff z })

  -- Where floats are compared as usual at 0 and 1, scoring raises before the fit; after it, it raises what
  -- the forest raises of the features, and if the forest answers, it gives a verdict with a score
  -- from 0 to 1, even if the answer is no number, which flags the transaction exactly if the forest
  -- predicts -1.
  pub score_lem :
      Compares rt
      → (self : AnomalyPreFilter rt st) (tx : Transaction Num) (ctx : ScoringContext Num)
      → IsScored self tx ctx (score rt st self tx ctx)
  unfolding score
  score_lem c self tx ctx = elim (Bool-cases self.fitted) [
    | inl trained ↦ simp trained (judged-IsScored c self tx ctx trained _ _ refl refl)
    | inr untrained ↦ simp untrained (unfitted untrained refl)
  ]
