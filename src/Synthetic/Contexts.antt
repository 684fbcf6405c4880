-- ===== src/Synthetic/Contexts.antt =====
-- The scoring context of an account, and what the prefilter reads of a demo transaction beside it.
use vaultwatch.Base.{
  ℕ, suc, ◌≤◌, ◌<◌, ◌≡◌, refl, sym, ap, ◌∙◌, String, Option, none, some, List, [], ◌∷◌, map, length,
  last?, contains, get_elem?, true, false, truthy, arith, if◌then◌else◌, Bool, ◌-◌, eq_iff,
}
use vaultwatch.Base.Int.{pos}
use vaultwatch.Base.Exec.{Result, ok}
use vaultwatch.Runtime.{Runtime}
use vaultwatch.Models.{Transaction, ScoringContext}
use vaultwatch.Prefilter.{Statistics, extract_features, is_new}
use vaultwatch.Prefilter.Scores.{Compares}
use vaultwatch.Llm.Tools.{HistoryRow}
use vaultwatch.Synthetic.{Library, AccountProfile, account_profile, generate_transaction_history}
use vaultwatch.Synthetic.Draws.{DrawsInRange, Gives, gives, gives-value}
use vaultwatch.Synthetic.Accounts.{
  account_profile-IsProfile, generate_transaction_history-IsHistory,
}
use vaultwatch.Synthetic.Feed.{
  build_scoring_context, assemble_context, last_amount, hour_before, one_hour, location,
}
use vaultwatch.Synthetic.Transactions.{IsDemo}

last-some : {A : Type 0} (xs : List A) → 0 < length xs → (x : A) × (last? xs ≡ some x)
last-some [] h = let never : ⊥ = omega (arith, h) in elim never [ ]
last-some (x ∷ []) h = (x, refl)
last-some (x ∷ y ∷ xs) h = last-some (y ∷ xs) (omega arith)

length-map : {A B : Type 0} (f : A → B) (xs : List A) → length (map f xs) ≡ length xs
length-map f [] = refl
length-map f (x ∷ xs) = ap suc (length-map f xs)

module _ (rt : Runtime) (lib : Library rt) where
  open rt use {Num}

  -- The context of an account that was last seen at home at `seen`: the amounts of its twelve rows of
  -- history, the last of them as the sum of the hour, and what its profile knows.
  pub record IsContext (account : String) (seen : ℕ) (ctx : ScoringContext Num) : Type 0 where
    pub profile : AccountProfile Num
    pub own : account_profile rt lib account ≡ ok profile
    pub history : List (HistoryRow Num)
    pub read : generate_transaction_history rt lib account 12 ≡ ok history
    pub amounts : ctx.recent_amounts ≡ map (λ r. r.amount) history
    pub count : length ctx.recent_amounts ≡ 12
    pub single : ctx.recent_count_last_hour ≡ pos 1
    pub sum : last? ctx.recent_amounts ≡ some ctx.recent_sum_last_hour
    pub beneficiaries : ctx.known_beneficiaries ≡ profile.known_beneficiaries
    pub devices : ctx.known_devices ≡ profile.known_devices
    pub home : ctx.last_location ≡ some (location rt lib profile.home_city seen)

  -- when the account was last seen
  abbrev pub last_seen_at : Option ℕ → ℕ → ℕ
  last_seen_at last_seen now = elim last_seen [ none ↦ now - one_hour | some seen ↦ seen ]

  seen-ok :
      (last_seen : Option ℕ) (now : ℕ)
      → one_hour ≤ now
      → Path
          (Result ℕ)
          (elim last_seen [ none ↦ hour_before now | some seen ↦ ok seen ])
          (ok (last_seen_at last_seen now))
  seen-ok none now h = ground (arith, h)
  seen-ok (some seen) now h = refl

  last_amount-some : (xs : List Num) (x : Num) → last? xs ≡ some x → last_amount rt lib xs ≡ ok x
  unfolding last_amount
  last_amount-some xs x e = ground (arith, e)

  module _ (c : Compares rt) (draws : DrawsInRange rt lib) where
    assemble-IsContext :
        (account : String) (last_seen : Option ℕ) (now : ℕ)
        → one_hour ≤ now
        → Gives
            (IsContext account (last_seen_at last_seen now))
            (assemble_context rt lib account last_seen now tt)
    unfolding assemble_context
    assemble-IsContext account last_seen now late =
        let (p, own, h) = account_profile-IsProfile rt lib draws account in
        let (rs, read, k) = generate_transaction_history-IsHistory rt lib draws c account 12 in
        let n = length-map (λ r. r.amount) rs in
        let (latest, last) = last-some (map (λ r. r.amount) rs) (omega (arith, n, k.count)) in
        rw (own, read, seen-ok last_seen now late, last_amount-some _ _ last)
          (gives (record {
            profile = p;
            own = own;
            history = rs;
            read = read;
            amounts = refl;
            count = n ∙ k.count;
            single = refl;
            sum = last;
            beneficiaries = refl;
            devices = refl;
            home = refl;
          }))

    -- With draws in their ranges and from the second hour of time on, every account has a scoring
    -- context: the twelve amounts of its history, with the last of them as the sum of the hour, and
    -- the beneficiaries, the device and the home of its profile.
    pub build_scoring_context-IsContext :
        (account : String) (last_seen : Option ℕ) (now : ℕ)
        → one_hour ≤ now
        → (ctx : ScoringContext Num) × (build_scoring_context rt lib account last_seen now ≡ ok ctx)
          × IsContext account (last_seen_at last_seen now) ctx
    unfolding build_scoring_context
    build_scoring_context-IsContext account last_seen now late =
        gives-value (assemble_context rt lib account last_seen now tt)
          (assemble-IsContext account last_seen now late)

  module _ (st : Statistics Num) where
    -- the fifth and the sixth feature are `flag`
    abbrev pub Novelty : Num → Transaction Num → ScoringContext Num → Type 0
    Novelty flag tx ctx =
        (get_elem? (extract_features rt st tx ctx) 4 ≡ some flag)
        × (get_elem? (extract_features rt st tx ctx) 5 ≡ some flag)

    is_new-unknown :
        (o : Option String) (x : String) (known : List String)
        → o ≡ some x
        → truthy x ≡ true
        → contains known x ≡ false
        → is_new rt st o known ≡ rt.of_ℤ (pos 1)
    unfolding is_new
    is_new-unknown o x known e t h = rw (e, t, h) refl

    is_new-known :
        (o : Option String) (x : String) (known : List String)
        → o ≡ some x
        → contains known x ≡ true
        → is_new rt st o known ≡ rt.of_ℤ (pos 0)
    unfolding is_new
    is_new-known o x known e h = rw e (ground (arith, h))

    own-eq :
        (account : String) {p q : AccountProfile Num}
        → account_profile rt lib account ≡ ok p
        → account_profile rt lib account ≡ ok q
        → p ≡ q
    own-eq account e e' = cc (e, e')

    contains-one : (xs : List String) (x : String) → xs ≡ x ∷ [] → contains xs x ≡ true
    contains-one xs x e = rw e (ground (arith, eq_iff x x))

    -- Beside a scoring context of its account, the prefilter reads a demo transaction as new in both its
    -- recipient and its device if it is risky, and as known in both otherwise.
    pub demo-Novelty :
        (risky : Bool) (tx : Transaction Num) (seen : ℕ) (ctx : ScoringContext Num)
        → IsDemo rt lib risky tx
        → IsContext tx.account_id seen ctx
        → Novelty (if risky then rt.of_ℤ (pos 1) else rt.of_ℤ (pos 0)) tx ctx
    unfolding extract_features
    demo-Novelty true tx seen ctx d k =
        let same = own-eq tx.account_id d.own k.own in
        let ben =
          is_new-unknown tx.beneficiary_id d.kind.beneficiary ctx.known_beneficiaries d.kind.to
            d.kind.written
            (ap (λ xs. contains xs d.kind.beneficiary)
                (k.beneficiaries ∙ ap (λ p. p.known_beneficiaries) (sym same))
              ∙ d.kind.unknown) in
        let dev =
          is_new-unknown tx.device_id d.kind.device ctx.known_devices d.kind.from d.kind.labelled (
            ap (λ xs. contains xs d.kind.device) (k.devices ∙ ap (λ p. p.known_devices) (sym same))
            ∙ d.kind.new_device) in
        (ap some ben, ap some dev)
    demo-Novelty false tx seen ctx d k =
        let same = own-eq tx.account_id d.own k.own in
        let ben =
          is_new-known tx.beneficiary_id d.kind.beneficiary ctx.known_beneficiaries d.kind.to (
            ap (λ xs. contains xs d.kind.beneficiary)
              (k.beneficiaries ∙ ap (λ p. p.known_beneficiaries) (sym same))
            ∙ d.kind.known) in
        let dev = is_new-known tx.device_id d.kind.device ctx.known_devices d.kind.from (
          contains-one ctx.known_devices d.kind.device
            (k.devices ∙ ap (λ p. p.known_devices) (sym same) ∙ d.kind.known_device)) in
        (ap some ben, ap some dev)
