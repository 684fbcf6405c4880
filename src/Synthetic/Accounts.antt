-- ===== src/Synthetic/Accounts.antt =====
-- What an account's profile, history, graph and the baseline features are like.
use vaultwatch.Base.{
  contains, ℕ, zero, suc, ◌≤◌, ◌<◌, ◌≡◌, refl, sym, ap, String, ◌<>◌, List, [], ◌∷◌, length, true,
  arith,
}
use mathlib.Core.Path.{subst}
use vaultwatch.Base.Int.{pos}
use vaultwatch.Base.Exec.{ok, lift}
use vaultwatch.Base.Exec.Ends.{Ends-weaken}
use vaultwatch.Runtime.{Runtime}
use vaultwatch.Prefilter.Scores.{Compares}
use vaultwatch.Llm.Tools.{HistoryRow}
use vaultwatch.Synthetic.{
  draw_history, draw_links, City, rng_for, Library, AccountProfile, cities, choice, draw_profile,
  account_profile, history_row, history_rows, generate_transaction_history, linked_accounts,
  at_least_one, element,
}
use vaultwatch.Synthetic.Draws.{
  DrawsInRange, Each, Each-contains, Gives, after, gives, gives-value, collect-Each, choice-Each,
  IsIdentifier, identifier-IsIdentifier,
}

module _ (rt : Runtime) (lib : Library rt) where
  open rt use {Num}

  -- A profile of the account: from one to four beneficiaries and one device, with numbers of four
  -- digits.
  pub record IsProfile (account : String) (p : AccountProfile Num) : Type 0 where
    pub named : p.account_id ≡ account
    pub some_beneficiaries : 0 < length p.known_beneficiaries
    pub few_beneficiaries : length p.known_beneficiaries ≤ 4
    pub beneficiaries : Each (IsIdentifier rt "ben_" 1000 9999) p.known_beneficiaries
    pub one_device : length p.known_devices ≡ 1
    pub devices : Each (IsIdentifier rt "dev_" 1000 9999) p.known_devices

  -- A row of the account's history: at least 1.0, to a known beneficiary, from the known device.
  pub record IsRow (p : AccountProfile Num) (r : HistoryRow Num) : Type 0 where
    pub amount : rt.le (rt.of_ℤ (pos 1)) r.amount ≡ true
    pub beneficiary : contains p.known_beneficiaries r.beneficiary_id ≡ true
    pub device : p.known_devices ≡ r.device_id ∷ []

  -- The history of an account: as many rows as are wanted, of its own profile.
  pub record IsHistory (account : String) (n : ℕ) (rs : List (HistoryRow Num)) : Type 0 where
    pub profile : AccountProfile Num
    pub own : account_profile rt lib account ≡ ok profile
    pub count : length rs ≡ n
    pub rows : Each (IsRow profile) rs

  pub at_least_one-le : Compares rt → (x : Num) → rt.le (rt.of_ℤ (pos 1)) (at_least_one rt x) ≡ true
  unfolding at_least_one
  at_least_one-le c x = ground (arith, c.lt-le (rt.of_ℤ (pos 1)) x, c.one-le)

  module _ (draws : DrawsInRange rt lib) where
    described :
        (account : String) (home : City) (typical : Num) (bens : List String) (device : String)
        → 0 < length bens
        → length bens ≤ 4
        → Each (IsIdentifier rt "ben_" 1000 9999) bens
        → IsIdentifier rt "dev_" 1000 9999 device
        → IsProfile account (record {
          account_id = account;
          home_city = home;
          typical_amount = typical;
          known_beneficiaries = bens;
          known_devices = device ∷ [];
        })
    described account home typical bens device low high ids id = record {
      named = refl;
      some_beneficiaries = low;
      few_beneficiaries = high;
      beneficiaries = ids;
      one_device = refl;
      devices = (id, tt);
    }

    draw_profile-IsProfile :
        (account : String) (s : lib.State)
        → Gives (IsProfile account) (draw_profile rt lib account s)
    unfolding draw_profile
    draw_profile-IsProfile account s =
        after _ _
          (choice-Each rt lib draws (λ _. Unit) cities s (omega arith) (tt, (tt, (tt, (tt, tt)))))
          λ home s₁ _.
            let (typical, s₂) = lib.uniform (rt.of_ℤ (pos 20)) (rt.of_ℤ (pos 200)) s₁ in
            let (count, s₃) = lib.randint 1 4 s₂ in
            after _ _
              (collect-Each count _ s₃
                (λ s. identifier-IsIdentifier rt lib draws "ben_" 1000 9999 s (omega arith)))
              λ bens s₄ h.
                after _ _ (identifier-IsIdentifier rt lib draws "dev_" 1000 9999 s₄ (omega arith))
                  λ device s₅ d. gives (
                    described account home (lib.round2 typical) bens device
                      (omega (arith, h.0, draws.randint-low 1 4 s₂ (omega arith)))
                      (omega (arith, h.0, draws.randint-high 1 4 s₂ (omega arith))) h.1 d)

    -- Every account has a profile.
    pub account_profile-IsProfile :
        (account : String)
        → (p : AccountProfile Num) × (account_profile rt lib account ≡ ok p) × IsProfile account p
    unfolding account_profile
    account_profile-IsProfile account =
        gives-value (draw_profile rt lib account (rng_for rt lib account))
          (draw_profile-IsProfile account _)

    one_element : (xs : List String) → length xs ≡ 1 → (x : String) × (xs ≡ x ∷ [])
    one_element [] h = let never : ⊥ = omega (arith, h) in elim never [ ]
    one_element (x ∷ []) h = (x, refl)
    one_element (x ∷ y ∷ xs) h = let never : ⊥ = omega (arith, h) in elim never [ ]

    module _ (c : Compares rt) (account : String) (p : AccountProfile Num)
        (h : IsProfile account p) where
      pub known_beneficiary :
          (s : lib.State)
          → Gives
              (λ x. contains p.known_beneficiaries x ≡ true)
              (choice rt lib p.known_beneficiaries s)
      known_beneficiary s =
          choice-Each rt lib draws _ p.known_beneficiaries s h.some_beneficiaries
            (Each-contains p.known_beneficiaries)

      pub known_device :
          (s : lib.State)
          → Gives (λ x. p.known_devices ≡ x ∷ []) (lift (element p.known_devices 0) s)
      known_device s =
          let (x, e) = one_element p.known_devices h.one_device in
          subst (λ xs. Gives (λ y. xs ≡ y ∷ []) (lift (element xs 0) s)) (sym e)
            (record { at = refl })

      row : (i : ℕ) (s : lib.State) → Gives (IsRow p) (history_row rt lib account p i s)
      unfolding history_row
      row i s =
          let (x, s₁) = lib.gauss p.typical_amount (rt.mul p.typical_amount (rt.decimal 25 2)) s in
          after _ _ (known_beneficiary s₁) λ ben s₂ known.
            after _ _ (known_device s₂) λ device s₃ own. record {
              at = record {
                amount = at_least_one-le c (lib.round2 x);
                beneficiary = known;
                device = own;
              };
            }

      rows :
          (i n : ℕ) (s : lib.State)
          → Gives (λ rs. (length rs ≡ n) × Each (IsRow p) rs) (history_rows rt lib account p i n s)
      unfolding history_rows
      rows i zero s = record { at = (refl, tt) }
      rows i (suc n) s = after _ _ (row i s) λ r s₁ pr.
          after _ _ (rows (suc i) n s₁) λ rs s₂ prs. record { at = (ap suc prs.0, (pr, prs.1)) }

    historical :
        {account : String} {n : ℕ} {rs : List (HistoryRow Num)} (p : AccountProfile Num)
        → account_profile rt lib account ≡ ok p
        → length rs ≡ n
        → Each (IsRow p) rs
        → IsHistory account n rs
    historical p e l k = record { profile = p; own = e; count = l; rows = k }

    pub profiled :
        (account : String) {s : lib.State} (p : AccountProfile Num)
        → account_profile rt lib account ≡ ok p
        → Gives (λ q. q ≡ p) (lift (account_profile rt lib account) s)
    profiled account {s} p e = subst (λ r. Gives (λ q. q ≡ p) (r, s)) (sym e) (record { at = refl })

    draw_history-IsHistory :
        Compares rt
        → (account : String) (n : ℕ) (s : lib.State)
        → Gives (IsHistory account n) (draw_history rt lib account n s)
    unfolding draw_history
    draw_history-IsHistory c account n s =
        let (p, e, h) = account_profile-IsProfile account in
        after _ _ (profiled account p e) λ q s₁ same.
          Ends-weaken _
            (subst
              (λ q.
                Gives (λ rs. (length rs ≡ n) × Each (IsRow p) rs)
                  (history_rows rt lib account q 0 n s₁))
              (sym same) (rows c account p h 0 n s₁))
            (λ rs s₂ k. historical p e k.0 k.1) (λ e s₂ k. k)

    -- With draws in their ranges, an account has a history of every length: its rows have amounts of at
    -- least 1.0, go to the beneficiaries that its profile knows, and come from its one device.
    pub generate_transaction_history-IsHistory :
        Compares rt
        → (account : String) (n : ℕ)
        → (rs : List (HistoryRow Num)) × (generate_transaction_history rt lib account n ≡ ok rs)
          × IsHistory account n rs
    unfolding generate_transaction_history
    generate_transaction_history-IsHistory c account n =
        gives-value (draw_history rt lib account n (rng_for rt lib (account <> ":history")))
          (draw_history-IsHistory c account n _)

    draw_links-few :
        (s : lib.State)
        → Gives
            (λ ls. (length ls ≤ 3) × Each (IsIdentifier rt "acct_" 10000 99999) ls)
            (draw_links rt lib s)
    unfolding draw_links
    draw_links-few s =
        let (count, s₁) = lib.randint 0 3 s in
        Ends-weaken _
          (collect-Each count _ s₁
            (λ s. identifier-IsIdentifier rt lib draws "acct_" 10000 99999 s (omega arith)))
          (λ ls s₂ h. (omega (arith, h.0, draws.randint-high 0 3 s (omega arith)), h.1))
          (λ e s₂ h. h)

    -- With draws in their ranges, an account is linked to at most three accounts, each with a number of
    -- five digits.
    pub linked_accounts-few :
        (account : String)
        → (ls : List String) × (linked_accounts rt lib account ≡ ok ls)
          × ((length ls ≤ 3) × Each (IsIdentifier rt "acct_" 10000 99999) ls)
    unfolding linked_accounts
    linked_accounts-few account =
        gives-value (draw_links rt lib (rng_for rt lib (account <> ":graph"))) (draw_links-few _)
