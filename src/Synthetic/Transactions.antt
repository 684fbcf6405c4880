-- ===== src/Synthetic/Transactions.antt =====
-- What the demo transactions are like beside their account's profile and context.
use vaultwatch.Base.{
  ℕ, ◌<◌, ◌≡◌, ◌≢◌, refl, sym, ap, ◌∙◌, String, Option, none, some, [], ◌∷◌, length, contains, true,
  false, truthy, arith, if◌then◌else◌, Bool, Bool-cases, inl, inr, ◌<>◌, eq_iff,
}
use mathlib.Core.Path.{subst}
use Prim.Native.String.{count}
use text.Mathlib.TextLemmas.{length-append}
use vaultwatch.Base.Int.{pos}
use vaultwatch.Base.Exec.{ok, continue, lift}
use vaultwatch.Base.Exec.Ends.{Ends, Ends-weaken}
use vaultwatch.Runtime.{Runtime}
use vaultwatch.Models.{Transaction}
use vaultwatch.Prefilter.Scores.{Compares}
use vaultwatch.Synthetic.{
  City, dublin, london, new_york, sydney, cities, other_city, other_cities, Library, AccountProfile,
  account_profile, identifier, coordinates, at_least_one,
}
use vaultwatch.Synthetic.Draws.{
  DrawsInRange, Each, Gives, after, gives, choice-Each, IsIdentifier, identifier-IsIdentifier,
  contains-Each, IsIdentifier-ne,
}
use vaultwatch.Synthetic.Accounts.{
  IsProfile, account_profile-IsProfile, known_beneficiary, known_device, profiled, at_least_one-le,
}
use vaultwatch.Synthetic.Feed.{
  chosen_account, risky_transaction, ordinary_transaction, generate_demo_transaction,
}

other_cities-Each :
    (home : City)
    → (0 < length (other_cities home cities))
      × Each (λ c. other_city c home ≡ true) (other_cities home cities)
unfolding other_cities
other_cities-Each dublin = (omega arith, (refl, (refl, (refl, tt))))
other_cities-Each london = (omega arith, (refl, (refl, (refl, tt))))
other_cities-Each new_york = (omega arith, (refl, (refl, (refl, tt))))
other_cities-Each sydney = (omega arith, (refl, (refl, (refl, tt))))

module _ (rt : Runtime) (lib : Library rt) where
  open rt use {Num}

  -- A risky transaction: far from its account's home, to a recipient and from a device that the
  -- profile does not know, and in a watched name.
  pub record IsRisky (p : AccountProfile Num) (tx : Transaction Num) : Type 0 where
    pub account : tx.account_id ≡ p.account_id
    pub place : City
    pub lat : tx.lat ≡ some (coordinates rt place).0
    pub lon : tx.lon ≡ some (coordinates rt place).1
    pub far : other_city place p.home_city ≡ true
    pub beneficiary : String
    pub to : tx.beneficiary_id ≡ some beneficiary
    pub written : truthy beneficiary ≡ true
    pub unknown : contains p.known_beneficiaries beneficiary ≡ false
    pub device : String
    pub from : tx.device_id ≡ some device
    pub labelled : truthy device ≡ true
    pub new_device : contains p.known_devices device ≡ false
    pub named : tx.beneficiary_name ≡ some "Victor Krantz Holdings"

  -- An ordinary one: at home, to a known recipient, from the known device, of at least 1.0.
  pub record IsOrdinary (p : AccountProfile Num) (tx : Transaction Num) : Type 0 where
    pub account : tx.account_id ≡ p.account_id
    pub lat : tx.lat ≡ some (coordinates rt p.home_city).0
    pub lon : tx.lon ≡ some (coordinates rt p.home_city).1
    pub beneficiary : String
    pub to : tx.beneficiary_id ≡ some beneficiary
    pub known : contains p.known_beneficiaries beneficiary ≡ true
    pub device : String
    pub from : tx.device_id ≡ some device
    pub known_device : p.known_devices ≡ device ∷ []
    pub amount : rt.le (rt.of_ℤ (pos 1)) tx.amount ≡ true

  abbrev pub Kind : Bool → AccountProfile Num → Transaction Num → Type 0
  Kind risky p tx = if risky then IsRisky p tx else IsOrdinary p tx

  -- `tx` stands beside the profile of its own account.
  pub record IsDemo (risky : Bool) (tx : Transaction Num) : Type 0 where
    pub profile : AccountProfile Num
    pub own : account_profile rt lib tx.account_id ≡ ok profile
    pub kind : Kind risky profile tx

  -- an identifier is not empty
  IsIdentifier-truthy :
      (prefix : String) (low high : ℕ) (x : String)
      → 0 < count prefix
      → IsIdentifier rt prefix low high x
      → truthy x ≡ true
  IsIdentifier-truthy prefix low high x l (n, e, _, _) =
      let longer = length-append prefix (rt.show_int (pos n)) in
      let apart : x ≢ "" = λ h. omega (arith, l, longer, ap count (sym e ∙ h)) in
      ground (arith, apart, eq_iff x "")

  module _ (c : Compares rt) (draws : DrawsInRange rt lib) (account : String)
      (p : AccountProfile Num) (h : IsProfile rt lib account p) (now : ℕ) (uuid : String) where
    risky_transaction-IsRisky :
        (s : lib.State) → Gives (IsRisky p) (risky_transaction rt lib p account now uuid s)
    unfolding risky_transaction
    risky_transaction-IsRisky s =
        let (some_far, all_far) = other_cities-Each p.home_city in
        after _ _ (choice-Each rt lib draws _ (other_cities p.home_city cities) s some_far all_far)
          λ place s₁ far.
            let (factor, s₂) = lib.uniform (rt.of_ℤ (pos 15)) (rt.of_ℤ (pos 40)) s₁ in
            after _ _ (identifier-IsIdentifier rt lib draws "ben_" 100000 999999 s₂ (omega arith))
              λ ben s₃ b.
                after _ _
                  (identifier-IsIdentifier rt lib draws "dev_" 100000 999999 s₃ (omega arith))
                  λ dev s₄ d. gives (risky place factor ben dev far b d)
      where
        risky :
            (place : City) (factor : Num) (ben dev : String)
            → other_city place p.home_city ≡ true
            → IsIdentifier rt "ben_" 100000 999999 ben
            → IsIdentifier rt "dev_" 100000 999999 dev
            → IsRisky p (record {
              id = "tx_" <> uuid;
              account_id = account;
              amount = lib.round2 (rt.mul p.typical_amount factor);
              currency = "EUR";
              timestamp = now;
              lat = some (coordinates rt place).0;
              lon = some (coordinates rt place).1;
              beneficiary_name = some "Victor Krantz Holdings";
              beneficiary_id = some ben;
              device_id = some dev;
            })
        risky place factor ben dev far b d = record {
          account = sym h.named;
          place = place;
          lat = refl;
          lon = refl;
          far = far;
          beneficiary = ben;
          to = refl;
          written = IsIdentifier-truthy "ben_" 100000 999999 ben (omega arith) b;
          unknown =
              contains-Each p.known_beneficiaries ben
                (λ x i.
                  IsIdentifier-ne rt lib draws "ben_" 1000 9999 100000 999999 x ben (omega arith) i
                    b)
                h.beneficiaries;
          device = dev;
          from = refl;
          labelled = IsIdentifier-truthy "dev_" 100000 999999 dev (omega arith) d;
          new_device =
              contains-Each p.known_devices dev
                (λ x i.
                  IsIdentifier-ne rt lib draws "dev_" 1000 9999 100000 999999 x dev (omega arith) i
                    d)
                h.devices;
          named = refl;
        }

    ordinary_transaction-IsOrdinary :
        (s : lib.State) → Gives (IsOrdinary p) (ordinary_transaction rt lib p account now uuid s)
    unfolding ordinary_transaction
    ordinary_transaction-IsOrdinary s =
        let (x, s₁) = lib.gauss p.typical_amount (rt.mul p.typical_amount (rt.decimal 2 1)) s in
        after _ _ (known_beneficiary rt lib draws c account p h s₁) λ ben s₂ known.
          after _ _ (known_device rt lib draws c account p h s₂) λ dev s₃ own. gives (
            let it : IsOrdinary p (record {
              id = "tx_" <> uuid;
              account_id = account;
              amount = at_least_one rt (lib.round2 x);
              currency = "EUR";
              timestamp = now;
              lat = some (coordinates rt p.home_city).0;
              lon = some (coordinates rt p.home_city).1;
              beneficiary_name = some "North Quay Supplies";
              beneficiary_id = some ben;
              device_id = some dev;
            }) =
              record {
                account = sym h.named;
                lat = refl;
                lon = refl;
                beneficiary = ben;
                to = refl;
                known = known;
                device = dev;
                from = refl;
                known_device = own;
                amount = at_least_one-le rt lib c (lib.round2 x);
              } in
            it)

  chosen :
      DrawsInRange rt lib
      → (account_id : Option String) (s : lib.State)
      → Gives (λ _. Unit) (chosen_account rt lib account_id s)
  unfolding chosen_account identifier
  chosen draws none s = gives tt
  chosen draws (some account) s = elim (Bool-cases (truthy account)) [
    | inl given ↦ simp given (gives tt)
    | inr missing ↦ simp missing (gives tt)
  ]

  module _ (c : Compares rt) (draws : DrawsInRange rt lib) (now : ℕ) (uuid : String) where
    demo :
        (risky : Bool) (account : String) (p : AccountProfile Num)
        → account_profile rt lib account ≡ ok p
        → IsProfile rt lib account p
        → (tx : Transaction Num) → Kind risky p tx
        → tx.account_id ≡ p.account_id
        → IsDemo risky tx
    demo risky account p e h tx kind same = record {
      profile = p;
      own = ap (account_profile rt lib) (same ∙ h.named) ∙ e;
      kind = kind;
    }

    of_profile :
        (risky : Bool) (account : String) (p : AccountProfile Num) (s : lib.State)
        → account_profile rt lib account ≡ ok p
        → IsProfile rt lib account p
        → Gives (IsDemo risky) (
            (if risky
                then risky_transaction rt lib p account now uuid
                else ordinary_transaction rt lib p account now uuid)
              s)
    of_profile true account p s e h =
        Ends-weaken _ (risky_transaction-IsRisky c draws account p h now uuid s)
          (λ tx s' k. demo true account p e h tx k k.account) (λ e s' k. k)
    of_profile false account p s e h =
        Ends-weaken _ (ordinary_transaction-IsOrdinary c draws account p h now uuid s)
          (λ tx s' k. demo false account p e h tx k k.account) (λ e s' k. k)

    of_account :
        (risky : Bool) (account : String) (s : lib.State)
        → Gives (IsDemo risky) (
            continue
              (λ p.
                (if risky
                  then risky_transaction rt lib p account now uuid
                  else ordinary_transaction rt lib p account now uuid))
              (lift (account_profile rt lib account) s))
    of_account risky account s =
        let (p, e, h) = account_profile-IsProfile rt lib draws account in
        after _ _ (profiled rt lib draws account p e) λ q s₁ same.
          subst
            (λ q. Gives (IsDemo risky) (
              (if risky
                  then risky_transaction rt lib q account now uuid
                  else ordinary_transaction rt lib q account now uuid)
                s₁))
            (sym same) (of_profile risky account p s₁ e h)

    -- With draws in their ranges, a demo transaction is always made. A risky one is placed in another city than
    -- its account's home and in a watched name, and goes to a beneficiary and comes from a device that the
    -- account's profile does not know; any other is placed at home, with a known beneficiary, the
    -- known device and an amount of at least 1.0.
    pub generate_demo_transaction-IsDemo :
        (risky : Bool) (account_id : Option String) (s : lib.State)
        → Ends
            (λ tx _. IsDemo risky tx)
            (λ _ _. ⊥)
            (generate_demo_transaction rt lib risky account_id now uuid s)
    unfolding generate_demo_transaction
    generate_demo_transaction-IsDemo risky account_id s =
        after _ _ (chosen draws account_id s) λ account s₁ _. of_account risky account s₁
