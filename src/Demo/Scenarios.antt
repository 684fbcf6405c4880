-- ===== src/Demo/Scenarios.antt =====
-- What each scenario makes, whatever the account.
use vaultwatch.Base.{
  ℕ, ◌-◌, ◌≤◌, ◌≡◌, ◌≢◌, refl, sym, ap, ◌∙◌, String, Bool, true, false, not, none, some, List,
  contains, Bool-cases, inl, inr, arith, if◌then◌else◌, ◌<>◌,
}
use text.Mathlib.TextLemmas.{append_cancel_left}
use vaultwatch.Base.Int.{pos}
use vaultwatch.Base.Exec.{ok}
use vaultwatch.Base.Exec.Ends.{Ends}
use vaultwatch.Runtime.{Runtime}
use vaultwatch.Models.{Transaction, ScoringContext}
use vaultwatch.Models.Values.{Dict, bool, get}
use vaultwatch.Prefilter.Scores.{Compares}
use vaultwatch.Synthetic.{AccountProfile, account_profile, coordinates}
use vaultwatch.Synthetic.Draws.{
  DrawsInRange, Each-contains, Each-element, contains-Each, IsIdentifier, gives,
}
use vaultwatch.Synthetic.Accounts.{IsProfile, account_profile-IsProfile}
use vaultwatch.Synthetic.Contexts.{IsContext, build_scoring_context-IsContext}
use vaultwatch.Synthetic.Feed.{location, hour_before, one_hour}
use vaultwatch.Demo.{DemoRequest}
use vaultwatch.Demo.Create.{Outside, is_risky, is_normal, is_review, is_sanctions, place}
use vaultwatch.Demo.Plan.{
  amount_of, beneficiary_of, device_of, addressed, transaction_of, context_of, notes_of, case_for,
}

-- What a scenario relies on: draws in their ranges, floats that compare as floats do, a clock past the
-- first hour of time, and that no number is printed as "demo_new".
pub record Grounds (rt : Runtime) {W : Type 0} (out : Outside rt W) : Type 0 where
  pub compares : Compares rt
  pub draws : DrawsInRange rt out.lib
  pub late : (w : W) → one_hour ≤ (out.clock w).0
  pub digits : (n : ℕ) → rt.show_int (pos n) ≢ "demo_new"

not-not : (b : Bool) → not (not b) ≡ b
not-not true = refl
not-not false = refl

module _ (rt : Runtime) {W : Type 0} (out : Outside rt W) (request : DemoRequest rt.Num) where
  open rt use {Num}
  open out use {lib}

  -- What a scenario makes for an account: a payment at the scenario's place, from an origin of an hour
  -- before, to a recipient that is known exactly if the scenario is "normal" or "review", from a device
  -- that is known exactly if it is "normal", with a burst of payments exactly in a "review", in a
  -- watched name exactly in "sanctions"; and the notes say so.
  pub record IsPlanned (account : String) (tx : Transaction Num) (ctx : ScoringContext Num)
      (notes : Dict Num) : Type 0 where
    pub owner : tx.account_id ≡ account
    pub amount : (x : Num) → request.amount ≡ some x → tx.amount ≡ x
    pub lat : tx.lat ≡ some (coordinates rt (place request)).0
    pub lon : tx.lon ≡ some (coordinates rt (place request)).1
    pub beneficiary : String
    pub to : tx.beneficiary_id ≡ some beneficiary
    pub familiar : contains ctx.known_beneficiaries beneficiary ≡ not (is_risky request.scenario)
    pub device : String
    pub from : tx.device_id ≡ some device
    pub used : contains ctx.known_devices device ≡ is_normal request.scenario
    pub named :
        tx.beneficiary_name
        ≡ some (
            if is_sanctions request.scenario
            then "Victor Krantz Holdings"
            else "North Quay Supplies")
    pub burst : ctx.recent_count_last_hour ≡ (if is_review request.scenario then pos 5 else pos 1)
    pub origin : ctx.last_location ≡ some (location rt lib request.origin (tx.timestamp - one_hour))
    pub told_device : get notes "new_device" ≡ some (bool (not (is_normal request.scenario)))
    pub told_beneficiary : get notes "new_beneficiary" ≡ some (bool (is_risky request.scenario))

  module _ (g : Grounds rt out) (account : String) (p : AccountProfile Num)
      (h : IsProfile rt lib account p) where
    demo-ne :
        (prefix : String) (x : String)
        → IsIdentifier rt prefix 1000 9999 x
        → x ≢ prefix <> "demo_new"
    demo-ne prefix x (n, e, _, _) same = g.digits n (append_cancel_left prefix _ _ (sym e ∙ same))

    recipient :
        (b : String) × (beneficiary_of rt out request p ≡ ok b)
        × (contains p.known_beneficiaries b ≡ not (is_risky request.scenario))
    unfolding beneficiary_of
    recipient = elim (Bool-cases (is_risky request.scenario)) [
      | inl risky ↦ simp risky (
        "ben_demo_new",
        refl,
        contains-Each p.known_beneficiaries "ben_demo_new" (demo-ne "ben_") h.beneficiaries,
      )
      | inr calm ↦ simp calm (
          Each-element (λ x. contains p.known_beneficiaries x ≡ true) p.known_beneficiaries 0
            (Each-contains p.known_beneficiaries) h.some_beneficiaries)
    ]

    sender :
        (d : String) × (device_of rt out request p ≡ ok d)
        × (contains p.known_devices d ≡ is_normal request.scenario)
    unfolding device_of
    sender = elim (Bool-cases (is_normal request.scenario)) [
      | inl usual ↦ simp usual (
          Each-element (λ x. contains p.known_devices x ≡ true) p.known_devices 0
            (Each-contains p.known_devices) (omega (arith, h.one_device)))
      | inr strange ↦ simp strange (
        "dev_demo_new",
        refl,
        contains-Each p.known_devices "dev_demo_new" (demo-ne "dev_") h.devices,
      )
    ]

    hour_before-ok : (now : ℕ) → one_hour ≤ now → hour_before now ≡ ok (now - one_hour)
    hour_before-ok now l = ground (arith, l)

    -- the transaction of the scenario
    abbrev made : ℕ → String → Transaction Num
    made now uuid = record {
      id = "tx_" <> uuid;
      account_id = account;
      amount = amount_of rt out request p;
      currency = "EUR";
      timestamp = now;
      lat = some (coordinates rt (place request)).0;
      lon = some (coordinates rt (place request)).1;
      beneficiary_name = some (
          if is_sanctions request.scenario
          then "Victor Krantz Holdings"
          else "North Quay Supplies");
      beneficiary_id = some recipient.0;
      device_id = some sender.0;
    }

    transaction_of-made :
        (now : ℕ) (uuid : String)
        → transaction_of rt out request p account now uuid ≡ ok (made now uuid)
    unfolding transaction_of
    transaction_of-made now uuid =
        ap (λ r. addressed rt out request p account now uuid r (device_of rt out request p))
          recipient.1
        ∙ ap (addressed rt out request p account now uuid (ok recipient.0)) sender.1

    planned :
        (now : ℕ) (uuid : String) (seen : ℕ) (ctx : ScoringContext Num) (logins : List (Dict Num))
        → account_profile rt lib account ≡ ok p
        → IsContext rt lib account seen ctx
        → let tx = made now uuid in
          let home = location rt lib request.origin (now - one_hour) in
          let made_ctx = context_of rt out request tx.amount home ctx in
          IsPlanned account tx made_ctx (notes_of rt out request tx made_ctx home now logins)
    unfolding context_of notes_of amount_of get
    planned now uuid seen ctx logins own k =
        let same : k.profile ≡ p = cc (k.own, own) in
        let familiar =
          ap (λ xs. contains xs recipient.0)
            (k.beneficiaries ∙ ap (λ q. q.known_beneficiaries) same)
          ∙ recipient.2 in
        let used =
          ap (λ xs. contains xs sender.0) (k.devices ∙ ap (λ q. q.known_devices) same) ∙ sender.2 in
        record {
          owner = refl;
          amount = λ x e. rw e refl;
          lat = refl;
          lon = refl;
          beneficiary = recipient.0;
          to = refl;
          familiar = familiar;
          device = sender.0;
          from = refl;
          used = used;
          named = refl;
          burst = ap (λ n. if is_review request.scenario then pos 5 else n) k.single;
          origin = refl;
          told_device = ap (λ b. some (bool (not b))) used;
          told_beneficiary =
              ap (λ b. some (bool (not b))) familiar
              ∙ ap (λ b. some (bool b)) (not-not (is_risky request.scenario));
        }

  -- With draws in their ranges, a clock past the first hour of time and numbers printed in digits, a
  -- scenario makes its case for every account, as its name says: the recipient is known exactly in "normal" and
  -- "review", the device exactly in "normal", a burst of five payments is there exactly in "review", the name is
  -- watched exactly in "sanctions", the payment is at the scenario's place with its last location at the origin an hour
  -- before, and the notes tell which of the two are new.
  pub case_for-IsPlanned :
      Grounds rt out
      → (account : String) (logins : List (Dict Num)) (w : W)
      → Ends
          (λ made _. IsPlanned account made.0 made.1 made.2)
          (λ _ _. ⊥)
          (case_for rt out request account logins w)
  unfolding case_for
  case_for-IsPlanned g account logins w =
      let (p, own, h) = account_profile-IsProfile rt lib g.draws account in
      let (now, w₁) = out.clock w in
      let (uuid, w₂) = out.uuid_hex_12 w₁ in
      let (later, w₃) = out.clock w₂ in
      let (ctx, built, k) =
        build_scoring_context-IsContext rt lib g.compares g.draws account none later (g.late w₂) in
      rw
        (
          own,
          transaction_of-made g account p h now uuid,
          built,
          hour_before-ok g account p h now (g.late w),
        )
        (gives (planned g account p h now uuid (later - one_hour) ctx logins own k))
