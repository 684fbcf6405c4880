-- ===== src/Llm/Schemas/Members.antt =====
-- What pydantic reads of a member that fits its schema.
use vaultwatch.Base.{
  String, Bool, true, ◌&&◌, ◌≡◌, refl, ap, ◌∙◌, false≢true, Option, none, some, List, [], ◌∷◌,
  arith, is_some,
}
use vaultwatch.Base.Int.{ℤ, pos, leb_ℤ}
use vaultwatch.Base.Exec.{Result, ok, err, value_error}
use vaultwatch.Runtime.{Runtime, Validates, strs}
use vaultwatch.Models.Values.{
  Json, Dict, Items, bool, int, float, str, arr, obj, nil, cons, empty, entry, get,
}
use vaultwatch.Llm.Schemas.{conforms, texts, has_type, every, each_item, at_least, at_most, typed}
use vaultwatch.Llm.Verdicts.{required, defaulted, or_invalid, in_unit}

-- pydantic reads an integer into a float field as that float, and a larger integer is a larger float.
pub record ReadsIntegers (rt : Runtime) : Type 0 where
  pub to_float-int : (z : ℤ) → rt.to_float (int z) ≡ some (rt.of_ℤ z)
  pub of_ℤ_mono : (a b : ℤ) → leb_ℤ a b ≡ true → rt.le (rt.of_ℤ a) (rt.of_ℤ b) ≡ true

pub two : (a b : Bool) → a && (b && true) ≡ true → (a ≡ true) × (b ≡ true)
two a b h = ground arith

pub four :
    (a b c d p q r s : Bool)
    → (a && (b && (c && (d && true)))) && ((p && (q && (r && (s && true)))) && true) ≡ true
    → (a ≡ true)
      × (b ≡ true)
      × (c ≡ true)
      × (d ≡ true)
      × (p ≡ true)
      × (q ≡ true)
      × (r ≡ true)
      × (s ≡ true)
four a b c d p q r s h = ground arith

pub three : (a b : Bool) → a && (b && true) ≡ true → a && b ≡ true
three a b h = ground arith

pub pair_and_one :
    (a b p : Bool)
    → (a && (b && true)) && ((p && true) && true) ≡ true
    → (a ≡ true) × (b ≡ true) × (p ≡ true)
pair_and_one a b p h = ground arith

pub last : (a : Bool) → a && true ≡ true → a ≡ true
last a h = ground arith

pub ten :
    (a b c d e f p q r s : Bool)
    → (a && (b && (c && (d && (e && (f && true)))))) && ((p && (q && (r && (s && true)))) && true)
      ≡ true
    → (a ≡ true)
      × (b ≡ true)
      × (c ≡ true)
      × (d ≡ true)
      × (e ≡ true)
      × (f ≡ true)
      × (p ≡ true)
      × (q ≡ true)
      × (r ≡ true)
      × (s ≡ true)
ten a b c d e f p q r s h = ground arith

module _ {N A : Type 0} (convert : Json N → Option A) where
  -- what a value of a field comes to
  abbrev reads : Option (Json N) → Result A
  reads o = elim o [ none ↦ err (value_error "ValidationError") | some v ↦ or_invalid (convert v) ]

  pub required-reads :
      (P : A → Type 0) (check : Json N → Bool) (d : Dict N) (k : String)
      → ((v : Json N) → check v ≡ true → (a : A) × (convert v ≡ some a) × P a)
      → elim (get d k) [ none ↦ true | some v ↦ check v ] ≡ true
      → is_some (get d k) ≡ true
      → (a : A) × (required convert d k ≡ ok a) × P a
  unfolding required
  required-reads P check d k fits =
      elim (get d k)
        as (λ o.
          elim o [ none ↦ true | some v ↦ check v ] ≡ true
          → is_some o ≡ true
          → (a : A) × (reads o ≡ ok a) × P a) [
            | none ↦ λ c t. absurd (false≢true t)
            | some v ↦ λ c t. let (a, e, p) = fits v c in (a, ap or_invalid e, p)
          ]

  pub required-value :
      (check : Json N → Bool) (d : Dict N) (k : String)
      → ((v : Json N) → check v ≡ true → (a : A) × (convert v ≡ some a))
      → elim (get d k) [ none ↦ true | some v ↦ check v ] ≡ true
      → is_some (get d k) ≡ true
      → (a : A) × (required convert d k ≡ ok a)
  required-value check d k fits c t =
      let (a, e, p) =
        required-reads (λ _. Unit {0}) check d k (λ v h. let (a, e) = fits v h in (a, e, tt)) c t in
      (a, e)

  pub defaulted-none :
      (default : A) (d : Dict N) (k : String)
      → get d k ≡ none
      → defaulted convert default d k ≡ ok default
  unfolding defaulted
  defaulted-none default d k e =
      ap (λ o. elim o [ none ↦ ok default | some v ↦ or_invalid (convert v) ]) e

  pub defaulted-reads :
      (check : Json N → Bool) (default : A) (d : Dict N) (k : String)
      → ((v : Json N) → check v ≡ true → (a : A) × (convert v ≡ some a))
      → elim (get d k) [ none ↦ true | some v ↦ check v ] ≡ true
      → (a : A) × (defaulted convert default d k ≡ ok a)
  unfolding defaulted
  defaulted-reads check default d k fits =
      elim (get d k)
        as (λ o.
          elim o [ none ↦ true | some v ↦ check v ] ≡ true
          → (a : A) × (elim o [ none ↦ ok default | some v ↦ or_invalid (convert v) ] ≡ ok a)) [
            | none ↦ λ c. (default, refl)
            | some v ↦ λ c. let (a, e) = fits v c in (a, ap or_invalid e)
          ]

module _ {N : Type 0} where
  abbrev pub there : Dict N → String → Bool
  there d k = is_some (get d k)

  abbrev pub likelihood : Json N
  likelihood = obj (
      entry "type" (str "number")
        (entry "minimum" (int (pos 0)) (entry "maximum" (int (pos 1)) empty)))

  abbrev pub points : Json N
  points = obj (
      entry "type" (str "integer")
        (entry "minimum" (int (pos 0)) (entry "maximum" (int (pos 100)) empty)))

module _ (rt : Runtime) where
  open rt use {Num}

  -- the member `k`, if it is there, fits its schema
  abbrev pub held : Dict Num → String → Json Num → Bool
  held d k schema = elim (get d k) [ none ↦ true | some x ↦ conforms rt schema x ]

module _ (rt : Runtime) (v : Validates rt) (n : ReadsIntegers rt) where
  open rt use {Num}

  pub text-reads :
      (x : Json Num) → conforms rt (typed "string") x ≡ true → (s : String) × (rt.to_str x ≡ some s)
  unfolding conforms has_type
  text-reads (str s) h = (s, v.to_str-str s)
  text-reads _ h = absurd (false≢true h)

  pub flag-reads :
      (x : Json Num) → conforms rt (typed "boolean") x ≡ true → (b : Bool) × (rt.to_bool x ≡ some b)
  unfolding conforms has_type
  flag-reads (bool b) h = (b, v.to_bool-bool b)
  flag-reads _ h = absurd (false≢true h)

  in_unit-both :
      (y : Num)
      → rt.le (rt.of_ℤ (pos 0)) y ≡ true
      → rt.le y (rt.of_ℤ (pos 1)) ≡ true
      → in_unit rt y ≡ true
  in_unit-both y low high = ground arith

  pub likelihood-reads :
      (x : Json Num)
      → conforms rt likelihood x ≡ true
      → (y : Num) × (rt.to_float x ≡ some y) × (in_unit rt y ≡ true)
  unfolding conforms has_type at_least at_most
  likelihood-reads (int z) h =
      let (low, high) = two (leb_ℤ (pos 0) z) (leb_ℤ z (pos 1)) h in
      (rt.of_ℤ z, n.to_float-int z, in_unit-both _ (n.of_ℤ_mono _ _ low) (n.of_ℤ_mono _ _ high))
  likelihood-reads (float y) h =
      let (low, high) = two (rt.le (rt.of_ℤ (pos 0)) y) (rt.le y (rt.of_ℤ (pos 1))) h in
      (y, v.to_float-float y, in_unit-both y low high)
  likelihood-reads _ h = absurd (false≢true h)

  pub points-reads :
      (x : Json Num)
      → conforms rt points x ≡ true
      → (z : ℤ) × (rt.to_int x ≡ some z) × (leb_ℤ (pos 0) z && leb_ℤ z (pos 100) ≡ true)
  unfolding conforms has_type at_least at_most
  points-reads (int z) h = (z, v.to_int-int z, three (leb_ℤ (pos 0) z) (leb_ℤ z (pos 100)) h)
  points-reads (float y) h = absurd (false≢true h)
  points-reads _ h = absurd (false≢true h)

  every-strs :
      (xs : Items Num)
      → every (λ x. conforms rt (typed "string") x) xs ≡ true
      → (l : List String) × (xs ≡ strs l)
  unfolding every conforms has_type
  every-strs nil h = ([], refl)
  every-strs (cons (str s) xs) h = let (l, e) = every-strs xs h in (s ∷ l, ap (cons (str s)) e)
  every-strs (cons _ xs) h = absurd (false≢true h)

  pub texts-reads :
      (x : Json Num) → conforms rt texts x ≡ true → (l : List String) × (rt.to_strs x ≡ some l)
  unfolding conforms has_type each_item
  texts-reads (arr xs) h =
      let (l, e) = every-strs xs (last (every (λ x. conforms rt (typed "string") x) xs) h) in
      (l, ap (λ y. rt.to_strs (arr y)) e ∙ v.to_strs-strs l)
  texts-reads _ h = absurd (false≢true h)
