-- ===== src/LocalStatus/Health.antt =====
-- What a stack is like that is reported as ready.
use vaultwatch.Base.{
  ◌≡◌, ◌⊎◌, inl, inr, refl, sym, ap, ◌∙◌, String, Bool, true, false, Option, none, some, List, [],
  ◌∷◌, ◌++◌, eq_iff, false≢true,
}
use vaultwatch.Base.Exec.{Result, ok, err}
use vaultwatch.Models.Values.{Json, Dict, null, bool, int, float, str, arr, obj, empty, get}
use vaultwatch.LocalStatus.{
  Stack, get_or, is_text, is_true, expected_services, and_then, service_problems, status_problems,
  audit_problems, unless,
}

module _ {N : Type 0} where
  -- every one of the services is there and online
  abbrev pub AllOnline : Dict N → List String → Type 0
  AllOnline services [] = Unit
  AllOnline services (name ∷ names) =
      (get services name ≡ some (str "online")) × AllOnline services names

  -- A status of the local stack in working order: six services online, PostgreSQL, and replay mode.
  pub record IsUp (status : Json N) : Type 0 where
    pub fields : Dict N
    pub is_dict : status ≡ obj fields
    pub services : Dict N
    pub listed : get fields "services" ≡ some (obj services)
    pub online : AllOnline services expected_services
    pub storage : get fields "storage" ≡ some (str "postgres")
    pub mode : get fields "model_mode" ≡ some (str "replay")

  -- A chain that the audit reports as valid.
  pub record IsVerified (audit : Json N) : Type 0 where
    pub fields : Dict N
    pub is_dict : audit ≡ obj fields
    pub verify : Dict N
    pub verified : get fields "verify" ≡ some (obj verify)
    pub valid : get verify "valid" ≡ some (bool true)

  is_text-eq : (v : Json N) (t : String) → is_text v t ≡ true → v ≡ str t
  is_text-eq (str s) t h = ap str ((eq_iff s t).0 h)
  is_text-eq null t h = cc h
  is_text-eq (bool b) t h = cc h
  is_text-eq (int z) t h = cc h
  is_text-eq (float x) t h = cc h
  is_text-eq (arr xs) t h = cc h
  is_text-eq (obj d) t h = cc h

  -- a text that a dict's `get` finds, not by its default
  found_text :
      (o : Option (Json N)) (default v : Json N) (t : String)
      → is_text default t ≡ false
      → Path (Result (Json N)) (elim o [ none ↦ ok default | some v ↦ ok v ]) (ok v)
      → is_text v t ≡ true
      → o ≡ some (str t)
  found_text none default v t no_default e h =
      let same : default ≡ v = cc e in
      let never : ⊥ = false≢true (sym no_default ∙ ap (λ v. is_text v t) same ∙ h) in elim never [ ]
  found_text (some u) default v t no_default e h =
      let same : u ≡ v = cc e in ap some (same ∙ is_text-eq v t h)

  -- a dict is what `get_or` reads
  get_or-obj :
      (x : Json N) (k : String) (default v : Json N)
      → get_or x k default ≡ ok v
      → (d : Dict N) × (x ≡ obj d)
  get_or-obj (obj d) k default v h = (d, refl)
  get_or-obj (str s) k default v h = let never : ⊥ = cc h in elim never [ ]
  get_or-obj null k default v h = let never : ⊥ = cc h in elim never [ ]
  get_or-obj (bool b) k default v h = let never : ⊥ = cc h in elim never [ ]
  get_or-obj (int z) k default v h = let never : ⊥ = cc h in elim never [ ]
  get_or-obj (float x) k default v h = let never : ⊥ = cc h in elim never [ ]
  get_or-obj (arr xs) k default v h = let never : ⊥ = cc h in elim never [ ]

  get_or-text :
      (d : Dict N) (k : String) (default v : Json N) (t : String)
      → get_or (obj d) k default ≡ ok v
      → is_text default t ≡ false
      → is_text v t ≡ true
      → get d k ≡ some (str t)
  get_or-text d k default v t e no_default h = found_text (get d k) default v t no_default e h

and_then-ok :
    {A B : Type 0} (r : Result A) (f : A → Result B) (b : B)
    → and_then r f ≡ ok b
    → (a : A) × (r ≡ ok a) × (f a ≡ ok b)
unfolding and_then
and_then-ok (ok a) f b h = (a, refl, h)
and_then-ok (err e) f b h = let never : ⊥ = cc h in elim never [ ]

unless-none : (good : Bool) (problem : String) → unless good problem ≡ [] → good ≡ true
unless-none true problem h = refl
unless-none false problem h = let never : ⊥ = cc h in elim never [ ]

pub append-none : {A : Type 0} (xs ys : List A) → xs ++ ys ≡ [] → (xs ≡ []) × (ys ≡ [])
append-none [] ys h = (refl, h)
append-none (x ∷ xs) ys h = let never : ⊥ = cc h in elim never [ ]

ok-injective : {A : Type 0} (a b : A) → Path (Result A) (ok a) (ok b) → a ≡ b
ok-injective a b h = cc h

module _ {N W : Type 0} (stack : Stack N W) where
  services_online :
      (d : Dict N) (names : List String)
      → service_problems stack (obj d) names ≡ ok []
      → AllOnline d names
  unfolding service_problems
  services_online d [] h = tt
  services_online d (name ∷ names) h =
      let (v, found, k) = and_then-ok _ _ _ h in
      let (rest, later, l) = and_then-ok _ _ _ k in
      let (none_here, none_left) =
        append-none (unless (is_text v "online") _) rest (ok-injective _ _ l) in
      (
        get_or-text d name (str "missing") v "online" found refl
            (unless-none (is_text v "online") _ none_here),
        services_online d names (later ∙ ap ok none_left),
      )

  services_obj :
      (services : Json N) (name : String) (names found : List String)
      → service_problems stack services (name ∷ names) ≡ ok found
      → (d : Dict N) × (services ≡ obj d)
  unfolding service_problems
  services_obj services name names found h =
      let (v, e, _) = and_then-ok _ _ _ h in get_or-obj services name _ v e

  found_or_default :
      (o : Option (Json N)) (default v : Json N)
      → Path (Result (Json N)) (elim o [ none ↦ ok default | some v ↦ ok v ]) (ok v)
      → (o ≡ some v) ⊎ (v ≡ default)
  found_or_default none default v h = inr (sym (ok-injective default v h))
  found_or_default (some u) default v h = inl (ap some (ok-injective u v h))

  listed_services :
      (d s : Dict N)
      → get_or (obj d) "services" (obj empty) ≡ ok (obj s)
      → AllOnline s expected_services
      → get d "services" ≡ some (obj s)
  unfolding get
  listed_services d s h online = elim (found_or_default (get d "services") (obj empty) (obj s) h) [
    | inl found ↦ found
    | inr missing ↦
        (let same : s ≡ empty = cc missing in
          let nothing : get s "python" ≡ none = ap (λ d. get d "python") same in
          let never : ⊥ = cc (nothing, online.0) in elim never [ ])
  ]

  pub status_problems-IsUp : (status : Json N) → status_problems stack status ≡ ok [] → IsUp status
  unfolding status_problems
  status_problems-IsUp status h =
      let (services, e₁, h₁) = and_then-ok _ _ _ h in
      let (found, e₂, h₂) = and_then-ok _ _ _ h₁ in
      let (storage, e₃, h₃) = and_then-ok _ _ _ h₂ in
      let (mode, e₄, h₄) = and_then-ok _ _ _ h₃ in
      let (d, is_d) = get_or-obj status _ _ _ e₁ in
      let (s, is_s) = services_obj services _ _ found e₂ in
      let (before, replayed) = append-none _ _ (ok-injective _ _ h₄) in
      let (none_found, stored) = append-none found _ before in
      let at : (k : String) (default v : Json N)
          → get_or status k default ≡ ok v
          → get_or (obj d) k default ≡ ok v =
        λ k default v e. ap (λ x. get_or x k default) (sym is_d) ∙ e in
      let online =
        services_online s expected_services (
          ap (λ x. service_problems stack x expected_services) (sym is_s)
          ∙ e₂
          ∙ ap ok none_found) in
      record {
        fields = d;
        is_dict = is_d;
        services = s;
        listed = listed_services d s (at _ _ _ e₁ ∙ ap ok is_s) online;
        online = online;
        storage =
            get_or-text d "storage" null storage "postgres" (at _ _ _ e₃) refl
              (unless-none (is_text storage "postgres") _ stored);
        mode =
            get_or-text d "model_mode" null mode "replay" (at _ _ _ e₄) refl
              (unless-none (is_text mode "replay") _ replayed);
      }

  is_true-eq : (v : Json N) → is_true v ≡ true → v ≡ bool true
  is_true-eq (bool b) h = ap bool h
  is_true-eq null h = cc h
  is_true-eq (str s) h = cc h
  is_true-eq (int z) h = cc h
  is_true-eq (float x) h = cc h
  is_true-eq (arr xs) h = cc h
  is_true-eq (obj d) h = cc h

  found_true :
      (d : Dict N) (v : Json N)
      → get_or (obj d) "valid" null ≡ ok v
      → v ≡ bool true
      → get d "valid" ≡ some (bool true)
  found_true d v h e = elim (found_or_default (get d "valid") null v h) [
    | inl found ↦ found ∙ ap some e
    | inr missing ↦ (let never : ⊥ = cc (missing, e) in elim never [ ])
  ]

  found_verify :
      (d v : Dict N)
      → get_or (obj d) "verify" (obj empty) ≡ ok (obj v)
      → get v "valid" ≡ some (bool true)
      → get d "verify" ≡ some (obj v)
  unfolding get
  found_verify d v h valid = elim (found_or_default (get d "verify") (obj empty) (obj v) h) [
    | inl found ↦ found
    | inr missing ↦
        (let same : v ≡ empty = cc missing in
          let nothing : get v "valid" ≡ none = ap (λ d. get d "valid") same in
          let never : ⊥ = cc (nothing, valid) in elim never [ ])
  ]

  pub audit_problems-IsVerified :
      (audit : Json N) → audit_problems stack audit ≡ ok [] → IsVerified audit
  unfolding audit_problems
  audit_problems-IsVerified audit h =
      let (verify, e₁, h₁) = and_then-ok _ _ _ h in
      let (valid, e₂, h₂) = and_then-ok _ _ _ h₁ in
      let (d, is_d) = get_or-obj audit _ _ _ e₁ in
      let (v, is_v) = get_or-obj verify _ _ _ e₂ in
      let truthful = is_true-eq valid (unless-none (is_true valid) _ (ok-injective _ _ h₂)) in
      let there = found_true v valid (ap (λ x. get_or x "valid" null) (sym is_v) ∙ e₂) truthful in
      record {
        fields = d;
        is_dict = is_d;
        verify = v;
        verified =
            found_verify d v (ap (λ x. get_or x "verify" (obj empty)) (sym is_d) ∙ e₁ ∙ ap ok is_v)
              there;
        valid = there;
      }
