-- ===== src/LocalStatus/Ready.antt =====
-- What an inspection says, and what it may raise.
use vaultwatch.Base.{
  ℕ, ◌≡◌, ◌⊎◌, inl, inr, refl, String, Bool, false, Option, some, List, [], ◌∷◌, ◌++◌, Bool-cases,
  arith,
}
use vaultwatch.Base.Exec.{
  Exc, value_error, runtime_error, http_error, http_exception, other_exception, cancelled, Result,
  ok, err, Exec, continue, lift, pure,
}
use vaultwatch.Base.Exec.Ends.{Ends-any, Ends, Ends-continue, Ends-weaken}
use vaultwatch.Models.Values.{Json}
use vaultwatch.LocalStatus.{
  Stack, Report, ready, is_os_error, is_fetch_error, caught_if, status_problems, audit_problems,
  inspect_document, inspect_dashboard, inspect_stack, fetch_json, fetch_status, Seen,
}
use vaultwatch.LocalStatus.Health.{
  IsUp, IsVerified, status_problems-IsUp, audit_problems-IsVerified,
}

-- Nothing is wrong with a document only if it was read and has `P`.
abbrev pub Sound : {A : Type 0} → (A → Type 0) → Option A × List String → Type 0
Sound {A} P (o, []) = (a : A) × (o ≡ some a) × P a
Sound P (o, x ∷ xs) = Unit

module _ {S A : Type 0} {P : A → S → Type 0} where
  -- what the clause does not name passes
  pub Ends-caught_if :
      (m : Result A × S) (errors : Exc → Bool) (handler : Exc → Exec S A)
      → Ends P (λ _ _. Unit {0}) m
      → ((e : Exc) (s : S) → Ends P (λ e _. errors e ≡ false) (handler e s))
      → Ends P (λ e _. errors e ≡ false) (caught_if errors handler m)
  Ends-caught_if (ok a, s) errors handler h k = record { at = h.at }
  Ends-caught_if (err e, s) errors handler h k = elim (Bool-cases (errors e)) [
    | inl named ↦ rw named (k e s)
    | inr other ↦ rw other (record { at = other })
  ]

-- an error that the requests' clauses do not name is none of the operating system's
is_os_error-narrow : (e : Exc) → is_fetch_error e ≡ false → is_os_error e ≡ false
unfolding is_fetch_error is_os_error
is_os_error-narrow (value_error m) h = refl
is_os_error-narrow (runtime_error m) h = refl
is_os_error-narrow (http_error m) h = refl
is_os_error-narrow (http_exception n m) h = refl
is_os_error-narrow cancelled h = refl
is_os_error-narrow (other_exception name) h = ground (arith, h)

module _ {N W : Type 0} (stack : Stack N W) where
  judged :
      (document : Json N) (w : W) (r : Result (List String))
      (problems : Json N → Result (List String))
      → problems document ≡ r
      → Ends
          (λ seen _. Sound (λ d. problems d ≡ ok []) seen)
          (λ _ _. Unit {0})
          (continue (λ found. pure (some document, found)) (lift r w))
  judged document w (ok []) problems e = record { at = (document, refl, e) }
  judged document w (ok (x ∷ xs)) problems e = record { at = tt }
  judged document w (err x) problems e = record { at = tt }

  document-Sound :
      (problems : Json N → Result (List String)) (url title : String) (deadline : Option ℕ) (w : W)
      → Ends
          (λ seen _. Sound (λ d. problems d ≡ ok []) seen)
          (λ e _. is_fetch_error e ≡ false)
          (inspect_document stack problems url title deadline w)
  unfolding inspect_document
  document-Sound problems url title deadline w =
      Ends-caught_if _ is_fetch_error _
        (Ends-continue (fetch_json stack deadline url w) _ (Ends-any _) (λ e w' h. h)
          λ document w' _.
            Ends-weaken _
              (Ends-caught_if _ is_fetch_error _
                (judged document w' (problems document) problems refl) (λ e w'. record { at = tt }))
              (λ a w' h. h) (λ e w' h. tt))
        (λ e w'. record { at = tt })

  dashboard-Sound :
      (deadline : Option ℕ) (w : W)
      → Ends
          (λ seen _. Sound (λ _. Unit {0}) seen)
          (λ e _. is_os_error e ≡ false)
          (inspect_dashboard stack deadline w)
  unfolding inspect_dashboard
  dashboard-Sound deadline w =
      Ends-caught_if _ is_os_error _
        (Ends-continue (fetch_status stack deadline "http://127.0.0.1:3000/" w) _ (Ends-any _)
          (λ e w' h. h) λ code w' _. record { at = (code, refl, tt) })
        (λ e w'. record { at = tt })

  -- A stack in working order: its backend is up, its dashboard answers, and its audit chain is valid.
  pub record IsHealthy (r : Report N) : Type 0 where
    pub status : Json N
    pub backend : r.backend ≡ some status
    pub up : IsUp status
    pub code : ℕ
    pub dashboard : r.dashboard_http ≡ some code
    pub chain : Json N
    pub audit : r.audit ≡ some chain
    pub verified : IsVerified chain

  healthy :
      (b : Seen (Json N)) (d : Seen ℕ) (a : Seen (Json N))
      → Sound (λ x. status_problems stack x ≡ ok []) b
      → Sound (λ _. Unit {0}) d
      → Sound (λ x. audit_problems stack x ≡ ok []) a
      → let r : Report N = record {
        backend = b.0;
        dashboard_http = d.0;
        audit = a.0;
        problems = b.1 ++ d.1 ++ a.1;
      } in
        (ready r ≡ false) ⊎ IsHealthy r
  healthy (b, []) (d, []) (a, []) (status, eb, up) (code, ed, _) (chain, ea, good) = inr (record {
    status = status;
    backend = eb;
    up = status_problems-IsUp stack status up;
    code = code;
    dashboard = ed;
    chain = chain;
    audit = ea;
    verified = audit_problems-IsVerified stack chain good;
  })
  healthy (b, x ∷ xs) d a hb hd ha = inl refl
  healthy (b, []) (d, x ∷ xs) a hb hd ha = inl refl
  healthy (b, []) (d, []) (a, x ∷ xs) hb hd ha = inl refl

  -- A report is ready only of a stack in working order: six services online, cases in PostgreSQL, the
  -- models replayed, the dashboard answering, and the audit chain valid. No failure to reach a service is
  -- raised: what is raised is none of the errors of a request.
  pub inspect_stack-IsHealthy :
      (deadline : Option ℕ) (w : W)
      → Ends
          (λ r _. (ready r ≡ false) ⊎ IsHealthy r)
          (λ e _. is_os_error e ≡ false)
          (inspect_stack stack deadline w)
  unfolding inspect_stack
  inspect_stack-IsHealthy deadline w =
      Ends-continue _ _ (document-Sound _ _ _ deadline w) (λ e w' h. is_os_error-narrow e h)
        λ b w₁ hb.
          Ends-continue _ _ (dashboard-Sound deadline w₁) (λ e w' h. h)
            λ d w₂ hd.
              Ends-continue _ _ (document-Sound _ _ _ deadline w₂)
                (λ e w' h. is_os_error-narrow e h) λ a w₃ ha. record { at = healthy b d a hb hd ha }
