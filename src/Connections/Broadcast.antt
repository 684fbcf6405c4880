-- ===== src/Connections/Broadcast.antt =====
-- Whom a broadcast drops, and what interrupts it.
use vaultwatch.Base.{
  ℕ, ◌≡◌, ◌≢◌, refl, sym, ap, ◌∙◌, Bool, true, false, false≢true, not, ◌&&◌, ◌⊎◌, inl, inr, List,
  [], ◌∷◌, ◌++◌, length, if◌then◌else◌, arith, Bool-cases,
}
use mathlib.Core.List.{append-nil, append_assoc}
use vaultwatch.Base.Exec.{
  Exc, Result, ok, err, runtime_error, value_error, http_error, http_exception, other_exception,
  cancelled, continue, is_exception, caught,
}
use vaultwatch.Base.Exec.Ends.{Ends, Ends-continue, Ends-handled, Ends-weaken}
use vaultwatch.Connections.{
  Transport, member, discard, checked, send_to, send_all, disconnect, disconnect_all, broadcast,
}

-- What a broadcast that nothing interrupts can rely on: what was set is read back, and a send leaves
-- the set alone and raises only for a socket that is not `alive`, or when it is cancelled.
pub record Undisturbed {P W : Type 0} (t : Transport P W) (alive : ℕ → Bool) : Type 0 where
  pub reads : (xs : List ℕ) (w : W) → t.connections (t.set_connections xs w) ≡ xs
  pub sends :
      (ws : ℕ) (p : P) (w : W)
      → Ends
          (λ _ w'. (t.connections w' ≡ t.connections w) × (alive ws ≡ true))
          (λ e w'. (t.connections w' ≡ t.connections w) × ((alive ws ≡ false) ⊎ (e ≡ cancelled)))
          (t.send_json ws p w)

-- the sockets that are alive, in their order
abbrev pub living : (ℕ → Bool) → List ℕ → List ℕ
living alive [] = []
living alive (x ∷ xs) = if alive x then x ∷ living alive xs else living alive xs

abbrev dying : (ℕ → Bool) → List ℕ → List ℕ
dying alive [] = []
dying alive (x ∷ xs) = if alive x then dying alive xs else x ∷ dying alive xs

abbrev discard_all : List ℕ → List ℕ → List ℕ
discard_all [] xs = xs
discard_all (y ∷ ys) xs = discard_all ys (discard y xs)

abbrev without : List ℕ → List ℕ → List ℕ
without ys [] = []
without ys (x ∷ xs) = if member x ys then without ys xs else x ∷ without ys xs

without-discard : (y : ℕ) (ys xs : List ℕ) → without ys (discard y xs) ≡ without (y ∷ ys) xs
unfolding discard
without-discard y ys [] = refl
without-discard y ys (x ∷ xs) = ground (arith, without-discard y ys xs)

without-nil : (xs : List ℕ) → without [] xs ≡ xs
without-nil [] = refl
without-nil (x ∷ xs) = ap (λ r. x ∷ r) (without-nil xs)

discard_all-without : (ys xs : List ℕ) → discard_all ys xs ≡ without ys xs
discard_all-without [] xs = sym (without-nil xs)
discard_all-without (y ∷ ys) xs = discard_all-without ys (discard y xs) ∙ without-discard y ys xs

member-dying :
    (alive : ℕ → Bool) (x : ℕ) (zs : List ℕ)
    → member x (dying alive zs) ≡ (member x zs && not (alive x))
member-dying alive x [] = refl
member-dying alive x (z ∷ zs) =
    let same : z ≡ x → alive z ≡ alive x = λ e. ap alive e in
    ground (arith, same, member-dying alive x zs, Bool-cases (alive z), Bool-cases (alive x))

without-dying :
    (alive : ℕ → Bool) (zs xs : List ℕ)
    → ((x : ℕ) → member x xs ≡ true → member x zs ≡ true)
    → without (dying alive zs) xs ≡ living alive xs
without-dying alive zs [] h = refl
without-dying alive zs (x ∷ xs) h =
    let rest = without-dying alive zs xs (λ y k. h y (ground (arith, k))) in
    let here : member x zs ≡ true = h x (ground arith) in
    ground (arith, rest, here, member-dying alive x zs)

module _ {P W : Type 0} (t : Transport P W) where
  checked-other :
      (n : ℕ) (w : W)
      → length (t.connections w) ≢ n
      → checked t n w ≡ (err (runtime_error "Set changed size during iteration"), w)
  unfolding checked
  checked-other n w h = ground (arith, h)

  checked-same : (n : ℕ) (w : W) → length (t.connections w) ≡ n → checked t n w ≡ (ok tt, w)
  unfolding checked
  checked-same n w h = ground (arith, h)

  interrupted :
      (p : P) (n : ℕ) (rest dead : List ℕ) (w : W)
      → length (t.connections w) ≢ n
      → send_all t p n rest dead w ≡ (err (runtime_error "Set changed size during iteration"), w)
  unfolding send_all
  interrupted p n [] dead w h = ap (continue (λ _ s. (ok dead, s))) (checked-other n w h)
  interrupted p n (ws ∷ rest) dead w h =
      ap (continue (λ _ s. continue (λ d. send_all t p n rest d) (send_to t p ws dead s)))
        (checked-other n w h)

  after_send :
      (p : P) (ws : ℕ) (dead : List ℕ) (w w' : W) (answer : Result Unit)
      → t.send_json ws p w ≡ (answer, w')
      → answer ≢ err cancelled
      → (d : List ℕ) × (send_to t p ws dead w ≡ (ok d, w'))
  unfolding send_to
  after_send p ws dead w w' (ok u) sent kept = (
    dead,
    ap (λ r. caught (λ e s. (ok (dead ++ ws ∷ []), s)) (continue (λ _ s. (ok dead, s)) r)) sent,
  )
  after_send p ws dead w w' (err e) sent kept = (
    dead ++ ws ∷ [],
    ap (λ r. caught (λ e s. (ok (dead ++ ws ∷ []), s)) (continue (λ _ s. (ok dead, s)) r)) sent
        ∙ handled e kept,
  )
    where
      handled :
          (e : Exc)
          → ◌≢◌ {A = Result Unit} (err e) (err cancelled)
          → caught (λ e s. (ok (dead ++ ws ∷ []), s)) (err e, w') ≡ (ok (dead ++ ws ∷ []), w')
      handled cancelled k = absurd (k refl)
      handled (value_error m) k = refl
      handled (runtime_error m) k = refl
      handled (http_error m) k = refl
      handled (http_exception n m) k = refl
      handled (other_exception m) k = refl

  first :
      (p : P) (n ws : ℕ) (rest : List ℕ) (w : W)
      → checked t n w ≡ (ok tt, w)
      → send_all t p n (ws ∷ rest) [] w
        ≡ continue (λ d. send_all t p n rest d) (send_to t p ws [] w)
  unfolding send_all
  first p n ws rest w h =
      ap (continue (λ _ s. continue (λ d. send_all t p n rest d) (send_to t p ws [] s))) h

  -- Whatever a send answers, short of a cancellation, a broadcast whose first send changes the number
  -- of connected sockets raises a `RuntimeError`, and drops none of the sockets.
  pub broadcast_interrupted :
      (p : P) (w w' : W) (ws : ℕ) (rest : List ℕ) (answer : Result Unit)
      → t.connections w ≡ ws ∷ rest
      → t.send_json ws p w ≡ (answer, w')
      → answer ≢ err cancelled
      → length (t.connections w') ≢ length (t.connections w)
      → broadcast t p w ≡ (err (runtime_error "Set changed size during iteration"), w')
  unfolding broadcast
  broadcast_interrupted p w w' ws rest answer is sent kept changed =
      let n = length (t.connections w) in
      let (d, done) = after_send p ws [] w w' answer sent kept in
      ap (continue (disconnect_all t)) (
        ap (λ xs. send_all t p n xs [] w) is
        ∙ first p n ws rest w (checked-same n w refl)
        ∙ ap (continue (λ d. send_all t p n rest d)) done
        ∙ interrupted p n rest d w' changed)

  module _ (alive : ℕ → Bool) (calm : Undisturbed t alive) where
    send_to-Sent :
        (p : P) (ws : ℕ) (dead : List ℕ) (w : W)
        → Ends
            (λ d w'. (t.connections w' ≡ t.connections w) × (d ≡ dead ++ dying alive (ws ∷ [])))
            (λ e w'. e ≡ cancelled)
            (send_to t p ws dead w)
    unfolding send_to
    send_to-Sent p ws dead w =
        Ends-handled _ _
          (Ends-continue _ _ (calm.sends ws p w) (λ e w' h. h)
            λ u w' h. record { at = (h.0, simp h.1 (sym (append-nil dead))) })
          (λ e w' exc h. record { at = (h.0, simp (dead_socket e exc h.1) refl) }) (λ w' h. refl)
      where
        dead_socket :
            (e : Exc)
            → is_exception e ≡ true
            → (alive ws ≡ false) ⊎ (e ≡ cancelled)
            → alive ws ≡ false
        dead_socket e exc (inl gone) = gone
        dead_socket e exc (inr c) = absurd (false≢true (sym (ap is_exception c) ∙ exc))

    dying-one :
        (ws : ℕ) (rest : List ℕ)
        → dying alive (ws ∷ []) ++ dying alive rest ≡ dying alive (ws ∷ rest)
    dying-one ws rest = ground (arith, Bool-cases (alive ws))

    dying-cons :
        (dead : List ℕ) (ws : ℕ) (rest : List ℕ)
        → (dead ++ dying alive (ws ∷ [])) ++ dying alive rest ≡ dead ++ dying alive (ws ∷ rest)
    dying-cons dead ws rest =
        append_assoc dead (dying alive (ws ∷ [])) (dying alive rest)
        ∙ ap (λ r. dead ++ r) (dying-one ws rest)

    send_all-Sent :
        (p : P) (n : ℕ) (rest dead : List ℕ) (w : W)
        → length (t.connections w) ≡ n
        → Ends
            (λ d w'. (t.connections w' ≡ t.connections w) × (d ≡ dead ++ dying alive rest))
            (λ e w'. e ≡ cancelled)
            (send_all t p n rest dead w)
    unfolding send_all
    send_all-Sent p n [] dead w h =
        simp (checked-same n w h) (record { at = (refl, sym (append-nil dead)) })
    send_all-Sent p n (ws ∷ rest) dead w h = simp (checked-same n w h) (
        Ends-continue _ _ (send_to-Sent p ws dead w) (λ e w' c. c)
          λ d w' k.
            Ends-weaken _ (send_all-Sent p n rest d w' (ap length k.0 ∙ h))
              (λ d' w'' q.
                (q.0 ∙ k.0, q.1 ∙ ap (λ x. x ++ dying alive rest) k.1 ∙ dying-cons dead ws rest))
              (λ e w'' c. c))

    drop_all :
        (ys : List ℕ) (w : W)
        → Ends
            (λ _ w'. t.connections w' ≡ discard_all ys (t.connections w))
            (λ e _. e ≡ cancelled)
            (disconnect_all t ys w)
    unfolding disconnect_all disconnect
    drop_all [] w = record { at = refl }
    drop_all (y ∷ ys) w =
        Ends-weaken _ (drop_all ys (t.set_connections (discard y (t.connections w)) w))
          (λ u w' q. q ∙ ap (discard_all ys) (calm.reads (discard y (t.connections w)) w))
          (λ e w' c. c)

    -- Where a send leaves the connected sockets alone, and raises only for a socket that is not alive
    -- or when it is cancelled, a broadcast either is cancelled, or leaves exactly the sockets that are
    -- alive, in their order.
    pub broadcast-living :
        (p : P) (w : W)
        → Ends
            (λ _ w'. t.connections w' ≡ living alive (t.connections w))
            (λ e _. e ≡ cancelled)
            (broadcast t p w)
    unfolding broadcast
    broadcast-living p w =
        let xs = t.connections w in
        Ends-continue _ _ (send_all-Sent p (length xs) xs [] w refl) (λ e w' c. c)
          λ d w' k.
            Ends-weaken _ (drop_all d w')
              (λ u w'' q.
                q
                ∙ ap (discard_all d) k.0
                ∙ discard_all-without d xs
                ∙ ap (λ ys. without ys xs) k.1
                ∙ without-dying alive xs xs (λ x m. m))
              (λ e w'' c. c)
