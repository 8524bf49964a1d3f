-- ===== src/Store/Ends.antt =====
-- What holds where an action ends: one predicate for success and one for failure.
use perseus.Prelude.{
  ap, sym, subst, if◌then◌else◌, Result, ok, err, ℕ, ◌+◌, ◌≤◌, ◌≡◌, refl, arith, List, [], ◌∷◌,
  Bool, true, false, ltb,
}
use perseus.Store.Session.{
  answer, lift, ◌>>◌, serial_limit, StoreError, connection_failed, invalid_semver,
  sequence_exhausted, Session, Db, ◌>>=◌, round_trip, next_module_id, next_version_id,
}

abbrev pub Ends {ℓ} :
    {A : Type ℓ}
    → (A → Session → Type 0)
    → (StoreError → Session → Type 0)
    → Result StoreError A × Session
    → Type 0
Ends P Q (ok a, s) = P a s
Ends P Q (err e, s) = Q e s

pub Ends-bind {ℓ κ} :
    {A : Type ℓ} {B : Type κ} (P : A → Session → Type 0) (R : B → Session → Type 0)
    (Q : StoreError → Session → Type 0) (m : Db A) (f : A → Db B) (s : Session)
    → Ends P Q (m s)
    → ((a : A) (s' : Session) → P a s' → Ends R Q (f a s'))
    → Ends R Q ((m >>= f) s)
Ends-bind P R Q m f s h k = ends_elim (m s) h
  where
    ends_elim :
        (r : Result StoreError _ × Session)
        → Ends P Q r
        → Ends R Q (let (x, s') = r in elim x [ ok a ↦ f a s' | err e ↦ (err e, s') ])
    ends_elim (ok a, s') h = k a s' h
    ends_elim (err e, s') h = h

-- The sequences only grow.
pub record Later (s s' : Session) : Type 0 where
  pub module_grows : s.next_module ≤ s'.next_module
  pub version_grows : s.next_version ≤ s'.next_version

pub Ends-if {ℓ} :
    {A : Type ℓ} (P : A → Session → Type 0) (Q : StoreError → Session → Type 0) (b : Bool)
    (x y : Result StoreError A × Session)
    → (b ≡ true → Ends P Q x)
    → (b ≡ false → Ends P Q y)
    → Ends P Q (if b then x else y)
Ends-if P Q true x y h k = h refl
Ends-if P Q false x y h k = k refl

-- The step of a bind whose first action is known to succeed.
pub bind-ok {ℓ κ} :
    {A : Type ℓ} {B : Type κ} (m : Db A) (f : A → Db B) {a : A} {s s' : Session}
    → m s ≡ (ok a, s')
    → (m >>= f) s ≡ f a s'
bind-ok {A} m f h =
    ap
      (λ (r : Result StoreError A × Session).
        let (x, s') = r in elim x [ ok a ↦ f a s' | err e ↦ (err e, s') ])
      h

-- A round trip without faults to come changes nothing.
pub round_trip-calm : (s : Session) → s.faults ≡ [] → round_trip s ≡ (ok tt, s)
unfolding round_trip
round_trip-calm s e = subst (λ faults. answer faults s ≡ (ok tt, s)) (sym e) refl

-- The same for a test between two actions.
pub Ends-if_action {ℓ} :
    {A : Type ℓ} (P : A → Session → Type 0) (Q : StoreError → Session → Type 0) (b : Bool)
    (m n : Db A) (s : Session)
    → (b ≡ true → Ends P Q (m s))
    → (b ≡ false → Ends P Q (n s))
    → Ends P Q ((if b then m else n) s)
Ends-if_action P Q true m n s h k = h refl
Ends-if_action P Q false m n s h k = k refl

module _ {ℓ} {B : Type ℓ} (R : B → Session → Type 0) (Q : StoreError → Session → Type 0) where
  -- A round trip changes nothing but the faults to come.
  pub bind-round_trip :
      (f : Db B) (s : Session)
      → ((faults : List Bool) → Ends R Q (f (record s { faults = faults })))
      → ((faults : List Bool) → Q connection_failed (record s { faults = faults }))
      → Ends R Q ((round_trip >> f) s)
  unfolding round_trip
  bind-round_trip f s h q = by_fault s.faults refl
    where
      by_fault :
          (faults : List Bool)
          → s.faults ≡ faults
          → Ends R Q (let (r, s') = answer faults s in elim r [ ok _ ↦ f s' | err e ↦ (err e, s') ])
      by_fault [] e = h s.faults
      by_fault (true ∷ faults) e = q faults
      by_fault (false ∷ faults) e = h faults

  pub bind-next_module_id :
      (f : ℕ → Db B) (s : Session)
      → Ends R Q (f s.next_module (record s { next_module = s.next_module + 1 }))
      → Q sequence_exhausted s
      → Ends R Q ((next_module_id >>= f) s)
  unfolding next_module_id
  bind-next_module_id f s h q =
      Ends-bind (λ id s'. Ends R Q (f id s')) R Q next_module_id f s
        (Ends-if _ Q (ltb s.next_module serial_limit) _ _ (λ _. h) (λ _. q)) (λ _ _ p. p)

  pub bind-next_version_id :
      (f : ℕ → Db B) (s : Session)
      → Ends R Q (f s.next_version (record s { next_version = s.next_version + 1 }))
      → Q sequence_exhausted s
      → Ends R Q ((next_version_id >>= f) s)
  unfolding next_version_id
  bind-next_version_id f s h q =
      Ends-bind (λ id s'. Ends R Q (f id s')) R Q next_version_id f s
        (Ends-if _ Q (ltb s.next_version serial_limit) _ _ (λ _. h) (λ _. q)) (λ _ _ p. p)

  pub bind-lift {κ} :
      {A : Type κ} (r : Result StoreError A) (f : A → Db B) (s : Session)
      → ((a : A) → r ≡ ok a → Ends R Q (f a s))
      → ((e : StoreError) → r ≡ err e → Q e s)
      → Ends R Q ((lift r >>= f) s)
  bind-lift (ok a) f s h q = h a refl
  bind-lift (err e) f s h q = q e refl

pub Ends-weaken {ℓ} :
    {A : Type ℓ} (P R : A → Session → Type 0) (Q Q' : StoreError → Session → Type 0)
    (r : Result StoreError A × Session)
    → Ends P Q r
    → ((a : A) (s : Session) → P a s → R a s)
    → ((e : StoreError) (s : Session) → Q e s → Q' e s)
    → Ends R Q' r
Ends-weaken P R Q Q' (ok a, s) h f g = f a s h
Ends-weaken P R Q Q' (err e, s) h f g = g e s h

pub Later-trans : {s t u : Session} → Later s t → Later t u → Later s u
Later-trans a b = omega arith

-- The errors that come from outside: a connection that fails, a text that is no version, and a
-- counter that has run out. The rest would be faults of the program.
abbrev pub Environmental : StoreError → Type 0
Environmental connection_failed = Unit
Environmental invalid_semver = Unit
Environmental sequence_exhausted = Unit
Environmental _ = ⊥

abbrev pub Failed : Session → StoreError → Session → Type 0
Failed s e s' = Later s s' × Environmental e

pub Failed-trans :
    {s t : Session} (e : StoreError) (u : Session) → Later s t → Failed t e u → Failed s e u
Failed-trans e u l (m, env) = (Later-trans l m, env)
