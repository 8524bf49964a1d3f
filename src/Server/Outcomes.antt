-- ===== src/Server/Outcomes.antt =====
-- What holds where a handler ends, and the steps of a handler whose calls succeed.
use perseus.Prelude.{◌≡◌, ap, Result, ok, err}
use perseus.Store.Session.{Session, StoreError}
use perseus.Store.Ends.{Ends}
use perseus.Server.Messages.{ConnectError}
use perseus.Server.Backend.{Handler, Call, ◌>>=◌, call}

-- A predicate on a response and one on an error, each with the state that is left.
abbrev pub Answers {ℓ} :
    {S : Type 0} {A : Type ℓ}
    → (A → S → Type 0)
    → (ConnectError → S → Type 0)
    → Result ConnectError A × S
    → Type 0
Answers P Q (ok a, s) = P a s
Answers P Q (err e, s) = Q e s

-- A call of the store answers with the given error where the store fails.
pub Answers-call {ℓ} :
    {A : Type ℓ} (P : A → Session → Type 0) (Q : StoreError → Session → Type 0)
    (R : ConnectError → Session → Type 0) (m : Call Session StoreError A) (e : ConnectError)
    (s : Session)
    → Ends P Q (m s)
    → ((f : StoreError) (t : Session) → Q f t → R e t)
    → Answers P R (call m e s)
Answers-call {A} P Q R m e s h k = by_result (m s) h
  where
    by_result :
        (r : Result StoreError A × Session)
        → Ends P Q r
        → Answers P R (let (x, s') = r in elim x [ err _ ↦ (err e, s') | ok a ↦ (ok a, s') ])
    by_result (ok a, t) h = h
    by_result (err f, t) h = k f t h

module _ {ℓ} {S : Type 0} {A : Type ℓ} where
  pub call-ok :
      (m : Call S StoreError A) (e : ConnectError) {a : A} {s s' : S}
      → m s ≡ (ok a, s')
      → call m e s ≡ (ok a, s')
  call-ok m e h =
      ap
        (λ (r : Result StoreError A × S).
          let (x, s') = r in elim x [ err _ ↦ (err e, s') | ok a ↦ (ok a, s') ])
        h

  pub bind-ok {κ} :
      {B : Type κ} (m : Handler S A) (f : A → Handler S B) {a : A} {s s' : S}
      → m s ≡ (ok a, s')
      → (m >>= f) s ≡ f a s'
  bind-ok m f h =
      ap
        (λ (r : Result ConnectError A × S).
          let (x, s') = r in elim x [ err e ↦ (err e, s') | ok a ↦ f a s' ])
        h
