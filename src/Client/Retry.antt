-- ===== src/Client/Retry.antt =====
-- retry.go: an operation is tried again while the server is unavailable.
use perseus.Prelude.{
  ℕ, suc, ◌<◌, ◌≡◌, refl, ◌⊎◌, inl, inr, ap, ◌∙◌, not, Bool, true, false, List, [], ◌∷◌, length,
  Result, ok, err, if◌then◌else◌, Bool-cases, arith,
}

-- connect.CodeOf(err), as far as the client looks at it
pub data RpcError : Type 0 where
  unavailable canceled : RpcError
  other_code : ℕ → RpcError
  -- the client's own errors
  no_version bad_argument address_required : RpcError
  -- an index out of range, and a loop that asked for more pages than it was given
  panic out_of_pages : RpcError

abbrev pub is_unavailable : RpcError → Bool
is_unavailable unavailable = true
is_unavailable _ = false

abbrev pub Op {ℓ} : Type 0 → Type ℓ → Type ℓ
Op S A = S → Result RpcError A × S

infixl 5 ◌>>=◌
abbrev pub ◌>>=◌ {ℓ κ} : {S : Type 0} {A : Type ℓ} {B : Type κ} → Op S A → (A → Op S B) → Op S B
◌>>=◌ op next s = let (r, s') = op s in elim r [ ok a ↦ next a s' | err e ↦ (err e, s') ]

abbrev pub done {ℓ} : {S : Type 0} {A : Type ℓ} → A → Op S A
done a s = (ok a, s)

abbrev pub stop {ℓ} : {S : Type 0} {A : Type ℓ} → RpcError → Op S A
stop e s = (err e, s)

-- The step of a chain whose first operation is known to succeed.
pub bind-ok {ℓ κ} :
    {S : Type 0} {A : Type ℓ} {B : Type κ} (op : Op S A) (next : A → Op S B) {a : A} {s s' : S}
    → op s ≡ (ok a, s')
    → (op >>= next) s ≡ next a s'
bind-ok {S} {A} op next h =
    ap
      (λ (r : Result RpcError A × S).
        let (x, t) = r in elim x [ ok a ↦ next a t | err e ↦ (err e, t) ])
      h

-- The delays in milliseconds, to which the jitter is added.
abbrev pub backoff_delays : List ℕ
backoff_delays = 100 ∷ 200 ∷ 300 ∷ 500 ∷ 800 ∷ 0 ∷ []

-- After an attempt: an unavailable server is asked again.
abbrev pub proceed {ℓ} :
    {S : Type 0} {A : Type ℓ} → (RpcError → Op S A) → Result RpcError A × S → Result RpcError A × S
proceed again (ok a, s) = (ok a, s)
proceed again (err e, s) = if is_unavailable e then again e s else (err e, s)

-- The loop over the delays; `last` is the error of the attempt before.
unfoldable pub retry_loop {ℓ} : {S : Type 0} {A : Type ℓ} → List ℕ → RpcError → Op S A → Op S A
retry_loop [] last op s = (err last, s)
retry_loop (wait ∷ waits) last op s = proceed (λ e. retry_loop waits e op) (op s)

unfoldable pub retry_op {ℓ} : {S : Type 0} {A : Type ℓ} → Op S A → Op S A
unfolding retry_loop
retry_op op = retry_loop backoff_delays unavailable op

-- A number of attempts one after the other that all find the server unavailable.
pub data Fails {ℓ} {S : Type 0} {A : Type ℓ} (op : Op S A) : ℕ → S → S → Type ℓ where
  none_yet : (s : S) → Fails op 0 s s
  one_more :
      (n : ℕ) (s t u : S) → op s ≡ (err unavailable, t) → Fails op n t u → Fails op (suc n) s u

-- Whether a result ends the loop.
abbrev pub is_final {ℓ} : {A : Type ℓ} → Result RpcError A → Bool
is_final (ok a) = true
is_final (err e) = not (is_unavailable e)

-- A run is a number of failing attempts and then one attempt whose outcome is the outcome of the
-- run: a final one, or the last of those that are allowed.
abbrev pub Attempts {ℓ} :
    {S : Type 0} {A : Type ℓ} → Op S A → ℕ → S → Result RpcError A × S → Type ℓ
Attempts {S} op retries s outcome =
    (n : ℕ) × (t : S) × Fails op n s t
    × (outcome ≡ op t)
    × ((n < retries) × (is_final (op t).0 ≡ true) ⊎ (n ≡ retries))

is_unavailable-eq : (e : RpcError) → is_unavailable e ≡ true → e ≡ unavailable
is_unavailable-eq e h = ground arith

module _ {ℓ} {S : Type 0} {A : Type ℓ} (op : Op S A) where
  last_attempt : (r : Result RpcError A × S) → proceed (λ f t. (err f, t)) r ≡ r
  last_attempt (ok a, t) = refl
  last_attempt (err f, t) = elim (Bool-cases (is_unavailable f)) [
    | inl h ↦ rw h refl
    | inr h ↦ rw h refl
  ]

  next_attempt :
      (r : Result RpcError A × S) (wait w : ℕ) (waits : List ℕ) (last : RpcError) (s : S)
      → op s ≡ r
      → ((f : RpcError) (t : S) → Attempts op (length waits) t (retry_loop (w ∷ waits) f op t))
      → Attempts op (suc (length waits)) s (retry_loop (wait ∷ w ∷ waits) last op s)
  unfolding retry_loop
  next_attempt (ok a, t) wait w waits last s e known =
      (0, s, none_yet s, rw (retry_loop, e), inl (omega arith, rw e refl))
  next_attempt (err f, t) wait w waits last s e known = elim (Bool-cases (is_unavailable f)) [
    | inr h ↦ (0, s, none_yet s, rw (retry_loop, e, h), inl (omega arith, rw (e, h) refl))
    | inl h ↦
        let (n, u, fails, outcome, ends) = known f t in
        (
          suc n,
          u,
          one_more n s t u (e ∙ ap (λ g. (err g, t)) (is_unavailable-eq f h)) fails,
          rw (retry_loop, e, h) outcome,
          later n u ends,
        )
  ]
    where
      later :
          (n : ℕ) (u : S)
          → (n < length waits) × (is_final (op u).0 ≡ true) ⊎ (n ≡ length waits)
          → (suc n < suc (length waits)) × (is_final (op u).0 ≡ true) ⊎ (suc n ≡ suc (length waits))
      later n u (inl (h, k)) = inl (omega arith, k)
      later n u (inr h) = inr (omega arith)

  retry_loop-Attempts :
      (wait : ℕ) (waits : List ℕ) (last : RpcError) (s : S)
      → Attempts op (length waits) s (retry_loop (wait ∷ waits) last op s)
  retry_loop-Attempts wait [] last s =
      (0, s, none_yet s, unfold retry_loop in last_attempt (op s), inr refl)
  retry_loop-Attempts wait (w ∷ waits) last s =
      next_attempt (op s) wait w waits last s refl (λ f t. retry_loop-Attempts w waits f t)

  -- `retryOp` attempts the operation at most 6 times: it goes on only while the server is
  -- unavailable, and its outcome is that of its last attempt, which either is final or is the
  -- sixth.
  pub retry_op-Attempts : (s : S) → Attempts op 5 s (retry_op op s)
  unfolding retry_op
  retry_op-Attempts s = retry_loop-Attempts 100 (200 ∷ 300 ∷ 500 ∷ 800 ∷ 0 ∷ []) unavailable s

-- A first attempt that succeeds is the outcome.
pub retry_op-ok {ℓ} :
    {S : Type 0} {A : Type ℓ} (op : Op S A) {a : A} {s s' : S}
    → op s ≡ (ok a, s')
    → retry_op op s ≡ (ok a, s')
unfolding retry_op retry_loop
retry_op-ok op h = ap (proceed (λ e. retry_loop (200 ∷ 300 ∷ 500 ∷ 800 ∷ 0 ∷ []) e op)) h
