-- ===== src/Delivery/Triples.antt =====
-- Triples for the actions of src/integrations/github/pr-webhook-handler.ts: what holds after an action that
-- returns, and after one that throws.
use fixor.Prelude.{◌≡◌, refl, Bool, true, false, [], ◌∷◌, ◌++◌, if◌then◌else◌}
use fixor.Delivery.{ScanRunState}
use fixor.Delivery.Scan.{
  Fault, Exit, returned, threw, ScanCall, ScanState, M, pure, raise, after, ◌>>=◌, perform, modify,
  try_catch, recover,
}

abbrev pub Post :
    {A : Type 0}
    → (A → ScanState → Type 0)
    → (Fault → ScanState → Type 0)
    → Exit A × ScanState
    → Type 0
Post Q E (returned a, s) = Q a s
Post Q E (threw e, s) = E e s

pub record Runs {A : Type 0} (P : ScanState → Type 0) (m : M A) (Q : A → ScanState → Type 0)
    (E : Fault → ScanState → Type 0) : Type 0 where
  pub at : (s : ScanState) → P s → Post Q E (m s)

after_rule :
    {A B : Type 0} {P : A → ScanState → Type 0} {E : Fault → ScanState → Type 0}
    (Q : B → ScanState → Type 0) (k : A → M B) (out : Exit A × ScanState)
    → ((a : A) → Runs (P a) (k a) Q E)
    → Post P E out
    → Post Q E (after out.0 k out.1)
after_rule Q k (returned a, s) next p = (next a).at s p
after_rule Q k (threw e, s) next p = p

handle_rule :
    {A : Type 0} {F : Fault → ScanState → Type 0} (Q : A → ScanState → Type 0)
    (E : Fault → ScanState → Type 0) (k : Fault → M A) (out : Exit A × ScanState)
    → ((e : Fault) → Runs (F e) (k e) Q E)
    → Post Q F out
    → Post Q E (recover out.0 k out.1)
handle_rule Q E k (returned a, s) next p = p
handle_rule Q E k (threw e, s) next p = (next e).at s p

perform_rule :
    {A : Type 0} (Q : A → ScanState → Type 0) (E : Fault → ScanState → Type 0) (exit : Exit A)
    (s : ScanState)
    → ((a : A) → exit ≡ returned a → Q a s)
    → ((e : Fault) → exit ≡ threw e → E e s)
    → Post Q E (exit, s)
perform_rule Q E (returned a) s q e = q a refl
perform_rule Q E (threw e) s q f = f e refl

module _ {A : Type 0} {P : ScanState → Type 0} {E : Fault → ScanState → Type 0} where
  pub Runs-bind :
      {B : Type 0} {Q : A → ScanState → Type 0} {R : B → ScanState → Type 0} {m : M A} {k : A → M B}
      → Runs P m Q E
      → ((a : A) → Runs (Q a) (k a) R E)
      → Runs P (m >>= k) R E
  unfolding ◌>>=◌
  Runs-bind {R = R} {m = m} {k = k} first next = record {
    at = λ s p. after_rule R k (m s) next (first.at s p);
  }

  pub Runs-pure :
      {Q : A → ScanState → Type 0} (a : A) → ((s : ScanState) → P s → Q a s) → Runs P (pure a) Q E
  unfolding pure
  Runs-pure a h = record { at = h }

  pub Runs-raise :
      {Q : A → ScanState → Type 0} (e : Fault)
      → ((s : ScanState) → P s → E e s)
      → Runs P (raise {A = A} e) Q E
  unfolding raise
  Runs-raise e h = record { at = h }

  pub Runs-try :
      {Q : A → ScanState → Type 0} {F : Fault → ScanState → Type 0} {m : M A} {k : Fault → M A}
      → Runs P m Q F
      → ((e : Fault) → Runs (F e) (k e) Q E)
      → Runs P (try_catch m k) Q E
  unfolding try_catch
  Runs-try {Q = Q} {m = m} {k = k} first next = record {
    at = λ s p. handle_rule Q E k (m s) next (first.at s p);
  }

  -- A fact about the arguments, carried by the precondition.
  pub Runs-fact :
      {F : Type 0} {Q : A → ScanState → Type 0} {m : M A}
      → (F → Runs P m Q E)
      → Runs (λ s. F × P s) m Q E
  Runs-fact h = record { at = λ s p. (h p.0).at s p.1 }

  -- An action that reads the state before it chooses what to do.
  pub Runs-read :
      {Q : A → ScanState → Type 0} {m : ScanState → M A} (R : ScanState → ScanState → Type 0)
      → ((s : ScanState) → P s → R s s)
      → ((s : ScanState) → Runs (R s) (m s) Q E)
      → Runs P (λ s. m s s) Q E
  Runs-read R first next = record { at = λ s p. (next s).at s (first s p) }

  -- The call is made, and comes to what it comes to.
  pub Runs-perform :
      {Q : A → ScanState → Type 0} (call : ScanCall) (exit : Exit A)
      → ((s : ScanState)
          → P s
          → (a : A) → exit ≡ returned a
          → Q a (record s { calls = s.calls ++ call ∷ [] }))
      → ((s : ScanState)
          → P s
          → (e : Fault) → exit ≡ threw e
          → E e (record s { calls = s.calls ++ call ∷ [] }))
      → Runs P (perform call exit) Q E
  unfolding perform
  Runs-perform {Q = Q} call exit q e = record {
    at = λ s p. perform_rule Q E exit _ (q s p) (e s p);
  }

  -- One of two actions, by a test.
  pub Runs-if :
      {Q : A → ScanState → Type 0} {m n : M A} (b : Bool)
      → (b ≡ true → Runs P m Q E)
      → (b ≡ false → Runs P n Q E)
      → Runs P (if b then m else n) Q E
  Runs-if true yes' no' = yes' refl
  Runs-if false yes' no' = no' refl

module _ {P : ScanState → Type 0} {E : Fault → ScanState → Type 0} where
  pub Runs-modify :
      {Q : Unit {0} → ScanState → Type 0} (change : ScanRunState → ScanRunState)
      → ((s : ScanState) → P s → Q tt (record s { run = change s.run }))
      → Runs P (modify change) Q E
  unfolding modify
  Runs-modify change h = record { at = h }

-- An action that keeps a predicate, whether it returns or throws.
pub record Keeps {A : Type 0} (P : ScanState → Type 0) (m : M A) : Type 0 where
  pub kept : (s : ScanState) → P s → P (m s).1

module _ {A : Type 0} {P : ScanState → Type 0} where
  pub Keeps-pure : (a : A) → Keeps P (pure a)
  unfolding pure
  Keeps-pure a = record { kept = λ s p. p }

  pub Keeps-raise : (e : Fault) → Keeps P (raise {A = A} e)
  unfolding raise
  Keeps-raise e = record { kept = λ s p. p }

  pub Keeps-if : (b : Bool) {m n : M A} → Keeps P m → Keeps P n → Keeps P (if b then m else n)
  Keeps-if true yes' no' = yes'
  Keeps-if false yes' no' = no'

  pub Keeps-perform :
      (call : ScanCall) (exit : Exit A)
      → ((s : ScanState) → P s → P (record s { calls = s.calls ++ call ∷ [] }))
      → Keeps P (perform call exit)
  unfolding perform
  Keeps-perform call exit h = record { kept = h }

  kept_after :
      {B : Type 0} (k : A → M B) (out : Exit A × ScanState)
      → ((a : A) → Keeps P (k a))
      → P out.1
      → P (after out.0 k out.1).1
  kept_after k (returned a, s) next p = (next a).kept s p
  kept_after k (threw e, s) next p = p

  pub Keeps-bind :
      {B : Type 0} {m : M A} {k : A → M B}
      → Keeps P m
      → ((a : A) → Keeps P (k a))
      → Keeps P (m >>= k)
  unfolding ◌>>=◌
  Keeps-bind {m = m} {k = k} first next = record {
    kept = λ s p. kept_after k (m s) next (first.kept s p);
  }

  kept_handle :
      (k : Fault → M A) (out : Exit A × ScanState)
      → ((e : Fault) → Keeps P (k e))
      → P out.1
      → P (recover out.0 k out.1).1
  kept_handle k (returned a, s) next p = p
  kept_handle k (threw e, s) next p = (next e).kept s p

  pub Keeps-try :
      {m : M A} {k : Fault → M A}
      → Keeps P m
      → ((e : Fault) → Keeps P (k e))
      → Keeps P (try_catch m k)
  unfolding try_catch
  Keeps-try {m = m} {k = k} first next = record {
    kept = λ s p. kept_handle k (m s) next (first.kept s p);
  }

  either_exit :
      {Q : A → ScanState → Type 0} {E : Fault → ScanState → Type 0} (out : Exit A × ScanState)
      → ((a : A) (s : ScanState) → P s → Q a s)
      → ((e : Fault) (s : ScanState) → P s → E e s)
      → P out.1
      → Post Q E out
  either_exit (returned a, s) q w p = q a s p
  either_exit (threw e, s) q w p = w e s p

  -- A triple from a predicate that is kept.
  pub Keeps-Runs :
      {R : ScanState → Type 0} {Q : A → ScanState → Type 0} {E : Fault → ScanState → Type 0}
      {m : M A}
      → Keeps P m
      → ((s : ScanState) → R s → P s)
      → ((a : A) (s : ScanState) → P s → Q a s)
      → ((e : Fault) (s : ScanState) → P s → E e s)
      → Runs R m Q E
  Keeps-Runs {m = m} k r q w = record { at = λ s p. either_exit (m s) q w (k.kept s (r s p)) }

pub Keeps-modify :
    {P : ScanState → Type 0} (change : ScanRunState → ScanRunState)
    → ((s : ScanState) → P s → P (record s { run = change s.run }))
    → Keeps P (modify change)
unfolding modify
Keeps-modify change h = record { kept = h }
