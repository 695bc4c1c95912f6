-- ===== src/Prelude/Hoare.antt =====
-- Reasoning on methods that may raise: what a method keeps whatever happens, and what it ensures
-- when it returns.
use mathlib.Core.Path.{◌≡◌, refl}
use mathlib.Core.Bool.{Bool, true, false}
use blockchain_mapping_syste.Prelude.Tests.{if◌then◌else◌}
use blockchain_mapping_syste.Prelude.Errors.{Result, ok, err}
use blockchain_mapping_syste.Prelude.Exec.{Exec, lift, call, ◌>>=◌}

module _ {S A : Type 0} where
  -- `P` of the state before gives `P` of the state after, also when the method raises.
  pub record Keeps (P : S → Type 0) (m : Exec S A) : Type 0 where
    pub keeps : (s : S) → P s → P (m s).1

  -- From a state with `P`, a method that returns `a` leaves a state with `Q a`.
  pub record Ensures (P : S → Type 0) (m : Exec S A) (Q : A → S → Type 0) : Type 0 where
    pub ensures : (s : S) → P s → (a : A) → (m s).0 ≡ ok a → Q a (m s).1

  pub Keeps-Ensures : {P : S → Type 0} {m : Exec S A} → Keeps P m → Ensures P m (λ _. P)
  Keeps-Ensures k = record { ensures = λ s h a e. k.keeps s h }

  pub Keeps-lift : {P : S → Type 0} {r : Result A} → Keeps P (lift r)
  Keeps-lift = record { keeps = λ s h. h }

  pub Keeps-call : {P : S → Type 0} {g : S → A × S} → ((s : S) → P s → P (g s).1) → Keeps P (call g)
  Keeps-call k = record { keeps = k }

  pub Keeps-if :
      {P : S → Type 0} {m n : Exec S A} (c : Bool)
      → Keeps P m
      → Keeps P n
      → Keeps P (if c then m else n)
  Keeps-if true k l = k
  Keeps-if false k l = l

  pub Ensures-if :
      {P : S → Type 0} {m n : Exec S A} {Q : A → S → Type 0} (c : Bool)
      → Ensures P m Q
      → Ensures P n Q
      → Ensures P (if c then m else n) Q
  Ensures-if true k l = k
  Ensures-if false k l = l

  pub Ensures-call :
      {P : S → Type 0} {g : S → A × S}
      → Ensures P (call g) (λ a s'. (s : S) × P s × (g s ≡ (a, s')))
  Ensures-call = record { ensures = λ s h a e. (s, h, cc) }

  pub Ensures-lift : {P : S → Type 0} {r : Result A} → Ensures P (lift r) (λ a s. (r ≡ ok a) × P s)
  Ensures-lift = record { ensures = λ s h a e. (e, h) }

  -- What does not depend on the state holds after if it held before.
  pub Ensures-frame :
      {P : S → Type 0} {m : Exec S A} {Q : A → S → Type 0} {F : Type 0}
      → Ensures P m Q
      → Ensures (λ s. F × P s) m (λ a s. F × Q a s)
  Ensures-frame k = record { ensures = λ s h a e. (h.0, k.ensures s h.1 a e) }

  pub Ensures-and :
      {P P' : S → Type 0} {m : Exec S A} {Q Q' : A → S → Type 0}
      → Ensures P m Q
      → Ensures P' m Q'
      → Ensures (λ s. P s × P' s) m (λ a s. Q a s × Q' a s)
  Ensures-and k l = record { ensures = λ s (h, h') a e. (k.ensures s h a e, l.ensures s h' a e) }

  pub Ensures-imp :
      {P P' : S → Type 0} {m : Exec S A} {Q Q' : A → S → Type 0}
      → ((s : S) → P' s → P s)
      → Ensures P m Q
      → ((a : A) (s : S) → Q a s → Q' a s)
      → Ensures P' m Q'
  Ensures-imp {m = m} f k g = record { ensures = λ s h a e. g a (m s).1 (k.ensures s (f s h) a e) }

module _ {S A B : Type 0} where
  -- `m >>= f`, by the outcome of `m`.
  keeps_after :
      (P : S → Type 0) (f : A → Exec S B) (s : S) (q : Result A × S)
      → ((a : A) → Keeps P (f a))
      → P q.1
      → P (((λ _. q) >>= f) s).1
  unfolding ◌>>=◌
  keeps_after P f s (ok a, s') l h = (l a).keeps s' h
  keeps_after P f s (err x, s') l h = h

  ensures_after :
      (f : A → Exec S B) (Q : A → S → Type 0) (R : B → S → Type 0) (s : S) (q : Result A × S)
      → ((a : A) → Ensures (Q a) (f a) R)
      → ((a : A) → q.0 ≡ ok a → Q a q.1)
      → (b : B) → (((λ _. q) >>= f) s).0 ≡ ok b
      → R b (((λ _. q) >>= f) s).1
  unfolding ◌>>=◌
  ensures_after f Q R s (ok a, s') l h b e = (l a).ensures s' (h a refl) b e
  ensures_after f Q R s (err x, s') l h b e = cc

  pub Keeps->>= :
      {P : S → Type 0} {m : Exec S A} {f : A → Exec S B}
      → Keeps P m
      → ((a : A) → Keeps P (f a))
      → Keeps P (m >>= f)
  unfolding ◌>>=◌
  Keeps->>= {P = P} {m = m} {f = f} k l = record {
    keeps = λ s h. keeps_after P f s (m s) l (k.keeps s h);
  }

  pub Ensures->>= :
      {P : S → Type 0} {m : Exec S A} {f : A → Exec S B} (Q : A → S → Type 0) {R : B → S → Type 0}
      → Ensures P m Q
      → ((a : A) → Ensures (Q a) (f a) R)
      → Ensures P (m >>= f) R
  unfolding ◌>>=◌
  Ensures->>= {m = m} {f = f} Q {R = R} k l = record {
    ensures = λ s h b e. ensures_after f Q R s (m s) l (k.ensures s h) b e;
  }
