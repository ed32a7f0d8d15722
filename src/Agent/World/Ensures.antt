-- ===== src/Agent/World/Ensures.antt =====
-- What an action ensures of its value, wherever it starts, if it returns.
use chatbot_react_python_nod.Prelude.{◌≡◌, refl, Bool, true, false, if◌then◌else◌}
use chatbot_react_python_nod.Agent.Exn.{Exn, Result, ok, err}
use chatbot_react_python_nod.Agent.World.{World, Action, pure, lift, ◌>>=◌, continue}
use chatbot_react_python_nod.Agent.World.Triples.{
  Triple, Post, Triple-pure, Triple-bind, Triple-lift,
}

abbrev pub Anywhere : World → Type 0
Anywhere w = Unit {0}

abbrev pub Anyhow : Exn → World → Type 0
Anyhow e w = Unit {0}

abbrev pub Ensures : {A : Type 0} → Action A → (A → Type 0) → Type 0
Ensures m Q = Triple Anywhere m (λ a w. Q a) Anyhow

module _ {A : Type 0} where
  any-Post : (r : Result A) (w : World) → Post (λ a v. Unit {0}) Anyhow (r, w)
  any-Post (ok a) w = tt
  any-Post (err e) w = tt

  pub anything : (m : Action A) → Ensures m (λ a. Unit {0})
  anything m = record { at = λ w _. any-Post (m w).0 (m w).1 }

  pub ensures_pure : (Q : A → Type 0) (a : A) → Q a → Ensures (pure a) Q
  ensures_pure Q a h = Triple-pure a (λ w _. h)

  pub ensures_lift :
      (Q : A → Type 0) (r : Result A) → ((a : A) → r ≡ ok a → Q a) → Ensures (lift r) Q
  ensures_lift Q r h = Triple-lift r (λ a e w _. h a e) (λ e _ w _. tt)

module _ {A B : Type 0} where
  pub ensures_bind :
      {m : Action A} {f : A → Action B} (R : A → Type 0) (Q : B → Type 0)
      → Ensures m R
      → ((a : A) → R a → Ensures (f a) Q)
      → Ensures (m >>= f) Q
  ensures_bind R Q hm hf = Triple-bind hm λ a. record { at = λ w r. (hf a r).at w tt }

  continue-same :
      (R : A → Type 0) (r : Result A) (v : World) (f g : A → Action B)
      → Post (λ a w. R a) Anyhow (r, v)
      → ((a : A) (w : World) → R a → f a w ≡ g a w)
      → continue r f v ≡ continue r g v
  continue-same R (ok a) v f g p h = h a v p
  continue-same R (err e) v f g p h = refl

  pub bind-same :
      (m : Action A) (f g : A → Action B) (R : A → Type 0) (w : World)
      → Ensures m R
      → ((a : A) (v : World) → R a → f a v ≡ g a v)
      → (m >>= f) w ≡ (m >>= g) w
  unfolding ◌>>=◌
  bind-same m f g R w t h = continue-same R (m w).0 (m w).1 f g (t.at w tt) h

pub ensures_if :
    {A : Type 0} {m n : Action A} (Q : A → Type 0) (b : Bool)
    → (b ≡ true → Ensures m Q)
    → (b ≡ false → Ensures n Q)
    → Ensures (if b then m else n) Q
ensures_if Q true h k = h refl
ensures_if Q false h k = k refl

pub pick-same :
    {A : Type 0} (m n p : Action A) (b : Bool) (w : World)
    → (b ≡ true → m w ≡ n w)
    → (if b then m else p) w ≡ (if b then n else p) w
pick-same m n p true w h = h refl
pick-same m n p false w h = refl
