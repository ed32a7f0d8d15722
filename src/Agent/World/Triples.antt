-- ===== src/Agent/World/Triples.antt =====
-- Reasoning about actions: what holds after an action that returned, and after one that raised, and
-- one rule for each way to build an action.
use chatbot_react_python_nod.Agent.Exn.{Exn, Result, ok, err}
use chatbot_react_python_nod.Agent.World.Keeps.{Keeps}
use chatbot_react_python_nod.Prelude.{Bool, true, false, if◌then◌else◌, ◌≡◌, refl}
use chatbot_react_python_nod.Agent.World.{
  World, Action, pure, raise, continue, ◌>>=◌, lift, handled, catching,
}

abbrev pub Post :
    {A : Type 0} → (A → World → Type 0) → (Exn → World → Type 0) → Result A × World → Type 0
Post Q E (ok a, w) = Q a w
Post Q E (err e, w) = E e w

-- From a world with `P`, the action ends with `Q` if it returns and with `E` if it raises.
pub record Triple {A : Type 0} (P : World → Type 0) (m : Action A) (Q : A → World → Type 0)
    (E : Exn → World → Type 0) : Type 0 where
  pub at : (w : World) → P w → Post Q E (m w)

module _ {A : Type 0} {P : World → Type 0} {E : Exn → World → Type 0} where
  pub Triple-pure :
      {Q : A → World → Type 0} (a : A) → ((w : World) → P w → Q a w) → Triple P (pure a) Q E
  unfolding pure
  Triple-pure a h = record { at = h }

  pub Triple-raise :
      {Q : A → World → Type 0} (e : Exn) → ((w : World) → P w → E e w) → Triple P (raise e) Q E
  unfolding raise
  Triple-raise e h = record { at = h }

module _ {A B : Type 0} {E : Exn → World → Type 0} where
  continue-Post :
      {R : A → World → Type 0} {Q : B → World → Type 0} (r : Result A) (w : World)
      (f : A → Action B)
      → ((a : A) → Triple (R a) (f a) Q E)
      → Post R E (r, w)
      → Post Q E (continue r f w)
  continue-Post (ok a) w f h p = (h a).at w p
  continue-Post (err e) w f h p = p

  pub Triple-bind :
      {P : World → Type 0} {R : A → World → Type 0} {Q : B → World → Type 0} {m : Action A}
      {f : A → Action B}
      → Triple P m R E
      → ((a : A) → Triple (R a) (f a) Q E)
      → Triple P (m >>= f) Q E
  unfolding ◌>>=◌
  Triple-bind {m} {f} hm hf = record {
    at = λ w p. let (r, w') = m w in continue-Post r w' f hf (hm.at w p);
  }

module _ {A : Type 0} (Q : A → World → Type 0) (E : Exn → World → Type 0) where
  weaker-Post :
      (R : A → World → Type 0) (F : Exn → World → Type 0) (r : Result A) (w : World)
      → ((a : A) (v : World) → Q a v → R a v)
      → ((e : Exn) (v : World) → E e v → F e v)
      → Post Q E (r, w)
      → Post R F (r, w)
  weaker-Post R F (ok a) w f g h = f a w h
  weaker-Post R F (err e) w f g h = g e w h

  handled-Post :
      (F : Exn → World → Type 0) (r : Result A) (w : World) (h : Exn → Action A)
      → ((e : Exn) → Triple (E e) (h e) Q F)
      → Post Q E (r, w)
      → Post Q F (handled r h w)
  handled-Post F (ok a) w h k p = p
  handled-Post F (err e) w h k p = (k e).at w p

kept-Post :
    {A : Type 0} (I : World → Type 0) (r : Result A) (w : World)
    → I w
    → Post (λ a. I) (λ e. I) (r, w)
kept-Post I (ok a) w i = i
kept-Post I (err e) w i = i

module _ {A : Type 0} {P : World → Type 0} {Q : A → World → Type 0} {E : Exn → World → Type 0} where
  pub Triple-if :
      (b : Bool) {m n : Action A}
      → Triple P m Q E
      → Triple P n Q E
      → Triple P (if b then m else n) Q E
  Triple-if true h k = h
  Triple-if false h k = k

  -- a computed result, which cannot change the world
  pub Triple-lift :
      (r : Result A)
      → ((a : A) → r ≡ ok a → (w : World) → P w → Q a w)
      → ((e : Exn) → r ≡ err e → (w : World) → P w → E e w)
      → Triple P (lift r) Q E
  unfolding lift
  Triple-lift (ok a) h k = record { at = h a refl }
  Triple-lift (err e) h k = record { at = k e refl }

  pub Triple-weaken :
      {R : A → World → Type 0} {F : Exn → World → Type 0} {m : Action A}
      → Triple P m Q E
      → ((a : A) (v : World) → Q a v → R a v)
      → ((e : Exn) (v : World) → E e v → F e v)
      → Triple P m R F
  Triple-weaken {R} {F} {m} t f g = record {
    at = λ w p. let (r, w') = m w in weaker-Post Q E R F r w' f g (t.at w p);
  }

module _ {A : Type 0} {P : World → Type 0} {Q : A → World → Type 0}
    {E F : Exn → World → Type 0} where
  -- the handler starts where the block left off
  pub Triple-catching :
      {m : Action A} {h : Exn → Action A}
      → Triple P m Q E
      → ((e : Exn) → Triple (E e) (h e) Q F)
      → Triple P (catching m h) Q F
  unfolding catching
  Triple-catching {m} {h} t k = record {
    at = λ w p. let (r, w') = m w in handled-Post Q E F r w' h k (t.at w p);
  }

module _ {A : Type 0} {I : World → Type 0} where
  -- an invariant as a triple
  pub Triple-keeps : {m : Action A} → Keeps I m → Triple I m (λ a. I) (λ e. I)
  Triple-keeps {m} k = record { at = λ w i. let (r, w') = m w in kept-Post I r w' (k.at w i) }
