-- ===== src/Agent/World/Keeps.antt =====
-- Invariants of actions: what an action keeps, whether it returns or raises, with one rule for each way
-- to build an action, and what a predicate must allow to be kept by everything that one execution does.
use chatbot_react_python_nod.Prelude.{
  ℕ, ◌+◌, String, ◌≡◌, refl, Bool, true, false, List, if◌then◌else◌, sym,
}
use chatbot_react_python_nod.Agent.Models.{Event}
use chatbot_react_python_nod.Agent.Exn.{Exn, Result, ok, err}
use chatbot_react_python_nod.Agent.Scratchpad.{Entry}
use chatbot_react_python_nod.Agent.Scratchpad.Store
use chatbot_react_python_nod.Agent.Publisher.{
  Publisher, publish, new_event, IsProgress, new_event-same,
}
use chatbot_react_python_nod.Agent.World.{
  World, Action, pure, raise, lift, gets, modify, continue, handled, ◌>>=◌, catching, on_scratchpad,
  emit, next_call,
}

pub record Keeps {A : Type 0} (I : World → Type 0) (m : Action A) : Type 0 where
  pub at : (w : World) → I w → I (m w).1

module _ {A : Type 0} {I : World → Type 0} where
  pub Keeps-pure : (a : A) → Keeps I (pure a)
  unfolding pure
  Keeps-pure a = record { at = λ w h. h }

  pub Keeps-raise : (e : Exn) → Keeps I (raise {A = A} e)
  unfolding raise
  Keeps-raise e = record { at = λ w h. h }

  pub Keeps-lift : (r : Result A) → Keeps I (lift r)
  unfolding lift
  Keeps-lift r = record { at = λ w h. h }

  pub Keeps-gets : (f : World → A) → Keeps I (gets f)
  unfolding gets
  Keeps-gets f = record { at = λ w h. h }

  pub Keeps-if : (b : Bool) {m n : Action A} → Keeps I m → Keeps I n → Keeps I (if b then m else n)
  Keeps-if true h k = h
  Keeps-if false h k = k

  handled-keeps :
      (r : Result A) (h : Exn → Action A) (w : World)
      → ((e : Exn) → Keeps I (h e))
      → I w
      → I (handled r h w).1
  handled-keeps (ok a) h w k i = i
  handled-keeps (err e) h w k i = (k e).at w i

  pub Keeps-catching :
      {m : Action A} {h : Exn → Action A}
      → Keeps I m
      → ((e : Exn) → Keeps I (h e))
      → Keeps I (catching m h)
  unfolding catching
  Keeps-catching {m} {h} km kh = record {
    at = λ w i. let (r, w') = m w in handled-keeps r h w' kh (km.at w i);
  }

module _ {A B : Type 0} {I : World → Type 0} where
  continue-keeps :
      (r : Result A) (w : World) (f : A → Action B)
      → ((a : A) → Keeps I (f a))
      → I w
      → I (continue r f w).1
  continue-keeps (ok a) w f k i = (k a).at w i
  continue-keeps (err e) w f k i = i

  pub Keeps-bind :
      {m : Action A} {f : A → Action B} → Keeps I m → ((a : A) → Keeps I (f a)) → Keeps I (m >>= f)
  unfolding ◌>>=◌
  Keeps-bind {m} {f} km kf = record {
    at = λ w i. let (r, w') = m w in continue-keeps r w' f kf (km.at w i);
  }

pub ruleset keeps_rules =
    (Keeps-pure, Keeps-raise, Keeps-lift, Keeps-gets, Keeps-if, Keeps-catching, Keeps-bind)

-- What the execution `x` may do to the world without breaking `I`: publish an event that is not the
-- last one, write its own scratchpad, call the outside, and sleep.
pub record IsStable (x : String) (I : World → Type 0) : Type 0 where
  pub published :
      (w : World) (q : Publisher) (e : Event)
      → IsProgress e
      → publish w.publisher e ≡ ok q
      → I w
      → I (record w { publisher = q })
  pub written :
      (w : World) (es : List Entry) → I w → I (record w { store = Store.write w.store x es })
  pub called : (w : World) → I w → I (record w { calls = w.calls + 1 })
  pub paused : (w : World) (ds : List ℕ) → I w → I (record w { slept = ds })

-- publishing one event without breaking `I`
abbrev pub Publishes : (World → Type 0) → Event → Type 0
Publishes I e =
    (w : World) (q : Publisher)
    → publish w.publisher e ≡ ok q
    → I w
    → I (record w { publisher = q })

module _ {I : World → Type 0} where
  publish_result :
      (w : World) (e : Event) (r : Result Publisher)
      → Publishes I e
      → publish w.publisher e ≡ r
      → I w
      → I (continue r (λ q. modify (λ v. record v { publisher = q })) w).1
  publish_result w e (ok q) p h i = p w q h i
  publish_result w e (err y) p h i = i

  event_result :
      (w : World) (e : Event) (r : Result Event)
      → r ≡ new_event e
      → Publishes I e
      → I w
      → I
          (continue r
            (λ v. gets (λ u. u.publisher) >>= λ p.
              lift (publish p v) >>= λ q. modify (λ u. record u { publisher = q }))
            w).1
  unfolding ◌>>=◌
  event_result w e (ok v) h p i =
      let same : v ≡ e = new_event-same e v (sym h) in
      rw same (publish_result w e (publish w.publisher e) p refl i)
  event_result w e (err y) h p i = i

  pub publish-Keeps : (e : Event) → Publishes I e → Keeps I (emit e)
  unfolding emit ◌>>=◌
  publish-Keeps e p = record { at = λ w i. event_result w e (new_event e) refl p i }

module _ {x : String} {I : World → Type 0} (stable : IsStable x I) where
  pub emit-Keeps : (e : Event) → IsProgress e → Keeps I (emit e)
  emit-Keeps e g = publish-Keeps e (λ w q h i. stable.published w q e g h i)

  pub next_call-Keeps : Keeps I next_call
  unfolding next_call
  next_call-Keeps = record { at = stable.called }

  write_result :
      (w : World) (r : Result (List Entry))
      → I w
      → I (continue r (λ new. modify (λ v. record v { store = Store.write v.store x new })) w).1
  write_result w (ok new) i = stable.written w new i
  write_result w (err y) i = i

  require_result :
      (w : World) (f : List Entry → Result (List Entry)) (r : Result (List Entry))
      → I w
      → I
          (continue r
            (λ old.
              lift (f old) >>= λ new. modify (λ v. record v { store = Store.write v.store x new }))
            w).1
  unfolding ◌>>=◌
  require_result w f (ok old) i = write_result w (f old) i
  require_result w f (err y) i = i

  pub on_scratchpad-Keeps : (f : List Entry → Result (List Entry)) → Keeps I (on_scratchpad x f)
  unfolding on_scratchpad ◌>>=◌
  on_scratchpad-Keeps f = record { at = λ w i. require_result w f (Store.require w.store x) i }
