-- ===== src/Agent/World.antt =====
-- What the coroutines of one execution share and change, and coroutines as actions on it: the
-- scratchpad store, the stream publisher, the count of calls made to the outside, and the delays slept.
-- An action gives a value or raises; what was written before a raise stays written.
pub mod Triples
pub mod Keeps
pub mod Streamed
pub mod Ensures
use chatbot_react_python_nod.Prelude.{ℕ, ◌+◌, String, List}
use chatbot_react_python_nod.Agent.Models.{Event}
use chatbot_react_python_nod.Agent.Exn.{Exn, Result, ok, err}
use chatbot_react_python_nod.Agent.Scratchpad.{Entry}
use chatbot_react_python_nod.Agent.Scratchpad.Store
use chatbot_react_python_nod.Agent.Scratchpad.Store.{Store}
use chatbot_react_python_nod.Agent.Publisher
use chatbot_react_python_nod.Agent.Publisher.{Publisher, new_event}

pub record World : Type 0 where
  pub store : Store
  pub publisher : Publisher
  pub calls : ℕ
  pub slept : List ℕ

abbrev pub Action : Type 0 → Type 0
Action A = World → Result A × World

module _ {A : Type 0} where
  unfoldable pub pure : A → Action A
  pure a w = (ok a, w)

  unfoldable pub raise : Exn → Action A
  raise e w = (err e, w)

  unfoldable pub lift : Result A → Action A
  lift r w = (r, w)

  unfoldable pub gets : (World → A) → Action A
  gets f w = (ok (f w), w)

module _ {A B : Type 0} where
  abbrev pub continue : Result A → (A → Action B) → Action B
  continue (ok a) f w = f a w
  continue (err e) f w = (err e, w)

  infixl 5 ◌>>=◌ ◌>>◌
  unfoldable pub ◌>>=◌ : Action A → (A → Action B) → Action B
  unfolding pure raise lift gets
  ◌>>=◌ m f w = let (r, w') = m w in continue r f w'

  abbrev pub ◌>>◌ : Action A → Action B → Action B
  m >> k = m >>= λ _. k

abbrev pub modify : (World → World) → Action (Unit {0})
modify f w = (ok tt, f w)

module _ {A : Type 0} where
  abbrev handled : Result A → (Exn → Action A) → Action A
  handled (ok a) h w = (ok a, w)
  handled (err e) h w = h e w

  -- `try: m` with `except BaseException as e: h(e)`
  unfoldable pub catching : Action A → (Exn → Action A) → Action A
  catching m h w = let (r, w') = m w in handled r h w'

  -- `try: m` with `finally: cleanup`, where the cleanup does not raise
  unfoldable pub finally : Action A → (World → World) → Action A
  finally m cleanup w = let (r, w') = m w in (r, cleanup w')

-- the scratchpad of an execution, rewritten by an operation that may raise
unfoldable pub on_scratchpad : String → (List Entry → Result (List Entry)) → Action (Unit {0})
on_scratchpad id f = do
  entries ← gets (λ w. w.store)
  old ← lift (Store.require entries id)
  new ← lift (f old)
  modify (λ w. record w { store = Store.write w.store id new })

-- `await publisher.publish(AgentStreamEvent.…)`
unfoldable pub emit : Event → Action (Unit {0})
emit event = do
  e ← lift (new_event event)
  p ← gets (λ w. w.publisher)
  q ← lift (Publisher.publish p e)
  modify (λ w. record w { publisher = q })

-- the number of the next call to the outside, which is then used
unfoldable pub next_call : Action ℕ
next_call w = (ok w.calls, record w { calls = w.calls + 1 })
