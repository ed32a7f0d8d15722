-- ===== src/Agent/Scratchpad/Store.antt =====
-- `ScratchpadStore`: the entries of each execution's scratchpad by execution id
-- (backend-python/app/ai/agent/scratchpad/store.py). The program shares the scratchpad object; here
-- who uses it reads and writes the entries in the store.
use chatbot_react_python_nod.Prelude.{
  ◌≡◌, ◌==◌, if◌then◌else◌, lookup-insert, lookup-remove, arith, ◌⊎◌, inl, inr, Option-cases,
  String, Option, none, some, List, [], Dict, lookup, insert, remove,
}
use chatbot_react_python_nod.Agent.Exn.{Result, ok, err, scratchpad_exists, scratchpad_not_found}
use chatbot_react_python_nod.Agent.Scratchpad.{Entry}

abbrev pub Store : Type 0
Store = Dict (List Entry)

unfoldable pub create : Store → String → Result Store
create s id = elim (lookup id s) [
  | none ↦ ok (insert id [] s)
  | some _ ↦ err (scratchpad_exists id)
]

unfoldable pub get : Store → String → Option (List Entry)
get s id = lookup id s

unfoldable pub require : Store → String → Result (List Entry)
unfolding get
require s id = elim (get s id) [ some es ↦ ok es | none ↦ err (scratchpad_not_found id) ]

-- the removed scratchpad is emptied too; nothing modelled here holds on to it
unfoldable pub drop : Store → String → Store
drop s id = remove id s

unfoldable pub clear : Store → Store
clear s = []

-- write back the entries of a scratchpad
unfoldable pub write : Store → String → List Entry → Store
write s id es = insert id es s

-- a created scratchpad is empty
pub create-write : (s : Store) (id : String) (c : Store) → create s id ≡ ok c → c ≡ write s id []
unfolding create write
create-write s id c h = ground arith

-- Creating succeeds exactly for an id that has no scratchpad yet, and then writes an empty one; for an id
-- that has one it is refused.
pub create_exact :
    (s : Store) (id : String)
    → ((get s id ≡ none) × (create s id ≡ ok (write s id [])))
      ⊎ ((es : List Entry) × (get s id ≡ some es) × (create s id ≡ err (scratchpad_exists id)))
unfolding get create write
create_exact s id = elim (Option-cases (lookup id s)) [
  | inl e ↦ inl (e, rw (e, create))
  | inr (es, e) ↦ inr (es, e, rw (e, create))
]

-- What a lookup finds after a write and after a removal.
pub get-write :
    (s : Store) (id j : String) (es : List Entry)
    → get (write s id es) j ≡ (if id == j then some es else get s j)
unfolding get write
get-write s id j es = lookup-insert id j es s

pub get-drop : (s : Store) (id j : String) → get (drop s id) j ≡ (if id == j then none else get s j)
unfolding get drop
get-drop s id j = lookup-remove id j s
