-- ===== src/Agent/Results/Names.antt =====
-- The tools that a list of results used.
use chatbot_react_python_nod.Prelude.{
  String, ◌≡◌, sym, true, false, List, [], ◌∷◌, ◌++◌, map, ◌⊎◌, inl, inr, ◌↔◌, Elem, Elem-append,
  Elem-append_left, Elem-append_right, mem, mem_iff, Bool-cases,
}
use chatbot_react_python_nod.Agent.Results.{ToolRunRecord, names_from, tools_used}

-- no name stands twice
abbrev pub Distinct : List String → Type 0
Distinct [] = Unit
Distinct (x ∷ xs) = (¬ Elem x xs) × Distinct xs

abbrev pub tool_name : ToolRunRecord → String
tool_name r = r.call.name

-- an element of a list with one more at its end
at_end : (n k : String) (ns : List String) → Elem n (ns ++ k ∷ []) → Elem n ns ⊎ (n ≡ k)
at_end n k ns h = elim (Elem-append n ns (k ∷ []) h) [
  | inl l ↦ inl l
  | inr r ↦ elim r [ inl e ↦ inr e | inr v ↦ elim v [ ] ]
]

Distinct-append :
    (ns : List String) (k : String) → Distinct ns → (¬ Elem k ns) → Distinct (ns ++ k ∷ [])
Distinct-append [] k d new = ((λ h. h), tt)
Distinct-append (x ∷ ns) k (fresh, d) new = (
  (λ h. elim (at_end x k ns h) [ inl l ↦ fresh l | inr e ↦ new (inl (sym e)) ]),
  Distinct-append ns k d (λ h. new (inr h)),
)

-- the names in the result of the loop from `names` on
abbrev Collected : List String → List ToolRunRecord → List String → Type 0
Collected names rs result =
    Distinct result × ((n : String) → Elem n result ↔ (Elem n names ⊎ Elem n (map tool_name rs)))

skipped :
    (r : ToolRunRecord) (rs : List ToolRunRecord) (names result : List String)
    → Elem (tool_name r) names
    → Collected names rs result
    → Collected names (r ∷ rs) result
skipped r rs names result known (d, same) = (
  d,
  λ n. (
    (λ h. elim ((same n).0 h) [ inl l ↦ inl l | inr m ↦ inr (inr m) ]),
    λ h.
        (same n).1
          (elim h [ inl l ↦ inl l | inr m ↦ elim m [ inl e ↦ inl (rw e known) | inr t ↦ inr t ] ]),
  ),
)

added :
    (r : ToolRunRecord) (rs : List ToolRunRecord) (names result : List String)
    → Collected (names ++ tool_name r ∷ []) rs result
    → Collected names (r ∷ rs) result
added r rs names result (d, same) = (
  d,
  λ n. (
    (λ h. elim ((same n).0 h) [
      | inl l ↦ elim (at_end n (tool_name r) names l) [ inl a ↦ inl a | inr e ↦ inr (inl e) ]
      | inr m ↦ inr (inr m)
    ]),
    λ h. (same n).1 (elim h [
      | inl l ↦ inl (Elem-append_left n names (tool_name r ∷ []) l)
      | inr m ↦ elim m [
        | inl e ↦ inl (Elem-append_right n names (tool_name r ∷ []) (inl e))
        | inr t ↦ inr t
      ]
    ]),
  ),
)

also :
    (k : String) (seen names : List String)
    → ((j : String) → Elem j seen ↔ Elem j names)
    → (j : String) → Elem j (k ∷ seen) ↔ Elem j (names ++ k ∷ [])
also k seen names tracked j = (
  (λ h. elim h [
    | inl e ↦ Elem-append_right j names (k ∷ []) (inl e)
    | inr s ↦ Elem-append_left j names (k ∷ []) ((tracked j).0 s)
  ]),
  λ h. elim (at_end j k names h) [ inl l ↦ inr ((tracked j).1 l) | inr e ↦ inl e ],
)

unseen :
    (r : ToolRunRecord) (seen names : List String)
    → ((j : String) → Elem j seen ↔ Elem j names)
    → mem (tool_name r) seen ≡ false
    → ¬ Elem (tool_name r) names
unseen r seen names tracked new h =
    let old : mem (tool_name r) seen ≡ true =
      (mem_iff (tool_name r) seen).1 ((tracked (tool_name r)).1 h) in
    absurd cc

collect :
    (seen names : List String) (rs : List ToolRunRecord)
    → ((k : String) → Elem k seen ↔ Elem k names)
    → Distinct names
    → Collected names rs (names_from seen names rs)
unfolding names_from
collect seen names [] tracked d = (d, λ n. (inl, λ h. elim h [ inl l ↦ l | inr m ↦ elim m [ ] ]))
collect seen names (r ∷ rs) tracked d = elim (Bool-cases (mem (tool_name r) seen)) [
  | inl known ↦ rw known (
      skipped r rs names _ ((tracked (tool_name r)).0 ((mem_iff (tool_name r) seen).0 known))
        (collect seen names rs tracked d))
  | inr new ↦ rw new (
      added r rs names _ (
        collect (tool_name r ∷ seen) (names ++ tool_name r ∷ []) rs
          (also (tool_name r) seen names tracked)
          (Distinct-append names (tool_name r) d (λ h. unseen r seen names tracked new h))))
]

-- The tools used are the names of the calls that were run, each once.
pub tools_used-exact :
    (rs : List ToolRunRecord)
    → Distinct (tools_used rs) × ((n : String) → Elem n (tools_used rs) ↔ Elem n (map tool_name rs))
unfolding tools_used
tools_used-exact rs =
    let (d, same) = collect [] [] rs (λ k. ((λ h. h), λ h. h)) tt in
    (
      d,
      λ n. ((λ h. elim ((same n).0 h) [ inl l ↦ elim l [ ] | inr m ↦ m ]), λ h. (same n).1 (inr h)),
    )
