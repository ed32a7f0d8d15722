-- ===== src/Agent/Resolver/Ends.antt =====
-- The fuel of the resolver.
use chatbot_react_python_nod.Prelude.{
  ℕ, zero, suc, ◌+◌, ◌<◌, ◌≡◌, ◌⊎◌, refl, ◌∙◌, inl, inr, String, ◌==◌, true, false, some, List, [],
  ◌∷◌, ◌++◌, Elem, Elem-append, Elem-append_left, Elem-append_right, length, nat_eq, Dict, eq_iff,
  Bool-cases, arith,
}
use chatbot_react_python_nod.Agent.Models.{PlannedStep}
use chatbot_react_python_nod.Agent.Resolver.{
  at_key, index_from, pending_from, no_dependents, dependents_from, ready_ids, sorted, Round,
  release, visit, pick, levels, run_levels,
}
use chatbot_react_python_nod.Agent.Resolver.Sets.{
  at_key-insert, Elem-sorted, index-Indexed, nothing-Indexed, pending-free,
}
use chatbot_react_python_nod.Agent.Resolver.Distinct.{
  IsNodup, IsNodup-sorted, first_ready-IsNodup, Sets, all_dependents-Named, all_dependents-Sets,
}
use chatbot_react_python_nod.Agent.Resolver.Unique.{waiting, index_unique, waiting-pending}
use chatbot_react_python_nod.Agent.Resolver.Fuel.{
  Once, total, Others, left, after, still_waits, stepped, stepped-Once,
}

-- what a step of a round keeps, and which ids still wait for what they waited for
abbrev Keeps : List String → (String → Type 0) → Round → Round → Type 0
Keeps past P r r' = Once past r' × (total r' ≡ total r) × Others P r.0 r'.0

release-Keeps :
    (past : List String) (k : String) (ds : List String) (r : Round)
    → IsNodup ds
    → ((d : String) → Elem d ds → Elem k (at_key d r.0))
    → Once past r
    → Keeps past (λ x. (x == k) ≡ false) r (release k ds r)
unfolding release stepped
release-Keeps past k [] r nodup waits once = (once, refl, λ x d p h. h)
release-Keeps past k (d ∷ ds) (pending, ready) (fresh, nodup) waits once =
    let (once', same) = stepped-Once past k d pending ready (waits d (inl refl)) once in
    let elsewhere : (j : String) → Elem j ds → Elem k (at_key j (after past k d pending)) = λ j m.
      elim (Bool-cases (d == j)) [
        | inl e ↦ absurd (fresh (let n : d ≡ j = (eq_iff d j).0 e in rw n m))
        | inr e ↦ rw (at_key-insert d j (left past k d pending) pending, e) (waits j (inr m))
      ] in
    let (final, count, others) =
      release-Keeps past k ds (stepped past k d pending ready) nodup elsewhere once' in
    (final, count ∙ same, λ x j p h. others x j p (still_waits past k d pending x j p h))

module _ (dependents : Dict (List String)) (sets : Sets dependents) where
  abbrev of_id : String → List String
  of_id id = sorted (at_key id dependents)

  -- all dependents of an id wait for it
  abbrev Awaited : Dict (List String) → String → Type 0
  Awaited pending id = (d : String) → Elem d (of_id id) → Elem id (at_key d pending)

  visit-Keeps :
      (past ids : List String) (r : Round)
      → IsNodup ids
      → ((id : String) → Elem id ids → Awaited r.0 id)
      → Once past r
      → Keeps past (λ x. Elem x ids → ⊥) r (visit dependents ids r)
  unfolding visit
  visit-Keeps past [] r nodup waits once = (once, refl, λ x d p h. h)
  visit-Keeps past (id ∷ ids) r (fresh, nodup) waits once =
      let ds = of_id id in
      let (once', same, others) =
        release-Keeps past id ds r (IsNodup-sorted (at_key id dependents) (sets id))
          (waits id (inl refl)) once in
      let waits' : (j : String) → Elem j ids → Awaited (release id ds r).0 j =
        λ j m d h. others j d (differs j id (λ e. fresh (rw (← e) m))) (waits j (inr m) d h) in
      let (final, count, more) = visit-Keeps past ids (release id ds r) nodup waits' once' in
      (
        final,
        count ∙ same,
        λ x d p h. more x d (λ m. p (inr m)) (others x d (differs x id (λ e. p (inl e))) h),
      )
    where
      differs : (x y : String) → (x ≡ y → ⊥) → (x == y) ≡ false
      differs x y h = elim (Bool-cases (x == y)) [
        | inl e ↦ absurd (h ((eq_iff x y).0 e))
        | inr e ↦ e
      ]

  -- enough fuel, or nothing to do
  abbrev Enough : ℕ → Round → Type 0
  Enough fuel r = (waiting r.0 + 1 < fuel) ⊎ ((r.1 ≡ []) × (0 < fuel))

  next-Enough :
      (fuel : ℕ) (pending : Dict (List String)) (id : String) (ids : List String) (r : Round)
      → Enough (suc fuel) (pending, id ∷ ids)
      → total r ≡ total (pending, [])
      → Enough fuel r
  next-Enough fuel pending id ids (p, []) (inl h) e = inr (refl, omega (arith, h, e))
  next-Enough fuel pending id ids (p, x ∷ xs) (inl h) e = inl (omega (arith, h, e))
  next-Enough fuel pending id ids r (inr (h, f)) e = absurd (let g : id ∷ ids ≡ [] = h in cc)

  pub levels-ends :
      (steps : Dict PlannedStep) (fuel : ℕ) (past : List String) (pending : Dict (List String))
      (ready : List String)
      → ((id : String) → (Elem id past → ⊥) → Awaited pending id)
      → Once past (pending, ready)
      → Enough fuel (pending, ready)
      → (bs : List (List PlannedStep)) × (levels fuel steps dependents pending ready ≡ some bs)
  unfolding levels
  levels-ends steps zero past pending ready waits once (inl h) = absurd (omega (arith, h))
  levels-ends steps zero past pending ready waits once (inr (e, h)) = absurd (omega (arith, h))
  levels-ends steps (suc fuel) past pending [] waits once enough = ([], refl)
  levels-ends steps (suc fuel) past pending (id ∷ ids) waits once enough =
      let ready = id ∷ ids in
      let past' = past ++ ready in
      let begun : Once past' (pending, []) = record {
        past_free = λ x m. elim (Elem-append x past ready m) [
          | inl old ↦ once.past_free x old
          | inr new ↦ once.next_free x new
        ];
        next_free = λ x m. absurd m;
        nodup = tt;
        apart = λ x m p. m;
      } in
      let (once', count, others) =
        visit-Keeps past' ready (pending, []) once.nodup (λ x m. waits x (λ p. once.apart x m p))
          begun in
      let r = visit dependents ready (pending, []) in
      let waits' : (x : String) → (Elem x past' → ⊥) → Awaited r.0 x = λ x fresh d h.
        others x d (λ m. fresh (Elem-append_right x past ready m))
          (waits x (λ m. fresh (Elem-append_left x past ready m)) d h) in
      let (bs, e) =
        levels-ends steps fuel past' r.0 r.1 waits' once'
          (next-Enough fuel pending id ids r enough count) in
      (pick steps ready ∷ bs, (rw (levels, e) refl))

-- the rounds of a plan whose ids stand once each
pub run_levels-ends :
    (ss : List PlannedStep)
    → nat_eq (length (index_from [] ss)) (length ss) ≡ true
    → (bs : List (List PlannedStep)) × (run_levels ss ≡ some bs)
unfolding run_levels
run_levels-ends ss h =
    let pending = pending_from [] ss in
    let dependents = dependents_from ss (no_dependents [] ss) in
    let indexed = index-Indexed ss ss [] [] (λ t k. k) (nothing-Indexed ss) in
    let unique = (index_unique [] ss (ground (arith, h))).1 in
    let started : Once [] (pending, sorted (ready_ids pending)) = record {
      past_free = λ x m. absurd m;
      next_free = pending-free ss;
      nodup = first_ready-IsNodup ss;
      apart = λ x m p. p;
    } in
    levels-ends dependents (all_dependents-Sets ss) (index_from [] ss) (suc (suc (length ss))) []
      pending (sorted (ready_ids pending))
      (λ id fresh d m.
        let (s, ours, name, needs) =
          all_dependents-Named ss id d (Elem-sorted d (at_key id dependents) m) in
        rw (← name) (indexed.waits s.step_id s (unique s ours) id needs))
      started (inl (omega (arith, waiting-pending ss)))
