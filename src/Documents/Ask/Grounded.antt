-- ===== src/Documents/Ask/Grounded.antt =====
-- What an answer of the service rests on.
use chatbot_react_python_nod.Prelude.{
  ℕ, ◌≤◌, ◌≡◌, refl, sym, ap, ◌∙◌, ◌⊎◌, inl, inr, String, false, Option, none, List, [], ◌∷◌, map,
  ltb, length, take,
}
use chatbot_react_python_nod.Documents.Context.{ScoredChunk, text_length, assemble, build}
use chatbot_react_python_nod.Documents.Context.Longest.{build-IsLongest}
use chatbot_react_python_nod.Documents.Prompt.{Outcome, ok, err, text_or, BuiltPrompt, build_prompt}
use chatbot_react_python_nod.Documents.Ask.{
  ProviderName, Settings, Services, Question, RagResponse, empty_corpus_message, chunk_meta,
  value_or, rag_messages, retrieve, resolve_provider, reply, complete, answer_from, ask_at, ask,
}

module _ (W V : Type 0) (services : Services W V) (settings : Settings) where
  -- nothing was found, and the model was not asked
  abbrev pub Silent : List ScoredChunk → W → RagResponse → W → Type 0
  Silent chunks found r w' =
      (chunks ≡ []) × (w' ≡ found) × (r.answer ≡ empty_corpus_message) × (r.retrieved_chunks ≡ [])

  -- the model was asked with the text of the first `n` chunks, and these are the ones that are named
  abbrev pub Answered : Question → List ScoredChunk → W → RagResponse → W → Type 0
  Answered q chunks found r w' =
      (n : ℕ) × (prompt : BuiltPrompt) × (content : Option String) × (r.retrieved_chunks
        ≡ map chunk_meta (take n chunks))
      × (r.truncated ≡ ltb n (length chunks))
      × (text_length (assemble (take n chunks)) ≤ settings.rag_context_max_chars)
      × (build_prompt services.repr services.render settings.rag_default_prompt_template q.question
            (assemble (take n chunks)) q.prompt_template q.instructions
          ≡ ok prompt)
      × (services.complete_chat r.provider (rag_messages prompt) r.model
            (value_or q.temperature settings.default_temperature) found
          ≡ (ok content, w'))
      × (r.answer ≡ text_or content "")

  abbrev pub Rests : Question → Outcome (List ScoredChunk) × W → RagResponse → W → Type 0
  Rests q y r w' =
      (chunks : List ScoredChunk) × (found : W) × (y ≡ (ok chunks, found))
      × (Silent chunks found r w' ⊎ Answered q chunks found r w')

  abbrev Asked : Type 0
  Asked = Outcome RagResponse × W

  abbrev Same : Asked → Asked → Type 0
  Same a b = a ≡ b

  -- the parts of two equal ends
  parts : (x y : Outcome RagResponse) (w w' : W) → Same (x, w) (y, w') → (x ≡ y) × (w ≡ w')
  parts x y w w' e = (ap (λ (p : Asked). p.0) e, ap (λ (p : Asked). p.1) e)

  replied :
      (q : Question) (name : ProviderName) (model : String) (chunks : List ScoredChunk) (found : W)
      → (prompt : BuiltPrompt) (r : RagResponse) (w' : W)
      → let context = build settings.rag_context_max_chars chunks none in
        build_prompt services.repr services.render settings.rag_default_prompt_template q.question
            context.text q.prompt_template q.instructions
          ≡ ok prompt
        → (y : Outcome (Option String) × W)
        → services.complete_chat name
            (rag_messages prompt)
            model
            (value_or q.temperature settings.default_temperature)
            found
          ≡ y
        → reply W V services settings name model context y ≡ (ok r, w')
        → Answered q chunks found r w'
  replied q name model chunks found prompt r w' p (err f, w1) e h =
      absurd (let k = (parts (err f) (ok r) w1 w' h).0 in cc)
  replied q name model chunks found prompt r w' p (ok content, w1) e h =
      let context = build settings.rag_context_max_chars chunks none in
      let made : RagResponse = record {
        answer = text_or content "";
        retrieved_chunks = map chunk_meta context.included_chunks;
        truncated = context.truncated;
        model = model;
        provider = name;
      } in
      let (first, last) = parts (ok made) (ok r) w1 w' h in
      let same : made ≡ r = cc in
      let (n, (bound, included, text, fits, cut, longest)) =
        build-IsLongest settings.rag_context_max_chars chunks none in
      rw (← same) (
        n,
        prompt,
        content,
        ap (map chunk_meta) included,
        cut,
        (rw (← text) fits),
        (rw (← text) p),
        e ∙ ap (λ (x : W). (ok content, x)) last,
        refl,
      )

  asked :
      (q : Question) (name : ProviderName) (model : String) (y : Outcome (List ScoredChunk) × W)
      → (r : RagResponse) (w' : W) → answer_from W V services settings q name model y ≡ (ok r, w')
      → Rests q y r w'
  unfolding answer_from
  asked q name model (err f, w1) r w' h = absurd (let k = (parts (err f) (ok r) w1 w' h).0 in cc)
  asked q name model (ok [], w1) r w' h =
      let made : RagResponse = record {
        answer = empty_corpus_message;
        retrieved_chunks = [];
        truncated = false;
        model = model;
        provider = name;
      } in
      let (first, last) = parts (ok made) (ok r) w1 w' h in
      let same : made ≡ r = cc in
      ([], w1, refl, inl (refl, sym last, (rw (← same) refl), (rw (← same) refl)))
  asked q name model (ok (c ∷ cs), w1) r w' h =
      let context = build settings.rag_context_max_chars (c ∷ cs) none in
      prompted
        (build_prompt services.repr services.render settings.rag_default_prompt_template q.question
          context.text q.prompt_template q.instructions)
        refl h
    where
      prompted :
          (p : Outcome BuiltPrompt)
          → let context = build settings.rag_context_max_chars (c ∷ cs) none in
            build_prompt services.repr services.render settings.rag_default_prompt_template
                q.question context.text q.prompt_template q.instructions
              ≡ p
            → complete W V services settings q name model context p w1 ≡ (ok r, w')
            → Rests q (ok (c ∷ cs), w1) r w'
      prompted (err f) e k = absurd (let l = (parts (err f) (ok r) w1 w' k).0 in cc)
      prompted (ok prompt) e k = (
        c ∷ cs,
        w1,
        refl,
        inr (
            replied q name model (c ∷ cs) w1 prompt r w' e
              (services.complete_chat name (rag_messages prompt) model
                (value_or q.temperature settings.default_temperature) w1)
              refl k),
      )

  -- A question that is answered rests on what the retrieval found. Without a chunk the answer is the fixed
  -- message, and the model is not asked. Otherwise the model is asked once, with the prompt for the text of
  -- the first chunks, which is at most as long as the configured maximum; the answer is what it replied, the
  -- response names exactly these chunks, in their order, and says truthfully whether any was left out.
  pub ask_grounded :
      (q : Question) (w : W) (r : RagResponse) (w' : W)
      → ask W V services settings q w ≡ (ok r, w')
      → Rests q (retrieve W V services settings q.question q.user_id q.top_k w) r w'
  unfolding ask
  ask_grounded q w r w' h = resolved (resolve_provider W V services settings q.provider q.model) h
    where
      resolved :
          (x : Outcome (ProviderName × String))
          → ask_at W V services settings q x w ≡ (ok r, w')
          → Rests q (retrieve W V services settings q.question q.user_id q.top_k w) r w'
      resolved (err f) k = absurd (let l = (parts (err f) (ok r) w w' k).0 in cc)
      resolved (ok (name, model)) k =
          asked q name model (retrieve W V services settings q.question q.user_id q.top_k w) r w' k
