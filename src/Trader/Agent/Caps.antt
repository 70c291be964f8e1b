-- ===== src/Trader/Agent/Caps.antt =====
-- The turn cap of the loop in agent.py.
use infra_lab.Base.{
  ℕ, zero, suc, ◌+◌, ◌≤◌, ◌≡◌, refl, sym, ap, ◌∙◌, String, Bool, true, false, not, some, List, [],
  ◌∷◌, arith, if◌then◌else◌, Result, ok, err, Exec,
}
use infra_lab.Base.Stateful.{pure, ◌>>=◌, bind-ends}
use infra_lab.Base.Int.{pos}
use infra_lab.Base.Text.{join}
use infra_lab.Base.Number.{Number, of_ℕ}
use infra_lab.Trader.Config.{Params}
use infra_lab.Trader.Agent.{
  Block, text, tool_use, tool_result, other, cache_point, Response, Session, Talk, Stopped,
  finished, cost_cap, turn_cap, Summary, summary, add_cost, or_text, texts, is_tool_use, request,
  opening, advance, run_tools, next_round, after_response, rounds, start, run_agent,
}

module _ {S F : Type 0} where
  -- The same session, counting the requests to the model.
  pub counted : Session S F → Session (S × ℕ) F
  counted session = record {
    converse = λ r s. ((session.converse r s.0).0, ((session.converse r s.0).1, s.1 + 1));
    call =
        λ name input s. ((session.call name input s.0).0, ((session.call name input s.0).1, s.1));
  }

  run_tools-counted :
      (session : Session S F) (bs : List (Block F)) (s : S × ℕ)
      → (run_tools (counted session).call bs s).1.1 ≡ s.1
  unfolding run_tools counted
  run_tools-counted session [] s = refl
  run_tools-counted session (tool_use name input id ∷ bs) s =
      bind-ends (λ x. x.1.1 ≡ s.1) ((counted session).call name input)
        (λ output.
          run_tools (counted session).call bs >>= λ rest. pure (tool_result id output ∷ rest))
        s (λ e raised. refl)
        (λ output called.
          let t = ((counted session).call name input s).1 in
          bind-ends (λ x. x.1.1 ≡ s.1) (run_tools (counted session).call bs)
            (λ rest. pure (tool_result id output ∷ rest)) t
            (λ e raised. run_tools-counted session bs t)
            (λ rest ran. run_tools-counted session bs t))
  run_tools-counted session (text t ∷ bs) s = run_tools-counted session bs s
  run_tools-counted session (tool_result d t ∷ bs) s = run_tools-counted session bs s
  run_tools-counted session (other ∷ bs) s = run_tools-counted session bs s
  run_tools-counted session (cache_point ∷ bs) s = run_tools-counted session bs s

module _ {F : Type 0} ⦃number : Number F⦄ where
  -- A run that ended with `count` requests out of `limit`: it stopped after one of them, which is the
  -- last turn of its summary, or it used them all.
  pub data Reported (params : Params F) (limit count : ℕ) (s : Summary F) : Type 0 where
    stopped_early : s.turns ≡ of_ℕ count → 1 ≤ count → count ≤ limit → Reported params limit count s
    used_all :
        s.stopped ≡ turn_cap
        → s.turns ≡ params.max_turns
        → count ≡ limit
        → Reported params limit count s

  -- A run that raised has no summary.
  abbrev pub Ends : Params F → ℕ → ℕ → Result (Summary F) → Type 0
  Ends params limit count (ok r) = Reported params limit count r
  Ends params limit count (err e) = Unit {0}

module _ {S F : Type 0} ⦃number : Number F⦄ where
  -- Never more requests than `limit`; with a summary, as many as it reports.
  abbrev pub IsCapped : Params F → ℕ → Result (Summary F) × (S × ℕ) → Type 0
  IsCapped params limit x = (x.1.1 ≤ limit) × Ends params limit x.1.1 x.0

  if_IsCapped :
      (params : Params F) (limit : ℕ) (b : Bool) (m n : Exec (S × ℕ) (Summary F)) (s : S × ℕ)
      → IsCapped params limit (m s)
      → IsCapped params limit (n s)
      → IsCapped params limit ((if b then m else n) s)
  if_IsCapped params limit true m n s hm hn = hm
  if_IsCapped params limit false m n s hm hn = hn

  summary-IsCapped :
      (params : Params F) (limit turn : ℕ) (why : Stopped) (cost : F) (final_text : String)
      (s : S × ℕ)
      → turn ≡ s.1
      → 1 ≤ s.1
      → s.1 ≤ limit
      → IsCapped params limit (pure (summary why (of_ℕ turn) cost final_text) s)
  unfolding summary
  summary-IsCapped params limit turn why cost final_text s at low high =
      (high, stopped_early (ap of_ℕ at) low high)

  last-IsCapped :
      (params : Params F) (limit : ℕ) (cost : F) (final_text : String) (s : S × ℕ)
      → s.1 ≡ limit
      → IsCapped params limit (pure (summary turn_cap params.max_turns cost final_text) s)
  unfolding summary
  last-IsCapped params limit cost final_text s full = (omega arith, used_all refl refl full)

  after_response-IsCapped :
      (session : Session S F) (in_price out_price : F) (params : Params F) (turn limit : ℕ)
      (talk : Talk F) (cost : F) (final_text : String)
      (again : Talk F → F → String → Exec (S × ℕ) (Summary F)) (response : Response F) (s : S × ℕ)
      → turn ≡ s.1
      → 1 ≤ s.1
      → s.1 ≤ limit
      → ((next : Talk F) (c : F) (t : String) (s' : S × ℕ)
          → s'.1 ≡ s.1
          → IsCapped params limit (again next c t s'))
      → IsCapped params limit (
          after_response
            (counted session).call
            in_price
            out_price
            params
            turn
            talk
            cost
            final_text
            again
            response
            s)
  unfolding after_response next_round
  after_response-IsCapped session in_price out_price params turn limit talk cost final_text again
        response s at low high more =
      let cost' = add_cost in_price out_price response cost in
      let final_text' = or_text (join "\n" (texts response.content)) final_text in
      if_IsCapped params limit (not (is_tool_use response.stop_reason))
        (pure (summary finished (of_ℕ turn) cost' final_text'))
        (run_tools (counted session).call response.content
          >>= next_round params turn talk response.content cost' final_text' again)
        s (summary-IsCapped params limit turn finished cost' final_text' s at low high)
        (bind-ends (IsCapped params limit) (run_tools (counted session).call response.content)
          (next_round params turn talk response.content cost' final_text' again) s
          (λ e raised. (rw (run_tools-counted session response.content s) high, tt))
          (λ results ran.
            let t = (run_tools (counted session).call response.content s).1 in
            let count : t.1 ≡ s.1 = run_tools-counted session response.content s in
            if_IsCapped params limit (number.lt params.max_run_cost_usd cost')
              (pure (summary cost_cap (of_ℕ turn) cost' final_text'))
              (again (advance talk response.content results) cost' final_text') t
              (summary-IsCapped params limit turn cost_cap cost' final_text' t (at ∙ sym count)
                (rw count low) (rw count high))
              (more (advance talk response.content results) cost' final_text' t count)))

  rounds-IsCapped :
      (session : Session S F) (in_price out_price : F) (system_text : String) (params : Params F)
      (left turn limit : ℕ) (talk : Talk F) (cost : F) (final_text : String) (s : S × ℕ)
      → turn ≡ s.1 + 1
      → s.1 + left ≡ limit
      → IsCapped params limit (
          rounds
            (counted session)
            in_price
            out_price
            system_text
            params
            left
            turn
            talk
            cost
            final_text
            s)
  unfolding rounds counted
  rounds-IsCapped session in_price out_price system_text params zero turn limit talk cost final_text
        s at bound =
      last-IsCapped params limit cost final_text s (omega arith)
  rounds-IsCapped session in_price out_price system_text params (suc left) turn limit talk cost
        final_text s at bound =
      bind-ends (IsCapped params limit) ((counted session).converse (request system_text talk))
        (after_response (counted session).call in_price out_price params turn talk cost final_text
          (rounds (counted session) in_price out_price system_text params left (suc turn)))
        s (λ e raised. (omega arith, tt))
        (λ response answered.
          after_response-IsCapped session in_price out_price params turn limit talk cost final_text
            (rounds (counted session) in_price out_price system_text params left (suc turn))
            response ((session.converse (request system_text talk) s.0).1, s.1 + 1) at (omega arith)
            (omega arith)
            (λ next c t s' same.
              rounds-IsCapped session in_price out_price system_text params left (suc turn) limit
                next c t s' (omega arith) (omega arith)))

  -- Where the limit `max_turns` is the integer `limit`, which is not negative: a run makes at most
  -- `limit` requests to the model, even one that raises. A run that returns reports the number of its
  -- requests as its turns, and that is at least 1, or it stopped at the turn cap, after just `limit`
  -- requests, and reports `max_turns`.
  pub run_agent-IsCapped :
      (session : Session S F) (in_price out_price : F) (system_text user_text : String)
      (params : Params F) (limit : ℕ) (s : S)
      → number.index? params.max_turns ≡ some (pos limit)
      → IsCapped params limit
          (run_agent (counted session) in_price out_price system_text params user_text (s, 0))
  unfolding run_agent start
  run_agent-IsCapped session in_price out_price system_text user_text params limit s whole =
      rw whole (
        rounds-IsCapped session in_price out_price system_text params limit 1 limit
          (opening user_text) (number.decimal 0 1) "" (s, 0) refl (omega arith))
