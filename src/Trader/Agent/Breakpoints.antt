-- ===== src/Trader/Agent/Breakpoints.antt =====
-- The prompt-cache breakpoints of the loop in agent.py: how many of them a request has.
use infra_lab.Base.{
  ℕ, zero, suc, ◌+◌, ◌≡◌, refl, ap, String, Bool, true, false, not, List, [], ◌∷◌, ◌++◌, arith,
  ◌==◌, if◌then◌else◌, Result, ok, ok-injective, or_raise, type_error, client, Exec,
}
use infra_lab.Base.Stateful.{pure, raise, lift, ◌>>=◌, bind-ends, bind-agrees}
use infra_lab.Base.Text.{join}
use infra_lab.Base.Number.{Number, of_ℕ}
use infra_lab.Base.Int.{pos_part}
use infra_lab.Base.Json.{Json}
use infra_lab.Trader.Config.{Params}
use infra_lab.Trader.Agent.{
  Block, text, tool_use, tool_result, other, cache_point, Message, Request, Response, Session, Talk,
  Summary, opening, advance, request, without_last, run_tools, after_response, add_cost, summary,
  finished, or_text, texts, next_round, is_tool_use, rounds, start, run_agent,
}

module _ {F : Type 0} where
  unfoldable pub points : List (Block F) → ℕ
  points [] = 0
  points (cache_point ∷ bs) = points bs + 1
  points (b ∷ bs) = points bs

  pub points_of_all : List (Message F) → ℕ
  points_of_all [] = 0
  points_of_all (m ∷ ms) = points m.content + points_of_all ms

  -- All the breakpoints of a request.
  unfoldable pub breakpoints : Request F → ℕ
  unfolding points points_of_all
  breakpoints r = points r.system + r.tool_points + points_of_all r.messages

  points-++ : (xs ys : List (Block F)) → points (xs ++ ys) ≡ points xs + points ys
  unfolding points
  points-++ [] ys = omega arith
  points-++ (cache_point ∷ xs) ys = omega (arith, points-++ xs ys)
  points-++ (text t ∷ xs) ys = points-++ xs ys
  points-++ (tool_use n i d ∷ xs) ys = points-++ xs ys
  points-++ (tool_result d t ∷ xs) ys = points-++ xs ys
  points-++ (other ∷ xs) ys = points-++ xs ys

  points_of_all-++ :
      (xs ys : List (Message F)) → points_of_all (xs ++ ys) ≡ points_of_all xs + points_of_all ys
  unfolding points_of_all
  points_of_all-++ [] ys = omega arith
  points_of_all-++ (x ∷ xs) ys = omega (arith, points_of_all-++ xs ys)

  without_last-snoc : (xs : List (Block F)) (x : Block F) → without_last (xs ++ (x ∷ [])) ≡ xs
  without_last-snoc [] x = refl
  without_last-snoc (y ∷ []) x = refl
  without_last-snoc (y ∷ z ∷ xs) x = ap (λ l. y ∷ l) (without_last-snoc (z ∷ xs) x)

  -- The one cache point of the conversation is the last block of its rolling message.
  pub record IsRolling (talk : Talk F) : Type 0 where
    pub none_earlier : points_of_all talk.earlier ≡ 0
    pub body : List (Block F)
    pub ends : talk.rolling.content ≡ body ++ (cache_point ∷ [])
    pub none_in_body : points body ≡ 0

  opening-IsRolling : (t : String) → IsRolling (opening t)
  unfolding opening points points_of_all
  opening-IsRolling t = record {
    none_earlier = refl;
    body = text t ∷ [];
    ends = refl;
    none_in_body = refl;
  }

  advance-IsRolling :
      (talk : Talk F) (reply results : List (Block F))
      → IsRolling talk
      → points reply ≡ 0
      → points results ≡ 0
      → IsRolling (advance talk reply results)
  unfolding advance points_of_all
  advance-IsRolling talk reply results r none_reply none_results = record {
    none_earlier =
        rw
          (
            points_of_all-++ talk.earlier _,
            r.none_earlier,
            r.ends,
            without_last-snoc r.body cache_point,
            r.none_in_body,
            none_reply,
          )
          refl;
    body = results;
    ends = refl;
    none_in_body = none_results;
  }

  breakpoints-request :
      (system_text : String) (talk : Talk F)
      → IsRolling talk
      → breakpoints (request system_text talk) ≡ 3
  unfolding breakpoints request points points_of_all
  breakpoints-request system_text talk r =
      rw
        (
          points_of_all-++ talk.earlier _,
          r.none_earlier,
          r.ends,
          points-++ r.body _,
          r.none_in_body,
        )
        refl

  run_tools-points :
      {S : Type 0} (call : String → Json F → Exec S String) (bs : List (Block F)) (s : S)
      → (results : List (Block F)) → (run_tools call bs s).0 ≡ ok results
      → points results ≡ 0
  unfolding run_tools points
  run_tools-points call [] s results h = rw (← ok-injective _ _ h) refl
  run_tools-points {S} call (tool_use name input id ∷ bs) s results h =
      bind-ends Plain (call name input)
        (λ output. run_tools call bs >>= λ rest. pure (tool_result id output ∷ rest)) s
        (λ e raised. λ rs same. cc)
        (λ output called.
          bind-ends Plain (run_tools call bs) (λ rest. pure (tool_result id output ∷ rest))
            (call name input s).1 (λ e raised. λ rs same. cc)
            (λ rest ran. λ rs same.
              rw (← ok-injective (tool_result id output ∷ rest) rs same)
                (run_tools-points call bs (call name input s).1 rest ran)))
        results h
    where
      Plain : Result (List (Block F)) × S → Type 0
      Plain x = (rs : List (Block F)) → x.0 ≡ ok rs → points rs ≡ 0
  run_tools-points call (text t ∷ bs) s results h = run_tools-points call bs s results h
  run_tools-points call (tool_result d t ∷ bs) s results h = run_tools-points call bs s results h
  run_tools-points call (other ∷ bs) s results h = run_tools-points call bs s results h
  run_tools-points call (cache_point ∷ bs) s results h = run_tools-points call bs s results h

-- Two conditionals agree that differ in their second branch alone, where this agrees.
same_branches :
    {S A : Type 0} (b : Bool) (m f g : Exec S A) (s : S)
    → f s ≡ g s
    → (if b then m else f) s ≡ (if b then m else g) s
same_branches true m f g s same = refl
same_branches false m f g s same = same

module _ {S F : Type 0} where
  -- The same session, with a model that refuses a request whose breakpoints are not exactly three.
  -- Bedrock itself refuses more than four.
  pub strict : Session S F → Session S F
  strict session = record session {
    converse = λ r. if breakpoints r == 3 then session.converse r else raise (client "Validation");
  }

  -- The model's own messages have no cache point.
  abbrev pub IsPlain : Session S F → Type 0
  IsPlain session =
      (r : Request F) (s : S) (response : Response F)
      → (session.converse r s).0 ≡ ok response
      → points response.content ≡ 0

module _ {S F : Type 0} ⦃number : Number F⦄ where
  next_round-agrees :
      (params : Params F) (turn : ℕ) (talk : Talk F) (reply : List (Block F)) (cost : F)
      (final_text : String) (f g : Talk F → F → String → Exec S (Summary F))
      (results : List (Block F)) (s : S)
      → f (advance talk reply results) cost final_text s
        ≡ g (advance talk reply results) cost final_text s
      → next_round params turn talk reply cost final_text f results s
        ≡ next_round params turn talk reply cost final_text g results s
  unfolding next_round
  next_round-agrees params turn talk reply cost final_text f g results s same =
      same_branches (number.lt params.max_run_cost_usd cost) _ _ _ s same

module _ {S F : Type 0} ⦃number : Number F⦄ (call : String → Json F → Exec S String) where
  -- The next round matters only for a conversation with its one cache point in its last message.
  after_response-agrees :
      (in_price out_price : F) (params : Params F) (turn : ℕ) (talk : Talk F) (cost : F)
      (final_text : String) (f g : Talk F → F → String → Exec S (Summary F)) (response : Response F)
      (s : S)
      → IsRolling talk
      → points response.content ≡ 0
      → ((next : Talk F) (c : F) (t : String) (s' : S)
          → IsRolling next
          → f next c t s' ≡ g next c t s')
      → after_response call in_price out_price params turn talk cost final_text f response s
        ≡ after_response call in_price out_price params turn talk cost final_text g response s
  unfolding after_response
  after_response-agrees in_price out_price params turn talk cost final_text f g response s r plain
        same =
      let cost' = add_cost in_price out_price response cost in
      let final_text' = or_text (join "\n" (texts response.content)) final_text in
      let rest = next_round {S = S} params turn talk response.content cost' final_text' in
      same_branches (not (is_tool_use response.stop_reason))
        (pure (summary finished (of_ℕ turn) cost' final_text'))
        (run_tools call response.content >>= rest f) (run_tools call response.content >>= rest g) s
        (bind-agrees (run_tools call response.content) (run_tools call response.content) (rest f)
          (rest g) s refl
          (λ results ran.
            next_round-agrees params turn talk response.content cost' final_text' f g results _ (
              same _ _ _ _ (
                advance-IsRolling talk response.content results r plain
                  (run_tools-points call response.content s results ran)))))

module _ {S F : Type 0} ⦃number : Number F⦄ (session : Session S F) (plain : IsPlain session) where
  module _ (in_price out_price : F) (system_text : String) (params : Params F) where
    rounds-strict :
        (left turn : ℕ) (talk : Talk F) (cost : F) (final_text : String) (s : S)
        → IsRolling talk
        → rounds
            (strict session)
            in_price
            out_price
            system_text
            params
            left
            turn
            talk
            cost
            final_text
            s
          ≡ rounds session in_price out_price system_text params left turn talk cost final_text s
    unfolding rounds strict
    rounds-strict zero turn talk cost final_text s r = refl
    rounds-strict (suc left) turn talk cost final_text s r =
        bind-agrees ((strict session).converse (request system_text talk))
          (session.converse (request system_text talk))
          (after_response session.call in_price out_price params turn talk cost final_text
            (rounds (strict session) in_price out_price system_text params left (suc turn)))
          (after_response session.call in_price out_price params turn talk cost final_text
            (rounds session in_price out_price system_text params left (suc turn)))
          s (rw (breakpoints-request system_text talk r) refl)
          (λ response answered.
            after_response-agrees session.call in_price out_price params turn talk cost final_text _
              _ response (session.converse (request system_text talk) s).1 r
              (plain (request system_text talk) s response answered)
              (λ next c t s' r'. rounds-strict left (suc turn) next c t s' r'))

    -- Where the model's messages have no cache point of their own: every request of a run has exactly
    -- three breakpoints, so below Bedrock's limit of four. A run is the same with a model that refuses
    -- all other requests.
    pub run_agent-strict :
        (user_text : String) (s : S)
        → run_agent (strict session) in_price out_price system_text params user_text s
          ≡ run_agent session in_price out_price system_text params user_text s
    unfolding run_agent start
    run_agent-strict user_text s =
        bind-agrees (lift (or_raise type_error (number.index? params.max_turns)))
          (lift (or_raise type_error (number.index? params.max_turns)))
          (start (strict session) in_price out_price system_text params user_text)
          (start session in_price out_price system_text params user_text) s refl
          (λ turns found.
            rounds-strict (pos_part turns) 1 (opening user_text) (number.decimal 0 1) "" s
              (opening-IsRolling user_text))
