-- ===== src/Trader/Agent.antt =====
-- The tool loop of agent.py: requests to the model with prompt-cache breakpoints, the tools that it
-- asks for, and the two caps.
pub mod Breakpoints
pub mod Caps
use infra_lab.Base.{
  ℕ, zero, suc, ◌+◌, String, Bool, true, false, not, Option, none, some, List, [], ◌∷◌, ◌++◌,
  if◌then◌else◌, PyError, Result, ok, err, type_error, or_raise, str_eq, Exec,
}
use infra_lab.Base.Stateful.{pure, raise, lift, ◌>>=◌, ◌>>◌}
use infra_lab.Base.Text.{join, take_text, is_blank}
use infra_lab.Base.Number.{Number, of_ℕ}
use infra_lab.Base.Int.{ℤ, pos_part}
use infra_lab.Base.Json.{Json}
use infra_lab.Trader.Config.{Params}

abbrev pub max_tokens_per_turn : ℕ
max_tokens_per_turn = 8000

-- A content block of a message. A block of the model that is neither a text nor a tool use is `other`.
pub data Block (F : Type 0) : Type 0 where
  text : String → Block F
  -- name, input, id
  tool_use : String → Json F → String → Block F
  -- id, text
  tool_result : String → String → Block F
  other : Block F
  -- `_CACHE_POINT`
  cache_point : Block F

pub data Role : Type 0 where
  user assistant : Role

pub record Message (F : Type 0) : Type 0 where
  pub role : Role
  pub content : List (Block F)

-- One call of `converse`. The tool list is given by the number of its specs; `tool_points` counts
-- the cache points behind them.
pub record Request (F : Type 0) : Type 0 where
  pub system : List (Block F)
  pub messages : List (Message F)
  pub tool_points : ℕ

-- What `converse` returns, as far as it is read; a missing token count is 0.
pub record Response (F : Type 0) : Type 0 where
  pub input_tokens : F
  pub output_tokens : F
  pub cache_read : F
  pub cache_write : F
  pub content : List (Block F)
  pub stop_reason : Option String

pub data Stopped : Type 0 where
  finished cost_cap turn_cap : Stopped

-- What `_summary` returns. In `turn_cap` the turns are the limit itself, so a number.
pub record Summary (F : Type 0) : Type 0 where
  pub stopped : Stopped
  pub turns : F
  pub cost_usd : F
  pub final_text : String

-- The model and the tools, as actions on the state `S` of whatever runs the loop.
pub record Session (S F : Type 0) : Type 0 where
  pub converse : Request F → Exec S (Response F)
  pub call : String → Json F → Exec S String

module _ {F : Type 0} where
  abbrev pub texts : List (Block F) → List String
  texts [] = []
  texts (text t ∷ bs) = t ∷ texts bs
  texts (b ∷ bs) = texts bs

  -- `list.pop()`, for a list that is not empty
  abbrev pub without_last : List (Block F) → List (Block F)
  without_last [] = []
  without_last (b ∷ []) = []
  without_last (b ∷ c ∷ bs) = b ∷ without_last (c ∷ bs)

-- `x or y` for texts
abbrev pub or_text : String → String → String
or_text t default = if is_blank t then default else t

abbrev pub is_tool_use : Option String → Bool
is_tool_use (some reason) = str_eq reason "tool_use"
is_tool_use none = false

module _ {F : Type 0} ⦃number : Number F⦄ where
  -- `_summary`
  pub summary : Stopped → F → F → String → Summary F
  unfolding take_text
  summary reason turns cost final_text = record {
    stopped = reason;
    turns = turns;
    cost_usd = number.round4 cost;
    final_text = take_text 2000 final_text;
  }

  -- The four additions to the cost of one turn.
  pub add_cost : F → F → Response F → F → F
  add_cost in_price out_price r cost =
      let c₁ = number.add cost (number.mul r.input_tokens in_price) in
      let c₂ = number.add c₁ (number.mul r.output_tokens out_price) in
      let c₃ = number.add c₂ (number.mul (number.mul r.cache_read in_price) (number.decimal 1 1)) in
      number.add c₃ (number.mul (number.mul r.cache_write in_price) (number.decimal 125 2))

-- The messages of the conversation. The one that holds the rolling cache point is the user message
-- sent last: `earlier` stands before it, so the list sent is `earlier ++ rolling ∷ []`.
pub record Talk (F : Type 0) : Type 0 where
  pub earlier : List (Message F)
  pub rolling : Message F

module _ {F : Type 0} where
  abbrev pub sent : Talk F → List (Message F)
  sent talk = talk.earlier ++ (talk.rolling ∷ [])

  unfoldable pub opening : String → Talk F
  opening user_text = record {
    earlier = [];
    rolling = record { role = user; content = text user_text ∷ cache_point ∷ [] };
  }

  -- The rolling message loses its last block, the model's message and the tool results follow, and
  -- these have the cache point now.
  unfoldable pub advance : Talk F → List (Block F) → List (Block F) → Talk F
  advance talk reply results = record {
    earlier =
        talk.earlier
        ++ (record talk.rolling { content = without_last talk.rolling.content }
            ∷ record { role = assistant; content = reply }
            ∷ []);
    rolling = record { role = user; content = results ++ (cache_point ∷ []) };
  }

  unfoldable pub request : String → Talk F → Request F
  request system_text talk = record {
    system = text system_text ∷ cache_point ∷ [];
    messages = sent talk;
    tool_points = 1;
  }

module _ {S F : Type 0} (call : String → Json F → Exec S String) where
  -- The results of the tools that the message asks for.
  unfoldable pub run_tools : List (Block F) → Exec S (List (Block F))
  run_tools [] = pure []
  run_tools (tool_use name input id ∷ bs) = do
    output ← call name input
    rest ← run_tools bs
    pure (tool_result id output ∷ rest)
  run_tools (b ∷ bs) = run_tools bs

module _ {S F : Type 0} ⦃number : Number F⦄ where
  -- The end of a round, with the results of the tools.
  unfoldable pub next_round :
      Params F
      → ℕ
      → Talk F
      → List (Block F)
      → F
      → String
      → (Talk F → F → String → Exec S (Summary F))
      → List (Block F)
      → Exec S (Summary F)
  unfolding summary
  next_round params turn talk reply cost final_text again results =
      if number.lt params.max_run_cost_usd cost
      then pure (summary cost_cap (of_ℕ turn) cost final_text)
      else again (advance talk reply results) cost final_text

module _ {S F : Type 0} ⦃number : Number F⦄ (call : String → Json F → Exec S String) where
  module _ (in_price out_price : F) (params : Params F) where
    -- What a round does with the response; `again` is the next round.
    unfoldable pub after_response :
        ℕ
        → Talk F
        → F
        → String
        → (Talk F → F → String → Exec S (Summary F))
        → Response F
        → Exec S (Summary F)
    unfolding summary add_cost
    after_response turn talk cost final_text again response = do
      let cost' = add_cost in_price out_price response cost
      let final_text' = or_text (join "\n" (texts response.content)) final_text
      if not (is_tool_use response.stop_reason)
          then pure (summary finished (of_ℕ turn) cost' final_text')
          else do
            results ← run_tools call response.content
            next_round params turn talk response.content cost' final_text' again results

module _ {S F : Type 0} ⦃number : Number F⦄ (session : Session S F) where
  module _ (in_price out_price : F) (system_text : String) (params : Params F) where
    -- The rounds that are left, and the number of the round that comes.
    unfoldable pub rounds : ℕ → ℕ → Talk F → F → String → Exec S (Summary F)
    unfolding summary
    rounds zero turn talk cost final_text = pure (summary turn_cap params.max_turns cost final_text)
    rounds (suc left) turn talk cost final_text =
        session.converse (request system_text talk)
        >>= after_response session.call in_price out_price params turn talk cost final_text
            (rounds left (suc turn))

    -- All the rounds of `range(1, max_turns + 1)`: none for a number below 1.
    unfoldable pub start : String → ℤ → Exec S (Summary F)
    unfolding opening
    start user_text turns = rounds (pos_part turns) 1 (opening user_text) (number.decimal 0 1) ""

    -- `range` refuses a float.
    unfoldable pub run_agent : String → Exec S (Summary F)
    run_agent user_text =
        lift (or_raise type_error (number.index? params.max_turns)) >>= start user_text
