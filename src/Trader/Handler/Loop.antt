-- ===== src/Trader/Handler/Loop.antt =====
-- The tool loop of agent.py over a model and tools that change nothing at the broker.
use infra_lab.Base.{ℕ, zero, suc, String, List, [], ◌∷◌, Exec}
use infra_lab.Base.Number.{Number}
use infra_lab.Base.Json.{Json}
use infra_lab.Trader.Config.{Params}
use infra_lab.Trader.World.{Run}
use infra_lab.Trader.Tools.Quiet.{Quiet, quiet_rules, Quiet-bind, Quiet-pure}
use infra_lab.Trader.Tools.DryRun.{is_trade}
use infra_lab.Trader.Agent.{
  Block, text, tool_use, tool_result, other, cache_point, Talk, Response, Request, Session, Summary,
  run_tools, next_round, after_response, rounds, start, run_agent,
}

-- Neither the model nor a tool changes anything at the broker.
pub record IsTame {F : Type 0} (session : Session (Run F) F) : Type 0 where
  pub model : (request : Request F) → Quiet is_trade (session.converse request)
  pub tools : (name : String) (input : Json F) → Quiet is_trade (session.call name input)

module _ {F : Type 0} ⦃number : Number F⦄ (session : Session (Run F) F)
    (tame : IsTame session) where
  run_tools-Quiet : (blocks : List (Block F)) → Quiet is_trade (run_tools session.call blocks)
  unfolding run_tools
  run_tools-Quiet [] = search quiet_rules
  run_tools-Quiet (tool_use name input id ∷ bs) =
      Quiet-bind _ _ (tame.tools name input)
        (λ output. Quiet-bind _ _ (run_tools-Quiet bs) (λ rest. Quiet-pure _))
  run_tools-Quiet (text t ∷ bs) = run_tools-Quiet bs
  run_tools-Quiet (tool_result id t ∷ bs) = run_tools-Quiet bs
  run_tools-Quiet (other ∷ bs) = run_tools-Quiet bs
  run_tools-Quiet (cache_point ∷ bs) = run_tools-Quiet bs

  module _ (in_price out_price : F) (params : Params F) where
    after_response-Quiet :
        (turn : ℕ) (talk : Talk F) (cost : F) (final_text : String)
        (again : Talk F → F → String → Exec (Run F) (Summary F))
        → ((next : Talk F) (c : F) (t : String) → Quiet is_trade (again next c t))
        → (response : Response F)
        → Quiet is_trade (
            after_response session.call in_price out_price params turn talk cost final_text again
              response)
    unfolding after_response next_round
    after_response-Quiet turn talk cost final_text again q response =
        search (quiet_rules, run_tools-Quiet, q) depth 10

    rounds-Quiet :
        (system_text : String) (left turn : ℕ) (talk : Talk F) (cost : F) (final_text : String)
        → Quiet is_trade
            (rounds session in_price out_price system_text params left turn talk cost final_text)
    unfolding rounds
    rounds-Quiet system_text zero turn talk cost final_text = search quiet_rules
    rounds-Quiet system_text (suc left) turn talk cost final_text =
        search
          (quiet_rules, tame.model, after_response-Quiet, rounds-Quiet system_text left (suc turn))
          depth 8

    -- Whatever the model asks for, the loop changes nothing at the broker.
    pub run_agent-Quiet :
        (system_text user_text : String)
        → Quiet is_trade (run_agent session in_price out_price system_text params user_text)
    unfolding run_agent start
    run_agent-Quiet system_text user_text = search (quiet_rules, rounds-Quiet) depth 8
