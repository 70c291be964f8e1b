-- ===== src/Lib.antt =====
-- A verification library for the Python code of infra-lab.
--
-- The program's parts and the files that model them:
--   * The paper trading runner, infra/live/dev/lambda/alpaca_trader/. One run, started by a schedule,
--     takes a lock in S3, lets a language model call tools, and writes a journal.
--       Trader/Config: `_BOUNDS`, `Params` and `Params.from_dict` of guardrails.py.
--       Trader/Guardrails: the other functions of guardrails.py, under their names.
--       Trader/World: what the runner calls. A run keeps the list of its calls, newest first, and the
--         reply to a call is a function of the calls before it and of its arguments.
--       Trader/Store: class `Store` of store.py, with `acquire_lock` and `release_lock`; Trader/Store/Race
--         has its requests as steps of several runs that interleave.
--       Trader/Notify: notify.py. Trader/Tools: class `Toolbox` of tools.py, with its writes in Orders,
--         Positions and Records, the reads of market data in Market, with Format and
--         Screen, and `call` in Bind, which binds the arguments, and Dispatch.
--       Trader/Agent: `run_agent` of agent.py, over a session: the model and the tools as actions.
--       Trader/Request: the retries of `AlpacaClient._request` of alpaca_api.py; Trader/Api: the requests
--         of its methods.
--       Trader/Flatten and Trader/Strategy: `_flatten`, the strategy ids, the S3 roots, the credentials
--         and the control flag of handler.py. Trader/Handler: `_run` and `handler`, cut at their
--         branches, over Trader/Handler/Inputs; Trader/Handler/Session: `_run_agent`, which runs the
--         loop of Agent with the Toolbox.
--   * The desktop provisioner, infra/live/workspaces/lambda/desktop_provisioner.py.
--       Desktop/Cloud: EC2, SSM, DynamoDB and the clock. Desktop/Steps: the helpers.
--       Desktop/Handler: `handler`, cut at its branches.
--   * The small functions under infra/live/dev/lambda/: Lambdas/AutoStop is rds_auto_stop.py;
--     Lambdas/Dispatch is wake/handler.py and idle_teardown_trigger/handler.py.
--   * scripts/mempalace_migrate_wing.py: Memory/Client is `_rpc` and `tool_call`, Memory/Paging is
--     `list_wing_drawer_ids`, Memory/Migrate is `main`.
--   * scripts/mempalace_remote_backup.py: Memory/Backup, over the same client and the same paging.
--   * scripts/validate_foundation.py. Foundation/Suite: `Suite`, the results and what the checks read;
--     Repo and Terraform: the local checks; Backend, Org and Services: those of AWS; Main: the summary
--     and `main`. The files and the commands are an environment that is an argument.
-- Base has what they share: exceptions as values (Raise), code with a state that may raise (Stateful),
-- code whose state is the list of its calls (Effects), texts, JSON, Python's operations on a JSON value
-- (Dynamic), and Python's numbers as an interface (Number) with an instance for the examples (Fixed).
--
-- Numbers. An `int` or a `float` of a config, a price or a cost is of a type with the operations of
-- `Number`; a theorem that needs a law of them names `Lawful` or `IsAsymmetric`. Counts are
-- natural numbers.
--
-- Loops. `acquire_lock` has two rounds, `_flatten` twelve polls, `wait_for_ip` twelve, `_rpc` three
-- attempts, `_request` its retries and one, and the model's loop `max_turns` rounds: each is a
-- recursion on that number, so none of them needs more fuel than the code has rounds. The pages of
-- drawers have no such number: their loop is on fuel, with `none` for the fuel that is used up. Each
-- round but the last raises the offset, so one round more than the total of the server is enough.
--
-- Approximations. A name or an id of AWS or of the memory server that is not of the type its use needs
-- counts as a TypeError, and so does arithmetic on a value that is no number; an ARN that is no text
-- counts as missing; the interleaved runs count time in seconds.
--
-- Not modelled: HTTP, boto3 and JSON text, which are parameters; logging, printed text and files that
-- are written; argparse; the texts of Python's own exceptions; the tool specs; Terraform and the workflows.
pub mod Base
pub mod Trader
pub mod Desktop
pub mod Lambdas
pub mod Memory
pub mod Foundation
