-- ===== src/Tests/Services.antt =====
-- The planner, the prices, the tools and the inline run, with a provider that always answers alike.
use agentic_execution.Prelude.{
  ◌+◌, ◌≤◌, ◌<◌, ◌≡◌, refl, false, some, List, [], if◌then◌else◌, length, null, Text, codes,
}
use agentic_execution.Models.{get_task, get_execution}
use agentic_execution.Llm.{Outcome, returned, raised}
use agentic_execution.Agents.{AgentOutput}
use agentic_execution.Planner.{PlannedSubtask, new_planner, finish_plan, after_response, plan}
use agentic_execution.Planner.Dependencies.{AllFrom, DependsEarlier, plan_shape}
use agentic_execution.Executor.{execute}
use agentic_execution.Executor.Runs.{IsFaithful}
use agentic_execution.Executor.Rows.{HaveRows, Shown, execute_stops}
use agentic_execution.Orchestrator.{Clock, run_execution}
use agentic_execution.Orchestrator.Lifecycle.{Settled, Holds, run_execution-Settled}
use agentic_execution.Tests.Fixtures.{
  job_codec, env, execution, research_task, summary_task, two_tasks, answer, provider,
}

abbrev request : Text
request = codes "compare two databases"

-- The answer is no JSON, so the plan is the fallback.
abbrev planned_subtasks : List PlannedSubtask
planned_subtasks = finish_plan job_codec provider (new_planner 2 5) request answer

planned_request : plan job_codec provider (new_planner 2 5) request ≡ returned planned_subtasks
unfolding plan after_response
planned_request = refl

plan_shape_example :
    (0 < length planned_subtasks)
    × (length planned_subtasks ≤ (new_planner 2 5).max_tasks)
    × AllFrom DependsEarlier 0 planned_subtasks
plan_shape_example = plan_shape job_codec provider 2 5 request planned_subtasks planned_request

-- An agent that fails at a description.
abbrev agent : Text → Text → Text → Outcome AgentOutput
agent agent_type description context =
    if null context
    then returned (record {
      text = codes "facts";
      prompt_tokens = 12;
      completion_tokens = 8;
      total_tokens = 20;
      tool_calls = 0;
      model = codes "gpt-4o-mini";
    })
    else raised (codes "ValueError: too long")

two_tasks-HaveRows : HaveRows two_tasks.tasks two_tasks
unfolding get_task
two_tasks-HaveRows = (refl, (research_task, refl), (refl, (summary_task, refl), tt))

execute_stops_example :
    let (result, db') = execute (λ n. false) agent (λ id. 5) (λ id. 9) two_tasks.tasks two_tasks in
    IsFaithful 2 result × Shown two_tasks.tasks result.outcomes two_tasks db'
execute_stops_example =
    execute_stops (λ n. false) agent (λ id. 5) (λ id. 9) two_tasks.tasks two_tasks
      two_tasks-HaveRows

abbrev clock : Clock
clock = record {
  planning_at = 3;
  running_at = 4;
  ended_at = 9;
  started = λ id. 5;
  finished = λ id. 6;
}

found_execution : get_execution 1 two_tasks ≡ some execution
unfolding get_execution
found_execution = refl

run_execution-Settled_example :
    Holds Settled 1
      (run_execution env [] (returned provider) (λ index. 20 + index) clock 1 two_tasks)
run_execution-Settled_example =
    run_execution-Settled env [] (returned provider) (λ index. 20 + index) clock 1 two_tasks
      {e = execution} found_execution
