-- ===== src/Agents/Conversation.antt =====
-- The conversation that `Agent.run` (backend/app/agents/base.py) keeps and sends to the provider.
use agentic_execution.Prelude.{
  ℕ, zero, suc, ◌+◌, ◌<◌, max, ◌≡◌, refl, sym, ◌∙◌, inl, inr, true, false, Option, List, [], ◌∷◌,
  ◌++◌, map, arith, Bool-cases, null, Text,
}
use agentic_execution.Enums.{AgentType}
use agentic_execution.Settings.{Settings}
use agentic_execution.Llm.{
  Outcome-cases, Outcome, returned, raised, ToolCall, LlmResponse, ToolSpec, Message, user,
  assistant, tool, LlmProvider,
}
use agentic_execution.Tools.{Registry, spec}
use agentic_execution.Agents.{
  Loop, system_prompt, build_user_prompt, rounds, run, tools, start, some_if_any, count_response,
  after_calls, run_calls, call_content, output_of,
}

-- One tool message for each call, in the order of the calls, with its id and its name.
pub data Replies : List ToolCall → List Message → Type 0 where
  done : Replies [] []
  reply :
      {call : ToolCall} {content : Text} {calls : List ToolCall} {replies : List Message}
      → Replies calls replies
      → Replies (call ∷ calls) (tool call.id call.name content ∷ replies)

-- The prompt, and then any number of turns of the assistant, each asking for a tool at least and
-- followed by the replies to its calls.
pub data Conversation (prompt : Text) : ℕ → List Message → Type 0 where
  opened : Conversation prompt 0 (user prompt ∷ [])
  answered :
      {n : ℕ} {messages : List Message} {calls : List ToolCall} {replies : List Message}
      (text : Text)
      → Conversation prompt n messages
      → null calls ≡ false
      → Replies calls replies
      → Conversation prompt (suc n) (messages ++ (assistant text calls ∷ replies))

-- A round, by what the provider answers.
module _ (settings : Settings) (registry : Registry) (timeout : Text) (kind : AgentType)
    (llm : LlmProvider) (n : ℕ) (s : Loop) where
  abbrev answer : Outcome LlmResponse
  answer =
      llm.chat s.messages (system_prompt kind)
        (some_if_any (map spec (tools settings registry timeout llm kind)))

  round_raised :
      {error : Text}
      → answer ≡ raised error
      → rounds settings registry timeout llm kind (suc n) s ≡ raised error
  unfolding rounds
  round_raised e = rw (rounds, e) refl

  round_final :
      {response : LlmResponse}
      → answer ≡ returned response
      → null response.tool_calls ≡ true
      → rounds settings registry timeout llm kind (suc n) s
        ≡ returned (count_response settings registry timeout llm kind s response)
  unfolding rounds
  round_final e last = rw (rounds, e, last) refl

  round_called :
      {response : LlmResponse}
      → answer ≡ returned response
      → null response.tool_calls ≡ false
      → rounds settings registry timeout llm kind (suc n) s
        ≡ rounds settings registry timeout llm kind n (
            after_calls settings registry timeout llm kind
              (count_response settings registry timeout llm kind s response)
              response)
  unfolding rounds
  round_called e called = rw (rounds, e, called) refl

module _ (settings : Settings) (registry : Registry) (timeout : Text) (kind : AgentType)
    (one other : LlmProvider) where
  run_calls-Replies :
      (calls : List ToolCall) → Replies calls (run_calls settings registry timeout one kind calls)
  unfolding run_calls
  run_calls-Replies [] = done
  run_calls-Replies (call ∷ calls) = reply (run_calls-Replies calls)

  run_calls_same :
      (calls : List ToolCall)
      → run_calls settings registry timeout one kind calls
        ≡ run_calls settings registry timeout other kind calls
  unfolding run_calls call_content
  run_calls_same [] = refl
  run_calls_same (call ∷ calls) = rw (run_calls_same calls) refl

  abbrev asked : Option (List ToolSpec)
  asked = some_if_any (map spec (tools settings registry timeout one kind))

  -- The two providers answer alike to the conversations with fewer than `bound` turns.
  abbrev Agree : Text → ℕ → Type 0
  Agree prompt bound =
      (n : ℕ) (messages : List Message)
      → Conversation prompt n messages
      → n < bound
      → one.chat messages (system_prompt kind) asked
        ≡ other.chat messages (system_prompt kind) asked

  after_response_same :
      (s : Loop) (response : LlmResponse)
      → after_calls settings registry timeout one kind
          (count_response settings registry timeout one kind s response)
          response
        ≡ after_calls settings registry timeout other kind
            (count_response settings registry timeout other kind s response)
            response
  unfolding after_calls count_response
  after_response_same s response = rw (run_calls_same response.tool_calls) refl

  rounds_same :
      (prompt : Text) (bound n k : ℕ) (s : Loop)
      → Agree prompt bound
      → Conversation prompt k s.messages
      → k + n ≡ bound
      → rounds settings registry timeout one kind n s
        ≡ rounds settings registry timeout other kind n s
  unfolding rounds count_response after_calls
  rounds_same prompt bound zero k s agree conversation e = refl
  rounds_same prompt bound (suc n) k s agree conversation e =
      let alike = agree k s.messages conversation (omega arith) in
      elim (Outcome-cases (answer settings registry timeout kind one n s)) [
        | inl (response, sent) ↦ elim (Bool-cases (null response.tool_calls)) [
          | inl last ↦
              rw
                (
                  round_final settings registry timeout kind one n s sent last,
                  round_final settings registry timeout kind other n s (sym alike ∙ sent) last,
                )
                refl
          | inr called ↦
              rw
                (
                  round_called settings registry timeout kind one n s sent called,
                  round_called settings registry timeout kind other n s (sym alike ∙ sent) called,
                  sym (after_response_same s response),
                )
                (rounds_same prompt bound n (suc k)
                  (after_calls settings registry timeout one kind
                    (count_response settings registry timeout one kind s response) response)
                  agree
                  (answered response.text conversation called
                    (run_calls-Replies response.tool_calls))
                  (omega arith))
        ]
        | inr (error, failed) ↦
            rw
              (
                round_raised settings registry timeout kind one n s failed,
                round_raised settings registry timeout kind other n s (sym alike ∙ failed),
              )
              refl
      ]

  -- What the agent makes of a task depends only on what the provider answers to conversations that
  -- begin with the prompt of the task, have fewer turns of the assistant than the configured
  -- number of rounds, and where each turn asks for a tool at least and is followed by one reply to
  -- each of its calls, in order, and on the name of the model: it sends the provider nothing else.
  pub run_same :
      (task_description context : Text)
      → Agree
          (build_user_prompt task_description context)
          (max 1 settings.agent_max_tool_iterations)
      → one.model ≡ other.model
      → run settings registry timeout one kind task_description context
        ≡ run settings registry timeout other kind task_description context
  unfolding run output_of
  run_same task_description context agree model =
      let first = start settings registry timeout one kind task_description context in
      rw
        (
          sym (
              rounds_same (build_user_prompt task_description context)
                (max 1 settings.agent_max_tool_iterations)
                (max 1 settings.agent_max_tool_iterations) 0 first agree opened (omega arith)),
          model,
        )
        refl
