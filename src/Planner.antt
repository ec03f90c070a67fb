-- ===== src/Planner.antt =====
-- backend/app/services/planner.py: the prompts, the parse of the answer, the fallback plan and the
-- dependency structure. `json.loads` and `str` of a JSON value are parameters.
pub mod Dependencies
pub mod OnMock
use agentic_execution.Prelude.{
  ℕ, zero, suc, ◌+◌, max, Bool, true, false, Option, none, some, List, [], ◌∷◌, ◌++◌, ltb, ◌==◌,
  if◌then◌else◌, length, take, filter, null, Text, codes, strip, rstrip, collapse, decimal, ℤ, pos,
  negsuc,
}
use agentic_execution.Enums.{AgentType, from_value}
use agentic_execution.Json.{
  Json, Items, Fields, Codec, null as json_null, bool, int, str, arr, obj, nil, cons, get_field,
}
use agentic_execution.Llm.{Outcome, returned, raised, LlmProvider, LlmResponse}

pub record PlannedSubtask : Type 0 where
  pub agent_type : AgentType
  pub description : Text
  pub depends_on : List ℤ

-- `isinstance(d, int)`: True and False are the ints 1 and 0.
abbrev int_of : Json → Option ℤ
int_of (int n) = some n
int_of (bool true) = some (pos 1)
int_of (bool false) = some (pos 0)
int_of _ = none

abbrev keep {ℓ} : {A : Type ℓ} → Option A → List A → List A
keep none xs = xs
keep (some x) xs = x ∷ xs

ints : Items → List ℤ
ints nil = []
ints (cons j js) = keep (int_of j) (ints js)

-- `item.get("depends_on")`, where a list gives its ints and anything else gives none.
abbrev raw_deps : Option Json → List ℤ
raw_deps (some (arr items)) = ints items
raw_deps _ = []

abbrev json_or : Option Json → Json → Json
json_or none d = d
json_or (some j) d = j

module _ (c : Codec) where
  -- `AgentType.from_value(item.get("agent_type", "research"))`
  agent_type_of : Option Json → AgentType
  agent_type_of none = from_value (some (codes "research"))
  agent_type_of (some json_null) = from_value none
  agent_type_of (some j) = from_value (some (c.to_str j))

  parse_item : Json → Option PlannedSubtask
  unfolding ints agent_type_of
  parse_item (obj fields) =
      let description =
        strip (c.to_str (json_or (get_field (codes "description") fields) (str []))) in
      if null description
      then none
      else some (record {
        agent_type = agent_type_of (get_field (codes "agent_type") fields);
        description = description;
        depends_on = raw_deps (get_field (codes "depends_on") fields);
      })
  parse_item _ = none

  parse_items : Items → List PlannedSubtask
  unfolding parse_item
  parse_items nil = []
  parse_items (cons item items) = keep (parse_item item) (parse_items items)

  -- `re.compile(r"\[.*\]", re.DOTALL).search(text)`: from the first `[` that a `]` follows, to the
  -- last `]`.
  up_to_last_bracket : Text → Option Text
  up_to_last_bracket [] = none
  up_to_last_bracket (ch ∷ s) = elim (up_to_last_bracket s) [
    | some t ↦ some (ch ∷ t)
    | none ↦ if ch == 93 then some (ch ∷ []) else none
  ]

  json_array : Text → Option Text
  unfolding up_to_last_bracket
  json_array [] = none
  json_array (ch ∷ s) =
      let later = json_array s in
      if ch == 91
      then (elim (up_to_last_bracket s) [ none ↦ none | some t ↦ some (ch ∷ t) ])
      else later

  load_matched : Option Text → Option Json
  load_matched none = none
  load_matched (some matched) = c.loads matched

  load_json : Text → Option Json
  unfolding json_array load_matched
  load_json [] = none
  load_json (ch ∷ s) = elim (c.loads (ch ∷ s)) [
    | some j ↦ some j
    | none ↦ load_matched (json_array (ch ∷ s))
  ]

  abbrev parse_value : Option Json → List PlannedSubtask
  parse_value (some (arr items)) = parse_items items
  parse_value _ = []

  parse : Text → List PlannedSubtask
  unfolding load_json parse_items
  parse text = parse_value (load_json text)

snippet_of : Text → Text
snippet_of user_request =
    let snippet = collapse user_request in
    if ltb 160 (length snippet) then rstrip (take 159 snippet) ++ 8230 ∷ [] else snippet

fallback : Text → List PlannedSubtask
unfolding snippet_of
fallback user_request =
    record {
      agent_type = AgentType.research;
      description =
          codes "Research and gather relevant information for: " ++ snippet_of user_request;
      depends_on = [];
    }
    ∷ record {
      agent_type = AgentType.analysis;
      description =
          codes "Analyze the gathered information and identify key insights for: "
          ++ snippet_of user_request;
      depends_on = [];
    }
    ∷ record {
      agent_type = AgentType.summarization;
      description =
          codes "Summarize the findings into a clear final answer for: " ++ snippet_of user_request;
      depends_on = [];
    }
    ∷ []

-- `list(range(n))`
range_from : ℕ → ℕ → List ℤ
range_from start zero = []
range_from start (suc n) = pos start ∷ range_from (start + 1) n

-- `0 <= d < index`
abbrev pub earlier : ℕ → ℤ → Bool
earlier index (pos d) = ltb d index
earlier index (negsuc d) = false

abbrev is_summarization : AgentType → Bool
is_summarization AgentType.summarization = true
is_summarization _ = false

assign : ℕ → PlannedSubtask → PlannedSubtask
unfolding range_from
assign index s = record s {
  depends_on =
      if null s.depends_on
      then (if is_summarization s.agent_type then range_from 0 index else [])
      else filter (earlier index) s.depends_on;
}

assign_from : ℕ → List PlannedSubtask → List PlannedSubtask
assign_from index [] = []
assign_from index (s ∷ rest) = assign index s ∷ assign_from (index + 1) rest

assign_dependencies : List PlannedSubtask → List PlannedSubtask
unfolding assign_from
assign_dependencies = assign_from 0

-- The constructor of `Planner`, which repairs the configured bounds.
pub record Planner : Type 0 where
  pub min_tasks : ℕ
  pub max_tasks : ℕ

pub new_planner : ℕ → ℕ → Planner
new_planner min_tasks max_tasks = record {
  min_tasks = max 1 min_tasks;
  max_tasks = max (max 1 min_tasks) max_tasks;
}

module _ (c : Codec) (llm : LlmProvider) (planner : Planner) where
  system_prompt : Text
  system_prompt =
      codes "You are a task planning assistant. Decompose the user's request into between "
      ++ (decimal planner.min_tasks
          ++ (codes " and "
              ++ (decimal planner.max_tasks
                  ++ (codes " sequential subtasks. Each "
                      ++ (codes
                            "subtask must be a JSON object with two fields: 'agent_type' (one of: "
                          ++ (codes
                                "research, analysis, summarization) and 'description' (a clear instruction). "
                              ++ (codes
                                    "Order them so later tasks can build on earlier ones. Respond with ONLY a "
                                  ++ codes "JSON array, no surrounding prose.")))))))

  unfoldable pub user_prompt : Text → Text
  user_prompt user_request =
      codes "User request:"
      ++ (10 ∷ 34 ∷ 34 ∷ 34 ∷ user_request)
      ++ (34 ∷ 34 ∷ 34 ∷ 10 ∷ 10 ∷ codes "Return the JSON array of subtasks now.")

  pub finish_plan : Text → LlmResponse → List PlannedSubtask
  finish_plan user_request response =
      let subtasks = parse c response.text in
      let chosen = if null subtasks then fallback user_request else subtasks in
      assign_dependencies (take planner.max_tasks chosen)

  unfoldable pub after_response : Text → Outcome LlmResponse → Outcome (List PlannedSubtask)
  after_response user_request (raised e) = raised e
  after_response user_request (returned response) = returned (finish_plan user_request response)

  unfoldable pub plan : Text → Outcome (List PlannedSubtask)
  unfolding user_prompt finish_plan system_prompt after_response
  plan user_request =
      after_response user_request (llm.complete (user_prompt user_request) system_prompt)
