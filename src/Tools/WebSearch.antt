-- ===== src/Tools/WebSearch.antt =====
-- backend/app/tools/web_search.py
use agentic_execution.Prelude.{
  Option, none, some, ◌∷◌, ◌++◌, if◌then◌else◌, null, Text, codes, strip,
}
use agentic_execution.Json.{Json, str, obj, arr, field, end, nil, cons, get_field}
use agentic_execution.Llm.{Outcome, returned, raised}
use agentic_execution.Tools.{Tool, finished}

-- The answer, for a query without the space around it.
results : Text → Text
results q =
    codes "Top web results for '"
    ++ (q
        ++ (codes "' (simulated):"
            ++ 10 ∷ codes "1. Overview and definition relevant to '"
            ++ (q
                ++ (codes "'."
                    ++ 10 ∷ codes "2. Comparative pros / cons and common trade-offs."
                    ++ (10 ∷ codes "3. Practical guidance and typical pitfalls to avoid."
                        ++ (10
                            ∷ codes
                                "(Offline mock results; configure a real search backend for live data.)"))))))

search : Option Json → Outcome Text
unfolding results
search none =
    raised (codes "TypeError: WebSearchTool.run() missing 1 required positional argument: 'query'")
search (some (str query)) =
    let q = strip query in
    if null q
    then raised (codes "ToolError: query must be a non-empty string")
    else returned (results q)
search (some _) = raised (codes "ToolError: query must be a non-empty string")

unfoldable pub web_search : Tool
unfolding search
web_search = record {
  name = codes "web_search";
  description = codes "Search the web and return the top result snippets for a query.";
  parameters = obj (
      field (codes "type") (str (codes "object")) (
        field (codes "properties")
          (obj (
            field (codes "query")
              (obj (
                field (codes "type") (str (codes "string"))
                  (field (codes "description") (str (codes "Search query")) end)))
              end))
          (field (codes "required") (arr (cons (str (codes "query")) nil)) end)));
  run = λ fields. finished (search (get_field (codes "query") fields));
}
