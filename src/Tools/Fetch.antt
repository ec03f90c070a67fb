-- ===== src/Tools/Fetch.antt =====
-- backend/app/tools/fetch.py. The HTTP client is a parameter: what a GET with redirects answers, or
-- the exception of it or of `raise_for_status`.
use agentic_execution.Prelude.{
  ℕ, Bool, ◌||◌, Option, none, some, ◌∷◌, ◌++◌, if◌then◌else◌, take, Text, codes, starts_with,
  lower, decimal,
}
use agentic_execution.Json.{Json, str, obj, arr, field, end, nil, cons, get_field}
use agentic_execution.Llm.{Outcome, returned, raised}
use agentic_execution.Tools.{Tool, finished}

pub record Response : Type 0 where
  pub status_code : ℕ
  pub text : Text
  -- the length of the content in bytes
  pub content_length : ℕ

abbrev is_http : Text → Bool
is_http url =
    starts_with (codes "http://") (lower url) || starts_with (codes "https://") (lower url)

module _ (get : Text → Outcome Response) (fetch_max_bytes : ℕ) where
  fetched : Text → Outcome Response → Outcome Text
  fetched url (raised e) = raised (codes "ToolError: fetch failed: " ++ e)
  fetched url (returned response) = returned (
      codes "GET "
      ++ (url
          ++ (codes " -> "
              ++ (decimal response.status_code
                  ++ (codes " ("
                      ++ (decimal response.content_length
                          ++ (codes " bytes)" ++ 10 ∷ 10 ∷ take fetch_max_bytes response.text)))))))

  fetch : Option Json → Outcome Text
  unfolding fetched
  fetch none =
      raised (codes "TypeError: FetchUrlTool.run() missing 1 required positional argument: 'url'")
  fetch (some (str url)) =
      if is_http url
      then fetched url (get url)
      else raised (codes "ToolError: url must start with http:// or https://")
  fetch (some _) = raised (codes "ToolError: url must start with http:// or https://")

  unfoldable pub fetch_url : Tool
  unfolding fetch
  fetch_url = record {
    name = codes "fetch_url";
    description = codes "Fetch the text content at an http(s) URL (result is truncated).";
    parameters = obj (
        field (codes "type") (str (codes "object")) (
          field (codes "properties")
            (obj (
              field (codes "url")
                (obj (
                  field (codes "type") (str (codes "string"))
                    (field (codes "description") (str (codes "http(s) URL to fetch")) end)))
                end))
            (field (codes "required") (arr (cons (str (codes "url")) nil)) end)));
    run = λ fields. finished (fetch (get_field (codes "url") fields));
  }
