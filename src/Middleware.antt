-- ===== src/Middleware.antt =====
-- backend/app/middleware.py: the limit on the size of a request and the rate limit. A request that
-- passes goes on to the application; the response of one that does not is given instead.
pub mod Window
pub mod Quota
use agentic_execution.Prelude.{
  ℕ, ◌+◌, ◌-◌, ◌*◌, ◌/◌, ◌%◌, Bool, true, false, not, ◌&&◌, ◌||◌, Option, none, some, List, [], ◌∷◌,
  ltb, leb, ◌==◌, if◌then◌else◌, length, filter, find, count, null, Text, codes, text_eq, strip,
}

pub record Scope : Type 0 where
  -- `scope["type"] == "http"`
  pub is_http : Bool
  pub headers : List (Text × Text)
  pub path : Text
  -- the address of `scope["client"]`
  pub client : Option Text

pub data Verdict : Type 0 where
  passed : Verdict
  too_large : Verdict
  -- 429, with the value of Retry-After
  limited : ℕ → Verdict

-- The request goes on to the application.
abbrev pub has_passed : Verdict → Bool
has_passed passed = true
has_passed _ = false

pub header : List (Text × Text) → Text → Option Text
header [] name = none
header ((key, value) ∷ headers) name = if text_eq key name then some value else header headers name

is_digit : ℕ → Bool
is_digit c = leb 48 c && leb c 57

-- Digits with single underscores between them; `after` says that a digit stands before.
scan : Bool → ℕ → Text → Option ℕ
unfolding is_digit
scan after n [] = if after then some n else none
scan after n (c ∷ s) =
    let more = scan true (n * 10 + (c - 48)) s in
    let skipped = scan false n s in
    if is_digit c then more else if after && c == 95 then skipped else none

-- `int` refuses more than 4300 digits.
digits : Text → Option ℕ
unfolding is_digit scan
digits s = if ltb 4300 (count is_digit s) then none else scan false 0 s

abbrev at_most_zero : Option ℕ → Option ℕ
at_most_zero none = none
at_most_zero (some n) = some 0

signed : Text → Option ℕ
unfolding digits
signed [] = none
signed (c ∷ s) =
    if c == 43 then digits s else if c == 45 then at_most_zero (digits s) else digits (c ∷ s)

-- `int(value)`, cut at 0 below, as no limit is below 0. `none` is a ValueError.
parse_size : Text → Option ℕ
unfolding signed
parse_size value = signed (strip value)

abbrev exceeds : Option ℕ → ℕ → Bool
exceeds none limit = false
exceeds (some n) limit = ltb limit n

abbrev declared_size : Option Text → Option ℕ
declared_size none = none
declared_size (some value) = parse_size value

pub limit_size : ℕ → Scope → Verdict
unfolding header
limit_size max_request_bytes scope =
    if scope.is_http
      && exceeds (declared_size (header scope.headers (codes "content-length"))) max_request_bytes
    then too_large
    else passed

-- `self._counts`: for a client, the window and the number of requests in it.
pub record Entry : Type 0 where
  pub key : Text
  pub window : ℕ
  pub requests : ℕ

abbrev has_key : Text → Entry → Bool
has_key key e = text_eq e.key key

-- `self._counts[key] = ...`, which keeps the place of a key that is there.
put : Entry → List Entry → List Entry
put e [] = e ∷ []
put e (x ∷ xs) = let rest = put e xs in if has_key e.key x then e ∷ xs else x ∷ rest

abbrev max_counts : ℕ
max_counts = 10000

-- The entry for the request: a count of an older window starts again.
next_entry : Text → ℕ → Option Entry → Entry
next_entry key window none = record { key = key; window = window; requests = 1 }
next_entry key window (some e) =
    if e.window == window
    then record { key = key; window = window; requests = e.requests + 1 }
    else record { key = key; window = window; requests = 1 }

clean_up : ℕ → List Entry → List Entry
clean_up window counts =
    if ltb max_counts (length counts) then filter (λ e. e.window == window) counts else counts

-- The critical section: the request's number in its window, and the new counts.
pub count_request : Text → ℕ → List Entry → ℕ × List Entry
unfolding put next_entry clean_up
count_request key window counts =
    let e = next_entry key window (find (has_key key) counts) in
    (e.requests, clean_up window (put e counts))

pub is_prefix : Text → Text → Bool
is_prefix [] s = true
is_prefix (c ∷ p) [] = false
is_prefix (c ∷ p) (d ∷ s) = c == d && is_prefix p s

abbrev client_address : Option Text → Text
client_address none = codes "anon"
client_address (some address) = address

abbrev key_or_client : Option Text → Option Text → Text
key_or_client none client = client_address client
key_or_client (some key) client = if null key then client_address client else key

-- The API key, or the address of the client.
pub client_key : Scope → Text
unfolding header
client_key scope = key_or_client (header scope.headers (codes "x-api-key")) scope.client

-- What the rate limit does not look at.
unfoldable pub is_exempt : ℕ → Scope → Bool
unfolding is_prefix
is_exempt limit scope = not scope.is_http || limit == 0 || not (is_prefix (codes "/api") scope.path)

-- `now` in seconds.
pub limit_rate : ℕ → ℕ → Scope → List Entry → Verdict × List Entry
limit_rate limit now scope counts =
    let (n, counts') = count_request (client_key scope) (now / 60) counts in
    if is_exempt limit scope
    then (passed, counts)
    else (if ltb limit n then limited (60 - now % 60) else passed, counts')

-- The requests in the order of the lock, with their times.
unfoldable pub serve : ℕ → List (ℕ × Scope) → List Entry → List Verdict
serve limit [] counts = []
serve limit ((now, scope) ∷ requests) counts =
    let (v, counts') = limit_rate limit now scope counts in v ∷ serve limit requests counts'
