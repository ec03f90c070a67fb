-- ===== src/Middleware/Window.antt =====
-- How many requests of a client pass in one window.
use agentic_execution.Prelude.{
  ℕ, ◌+◌, ◌≡◌, refl, ap, ◌∙◌, subst, inl, inr, Bool, true, false, Option, none, some, List, [], ◌∷◌,
  arith, ltb, ◌==◌, if◌then◌else◌, Bool-cases, Option-cases, length, filter, find, Text, text_eq,
  text_eq_refl, text_eq_iff, eq-of-text_eq,
}
use agentic_execution.Middleware.{
  Entry, has_key, put, next_entry, clean_up, count_request, max_counts,
}

-- The requests of a client that the counts have for a window.
abbrev used_in : ℕ → Option Entry → ℕ
used_in window none = 0
used_in window (some e) = if e.window == window then e.requests else 0

abbrev pub used : Text → ℕ → List Entry → ℕ
used key window counts = used_in window (find (has_key key) counts)

-- A dict has one entry for a key.
abbrev pub HasKeys : List Entry → Type 0
HasKeys [] = Unit
HasKeys (e ∷ es) = (find (has_key e.key) es ≡ none) × HasKeys es

key_eq : (e : Entry) (key : Text) → has_key key e ≡ true → e.key ≡ key
key_eq e key h = eq-of-text_eq e.key key h

find-put_same : (e : Entry) (es : List Entry) → find (has_key e.key) (put e es) ≡ some e
unfolding put
find-put_same e [] = rw (text_eq_refl e.key) refl
find-put_same e (x ∷ xs) = elim (Bool-cases (has_key e.key x)) [
  | inl b ↦ rw (b, text_eq_refl e.key) refl
  | inr b ↦ rw (b, b) (find-put_same e xs)
]

find-put_other :
    (key : Text) (e : Entry) (es : List Entry)
    → has_key key e ≡ false
    → find (has_key key) (put e es) ≡ find (has_key key) es
unfolding put
find-put_other key e [] ne = rw ne refl
find-put_other key e (x ∷ xs) ne = elim (Bool-cases (has_key e.key x)) [
  | inl b ↦ rw (b, ne, ap (λ k. text_eq k key) (key_eq x e.key b) ∙ ne) refl
  | inr b ↦ rw b (ground (arith, find-put_other key e xs ne))
]

-- What no entry has, no selection of the entries has.
find-filter-none :
    (key : Text) (p : Entry → Bool) (es : List Entry)
    → find (has_key key) es ≡ none
    → find (has_key key) (filter p es) ≡ none
find-filter-none key p [] h = refl
find-filter-none key p (x ∷ xs) h = ground (arith, find-filter-none key p xs)

-- A clean-up keeps what the window has.
used-filter :
    (key : Text) (window : ℕ) (es : List Entry)
    → HasKeys es
    → used key window (filter (λ e. e.window == window) es) ≡ used key window es
used-filter key window [] keys = refl
used-filter key window (x ∷ xs) (fresh, keys) = elim (Bool-cases (has_key key x)) [
  | inl b ↦
      let gone =
        find-filter-none key (λ e. e.window == window) xs
          (subst (λ k. find (has_key k) xs ≡ none) (key_eq x key b) fresh) in
      ground (arith, gone)
  | inr b ↦ ground (arith, used-filter key window xs keys)
]

HasKeys-filter : (p : Entry → Bool) (es : List Entry) → HasKeys es → HasKeys (filter p es)
HasKeys-filter p [] keys = tt
HasKeys-filter p (x ∷ xs) (fresh, keys) = elim (Bool-cases (p x)) [
  | inl b ↦ rw b (find-filter-none x.key p xs fresh, HasKeys-filter p xs keys)
  | inr b ↦ rw b (HasKeys-filter p xs keys)
]

has_key-sym : (e x : Entry) → has_key e.key x ≡ false → has_key x.key e ≡ false
has_key-sym e x h = ground (arith, text_eq_iff e.key x.key, text_eq_iff x.key e.key)

HasKeys-put : (e : Entry) (es : List Entry) → HasKeys es → HasKeys (put e es)
unfolding put
HasKeys-put e [] keys = (refl, tt)
HasKeys-put e (x ∷ xs) (fresh, keys) = elim (Bool-cases (has_key e.key x)) [
  | inl b ↦ rw b (subst (λ k. find (has_key k) xs ≡ none) (key_eq x e.key b) fresh, keys)
  | inr b ↦ rw b (find-put_other x.key e xs (has_key-sym e x b) ∙ fresh, HasKeys-put e xs keys)
]

HasKeys-clean_up : (window : ℕ) (es : List Entry) → HasKeys es → HasKeys (clean_up window es)
unfolding clean_up
HasKeys-clean_up window es keys = elim (Bool-cases (ltb max_counts (length es))) [
  | inl b ↦ rw b (HasKeys-filter (λ e. e.window == window) es keys)
  | inr b ↦ rw b keys
]

used-clean_up :
    (key : Text) (window : ℕ) (es : List Entry)
    → HasKeys es
    → used key window (clean_up window es) ≡ used key window es
unfolding clean_up
used-clean_up key window es keys = elim (Bool-cases (ltb max_counts (length es))) [
  | inl b ↦ rw b (used-filter key window es keys)
  | inr b ↦ rw b refl
]

next_entry-key : (key : Text) (window : ℕ) (o : Option Entry) → (next_entry key window o).key ≡ key
unfolding next_entry
next_entry-key key window none = refl
next_entry-key key window (some e) = ground arith

next_entry-used :
    (key : Text) (window : ℕ) (o : Option Entry)
    → used_in window (some (next_entry key window o)) ≡ used_in window o + 1
unfolding next_entry
next_entry-used key window none = ground arith
next_entry-used key window (some e) = ground arith

-- The next entry has the number of the request.
module _ (key : Text) (window : ℕ) (es : List Entry) where
  abbrev entry : Entry
  entry = next_entry key window (find (has_key key) es)

  pub count_request-number : (count_request key window es).0 ≡ used key window es + 1
  unfolding count_request next_entry
  count_request-number = elim (Option-cases (find (has_key key) es)) [
    | inl e ↦ rw e (ground arith)
    | inr (x, e) ↦ rw e (ground arith)
  ]

  pub count_request-HasKeys : HasKeys es → HasKeys (count_request key window es).1
  unfolding count_request
  count_request-HasKeys keys = HasKeys-clean_up window (put entry es) (HasKeys-put entry es keys)

  pub count_request-same :
      HasKeys es → used key window (count_request key window es).1 ≡ used key window es + 1
  unfolding count_request
  count_request-same keys =
      used-clean_up key window (put entry es) (HasKeys-put entry es keys)
      ∙ ap (used_in window) (
          subst (λ k. find (has_key k) (put entry es) ≡ some entry)
            (next_entry-key key window (find (has_key key) es)) (find-put_same entry es))
      ∙ next_entry-used key window (find (has_key key) es)

  pub count_request-other :
      (other : Text)
      → text_eq key other ≡ false
      → HasKeys es
      → used other window (count_request key window es).1 ≡ used other window es
  unfolding count_request
  count_request-other other ne keys =
      used-clean_up other window (put entry es) (HasKeys-put entry es keys)
      ∙ ap (used_in window) (
          find-put_other other entry es
            (ap (λ k. text_eq k other) (next_entry-key key window (find (has_key key) es)) ∙ ne))
