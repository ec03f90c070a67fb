-- ===== src/Redis.antt =====
-- The Redis server behind backend/app/jobqueue.py: the commands that the program sends, and the
-- documented behaviour of each on the lists and the sorted sets that the server holds. A key is used
-- for one of the two kinds only.

use agentic_execution.Prelude.{
  ℕ, ◌≡◌, Bool, true, false, not, ◌&&◌, ◌||◌, Option, none, some, List, [], ◌∷◌, ◌++◌, map, ltb,
  leb, ◌==◌, if◌then◌else◌, any, filter, Text, text_eq,
}

-- A member of a sorted set and its score.
pub record Scored : Type 0 where
  pub member : Text
  pub score : ℕ

pub record Redis : Type 1 where
  pub State : Type 0
  pub rpush : Text → Text → State → State
  -- `none` when the timeout elapses
  pub blpop : Text → State → Option Text × State
  -- all entries of a list, the oldest first
  pub entries : Text → State → List Text
  pub zadd : Text → Text → ℕ → State → State
  -- the members whose score is at most the bound, in the order of the set
  pub zrangebyscore : Text → ℕ → State → List Text
  -- the number of members removed
  pub zrem : Text → Text → State → ℕ × State
  -- all members of a sorted set, in its order
  pub members : Text → State → List Scored

abbrev pub without : Text → List Scored → List Scored
without m zs = filter (λ z. not (text_eq z.member m)) zs

-- Texts by their code points, which is the order of their bytes in UTF-8.
abbrev text_before : Text → Text → Bool
text_before [] [] = false
text_before [] (d ∷ t) = true
text_before (c ∷ s) [] = false
text_before (c ∷ s) (d ∷ t) = ltb c d || (c == d && text_before s t)

-- The order of a sorted set: by score, and by the member where the scores are the same.
abbrev pub before : Scored → Scored → Bool
before y z = ltb y.score z.score || (y.score == z.score && text_before y.member z.member)

abbrev pub insert_scored : Scored → List Scored → List Scored
insert_scored z [] = z ∷ []
insert_scored z (y ∷ ys) = if before y z then y ∷ insert_scored z ys else z ∷ y ∷ ys

abbrev pub has_member : Text → List Scored → Bool
has_member m zs = any (λ z. text_eq z.member m) zs

abbrev pub first : List Text → Option Text
first [] = none
first (x ∷ xs) = some x

abbrev pub rest : List Text → List Text
rest [] = []
rest (x ∷ xs) = xs

pub record RedisLaws (r : Redis) : Type 0 where
  pub entries-rpush :
      (key other value : Text) (s : r.State)
      → r.entries other (r.rpush key value s)
        ≡ (if text_eq key other then r.entries other s ++ value ∷ [] else r.entries other s)
  pub members-rpush :
      (key other value : Text) (s : r.State)
      → r.members other (r.rpush key value s) ≡ r.members other s
  pub blpop-value : (key : Text) (s : r.State) → (r.blpop key s).0 ≡ first (r.entries key s)
  pub entries-blpop :
      (key other : Text) (s : r.State)
      → r.entries other (r.blpop key s).1
        ≡ (if text_eq key other then rest (r.entries other s) else r.entries other s)
  pub members-blpop :
      (key other : Text) (s : r.State) → r.members other (r.blpop key s).1 ≡ r.members other s
  pub entries-zadd :
      (key other m : Text) (n : ℕ) (s : r.State)
      → r.entries other (r.zadd key m n s) ≡ r.entries other s
  pub members-zadd :
      (key other m : Text) (n : ℕ) (s : r.State)
      → r.members other (r.zadd key m n s) ≡ (
          if text_eq key other
          then insert_scored (record { member = m; score = n }) (without m (r.members other s))
          else r.members other s)
  pub zrangebyscore_due :
      (key : Text) (bound : ℕ) (s : r.State)
      → r.zrangebyscore key bound s
        ≡ map (λ (z : Scored). z.member) (filter (λ z. leb z.score bound) (r.members key s))
  pub zrem-count :
      (key m : Text) (s : r.State)
      → (r.zrem key m s).0 ≡ (if has_member m (r.members key s) then 1 else 0)
  pub entries-zrem :
      (key other m : Text) (s : r.State) → r.entries other (r.zrem key m s).1 ≡ r.entries other s
  pub members-zrem :
      (key other m : Text) (s : r.State)
      → r.members other (r.zrem key m s).1
        ≡ (if text_eq key other then without m (r.members other s) else r.members other s)
