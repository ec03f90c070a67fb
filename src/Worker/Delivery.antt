-- ===== src/Worker/Delivery.antt =====
-- From enqueue_task and enqueue_plan (backend/app/jobqueue.py) to the dispatch of the worker.
use agentic_execution.Prelude.{
  ℕ, zero, suc, ◌≡◌, refl, ap, ◌∙◌, ◌≢◌, true, some, List, [], ◌∷◌, ◌++◌, length, drop, Text,
  text_eq, text_eq_refl,
}
use agentic_execution.Json.{Json, Codec, str, get_field}
use agentic_execution.Redis.{Redis, RedisLaws, first, rest}
use agentic_execution.JobQueue.{
  CodecLaws, queue_key, plan_type, task_type, job, enqueue, enqueue_plan, enqueue_task, dequeue,
  load_payload,
}
use agentic_execution.Worker.{plan_job, task_job, truthy, dispatch}

truthy-str : (s : Text) → s ≢ [] → truthy (str s) ≡ true
truthy-str [] ne = absurd (ne refl)
truthy-str (c ∷ s) ne = refl

module _ (c : Codec) (laws : CodecLaws c) where
  -- The two kinds of jobs are told apart, with the id that they were made of.
  pub dispatch-task : (id : ℕ) → dispatch c (job task_type (c.uuid_str id)) ≡ task_job id
  unfolding dispatch text_eq get_field
  dispatch-task id =
      rw
        (
          truthy-str (c.uuid_str id) (laws.uuid_str-ne_nil id),
          laws.to_str-str (c.uuid_str id),
          laws.parse-uuid_str id,
        )
        refl

  dispatch-plan : (id : ℕ) → dispatch c (job plan_type (c.uuid_str id)) ≡ plan_job id
  unfolding dispatch text_eq get_field
  dispatch-plan id =
      rw
        (
          truthy-str (c.uuid_str id) (laws.uuid_str-ne_nil id),
          laws.to_str-str (c.uuid_str id),
          laws.parse-uuid_str id,
        )
        refl

pub drop-append : {A : Type 0} (xs ys : List A) → drop (length xs) (xs ++ ys) ≡ ys
drop-append [] ys = refl
drop-append (x ∷ xs) ys = drop-append xs ys

drop-rest : (n : ℕ) (xs : List Text) → drop n (rest xs) ≡ drop (suc n) xs
drop-rest zero [] = refl
drop-rest (suc n) [] = refl
drop-rest n (x ∷ xs) = refl

module _ (r : Redis) (redis_laws : RedisLaws r) (c : Codec) where
  -- As many jobs are taken as the number says.
  pub dequeue_many : ℕ → r.State → r.State
  dequeue_many zero s = s
  dequeue_many (suc n) s = dequeue_many n (dequeue r c s).1

  pub entries-dequeue_many :
      (n : ℕ) (s : r.State)
      → r.entries queue_key (dequeue_many n s) ≡ drop n (r.entries queue_key s)
  unfolding dequeue_many dequeue
  entries-dequeue_many zero s = refl
  entries-dequeue_many (suc n) s =
      entries-dequeue_many n (dequeue r c s).1
      ∙ ap (drop n)
          (redis_laws.entries-blpop queue_key queue_key s ∙ rw (text_eq_refl queue_key) refl)
      ∙ drop-rest n (r.entries queue_key s)

  -- The job that follows those ahead of it is the one that was put last.
  dequeue-enqueue :
      CodecLaws c
      → (kind id : Text) (s : r.State)
      → (dequeue r c
          (dequeue_many (length (r.entries queue_key s)) (enqueue r c (job kind id) s))).0
        ≡ some (job kind id)
  unfolding dequeue enqueue
  dequeue-enqueue laws kind id s =
      let ahead = length (r.entries queue_key s) in
      let q = enqueue r c (job kind id) s in
      let entries_after =
        entries-dequeue_many ahead q
        ∙ ap (drop ahead) (
            redis_laws.entries-rpush queue_key queue_key (c.dumps (job kind id)) s
            ∙ rw (text_eq_refl queue_key) refl)
        ∙ drop-append (r.entries queue_key s) (c.dumps (job kind id) ∷ []) in
      ap (load_payload r c)
        (redis_laws.blpop-value queue_key (dequeue_many ahead q) ∙ ap first entries_after)
      ∙ laws.loads-dumps kind id

  -- With a Redis and a codec as documented, once the jobs ahead are taken, the next job taken is
  -- the one that was enqueued, and the worker dispatches it to the handler of its kind with its
  -- id, for tasks and for plans.
  pub enqueue-delivered :
      CodecLaws c
      → (id : ℕ) (s : r.State)
      → let ahead = dequeue_many (length (r.entries queue_key s)) in
        ((j : Json) × ((dequeue r c (ahead (enqueue_task r c id s))).0 ≡ some j)
          × (dispatch c j ≡ task_job id))
        × ((j : Json) × ((dequeue r c (ahead (enqueue_plan r c id s))).0 ≡ some j)
            × (dispatch c j ≡ plan_job id))
  unfolding enqueue_task enqueue_plan
  enqueue-delivered laws id s = (
    (_, dequeue-enqueue laws task_type (c.uuid_str id) s, dispatch-task c laws id),
    (_, dequeue-enqueue laws plan_type (c.uuid_str id) s, dispatch-plan c laws id),
  )
