-- ===== src/Logging.antt =====
-- backend/app/logging_config.py: the correlation ids of log records, the two formats and the set-up
-- of the root logger. The levels of `logging` are a parameter.
use agentic_execution.Prelude.{
  ℕ, Bool, true, Option, none, some, [], ◌∷◌, ◌++◌, if◌then◌else◌, Text, codes, text_eq, lower,
  join,
}
use agentic_execution.Json.{Fields, Codec, str, obj, field, end}

-- The context variables, "-" where nothing is bound.
pub record LogContext : Type 0 where
  pub execution_id : Text
  pub task_id : Text
  pub agent_type : Text

-- `clear_log_context`, which is also the default of the variables.
abbrev clear_log_context : LogContext
clear_log_context = record { execution_id = codes "-"; task_id = codes "-"; agent_type = codes "-" }

abbrev or_before : Option Text → Text → Text
or_before none before = before
or_before (some s) before = s

-- The arguments as `str` prints them.
bind_log_context : Option Text → Option Text → Option Text → LogContext → LogContext
bind_log_context execution_id task_id agent_type context = record {
  execution_id = or_before execution_id context.execution_id;
  task_id = or_before task_id context.task_id;
  agent_type = or_before agent_type context.agent_type;
}

-- A record, and what `_ContextFilter` puts onto it.
pub record LogRecord : Type 0 where
  pub ts : Text
  pub level : Text
  pub logger : Text
  pub message : Text
  pub exception : Option Text
  pub context : Option LogContext

context_filter : LogContext → LogRecord → LogRecord
context_filter context log = record log { context = some context }

abbrev context_of : Option LogContext → LogContext
context_of none = clear_log_context
context_of (some context) = context

abbrev exception_field : Option Text → Fields
exception_field none = end
exception_field (some e) = field (codes "exception") (str e) end

-- `_JsonFormatter.format`
json_format : Codec → LogRecord → Text
json_format codec log =
    let context = context_of log.context in
    codec.dumps (
      obj (
        field (codes "ts") (str log.ts) (
          field (codes "level") (str log.level) (
            field (codes "logger") (str log.logger) (
              field (codes "execution_id") (str context.execution_id) (
                field (codes "task_id") (str context.task_id) (
                  field (codes "agent_type") (str context.agent_type) (
                    field (codes "message") (str log.message)
                      (exception_field log.exception)))))))))

-- What a formatter appends for an exception.
abbrev exception_text : Option Text → Text
exception_text none = []
exception_text (some e) = 10 ∷ e

-- `_TEXT_FORMAT`; `pad` is the format `%-8s`.
text_format : (Text → Text) → LogRecord → Text
text_format pad log =
    let context = context_of log.context in
    join (codes " | ") (
      log.ts
      ∷ pad log.level
      ∷ log.logger
      ∷ (codes "execution_id="
          ++ (context.execution_id
              ++ (codes " task_id="
                  ++ (context.task_id ++ (codes " agent=" ++ context.agent_type)))))
      ∷ log.message
      ∷ [])
    ++ exception_text log.exception

pub data LogFormat : Type 0 where
  json_lines text_lines : LogFormat

-- What `configure_logging` sets: `_CONFIGURED`, and the handler and the level of the root logger.
pub record LogState : Type 0 where
  pub configured : Bool
  pub format : Option LogFormat
  pub level : ℕ

abbrev or_info : Option ℕ → ℕ
or_info none = 20
or_info (some n) = n

-- `level` is `getattr(logging, log_level.upper())`, where there is one.
configure_logging : Option ℕ → Text → LogState → LogState
configure_logging level log_format state = if state.configured then state else record {
  configured = true;
  format = some (if text_eq (lower log_format) (codes "json") then json_lines else text_lines);
  level = or_info level;
}
