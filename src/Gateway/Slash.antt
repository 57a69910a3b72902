-- ===== src/Gateway/Slash.antt =====
-- renderSlashResponse, readTaskLogSummaries and preview of hub/util/gateway/functions.go. A text is here
-- the list of its bytes.
pub mod Reading
use mathlib.Core.List.{reverse}
use zoa.Base.{
  ℕ, ◌+◌, ◌-◌, Bool, true, false, List, [], ◌∷◌, ◌++◌, map, ◌==◌, leb, if◌then◌else◌, length, take,
}
use zoa.Base.Int.{ℤ, pos}
use zoa.Base.Text.{Text, codes, text_eq, is_empty, decimal, has_prefix}
use zoa.Base.Stamp.{Stamp}
use zoa.Base.Sql.{Result, ok, err, Db, pure, raise, ◌>>=◌}
use zoa.Tools.Bytes.{spaces, word_length, trim_space}
use zoa.Runtime.Log.{Row, Summary, summaries}
use zoa.Gateway.Tables.{OutboxRow, Error, message, InboundRow, Action}
use zoa.Gateway.Inbound.{pending_count, processing_count}
use zoa.Gateway.Outbox.{outbox_count, recent_outbox}

abbrev pub without_newlines : Text → Text
without_newlines = map λ c. if c == b'\n' then b' ' else c

abbrev pub cut : ℕ → Text → Text
cut max text =
    if leb (length text) max
    then text
    else if leb max 3
    then take max text
    else take (max - 3) text ++ codes "..."

unfoldable pub preview : Text → ℕ → Text
preview text max = cut max (trim_space (without_newlines text))

-- strings.Fields(text)[0] of a text with no space before it
unfoldable pub first_word : Text → Text
first_word [] = []
first_word (c ∷ s) =
    let rest = first_word s in if word_length spaces (c ∷ s) == 0 then c ∷ rest else []

pub data Command : Type 0 where
  show_status show_queue show_outbox show_log show_tasks start_trace end_trace : Command
  unknown_command : Command

unfoldable pub command_of : Text → Command
command_of word =
    if text_eq word (codes "/status")
    then show_status
    else if text_eq word (codes "/queue")
    then show_queue
    else if text_eq word (codes "/outbox")
    then show_outbox
    else if text_eq word (codes "/log")
    then show_log
    else if text_eq word (codes "/tasks")
    then show_tasks
    else if text_eq word (codes "/start_trace")
    then start_trace
    else if text_eq word (codes "/end_trace")
    then end_trace
    else unknown_command

-- strings.Join(lines, "\n")
abbrev pub joined : Text → List Text → Text
joined line [] = line
joined line (l ∷ lines) = line ++ (codes "\n" ++ joined l lines)

abbrev pub list_or : Text → Text → (List Text → Text)
list_or nothing title [] = nothing
list_or nothing title (l ∷ lines) = joined title (l ∷ lines)

abbrev pub status_text : Text → ℕ → ℕ → ℕ → Text
status_text session pending processing outbox =
    codes "Session: "
    ++ (session
        ++ (codes "\nPending: "
            ++ (decimal pending
                ++ (codes "\nProcessing: "
                    ++ (decimal processing ++ (codes "\nOutbox: " ++ decimal outbox))))))

abbrev pub queue_text : ℕ → Text
queue_text pending =
    if pending == 0
    then codes "Queue is empty."
    else codes "Queue has " ++ (decimal pending ++ codes " pending message(s).")

abbrev pub outbox_line : OutboxRow → Text
outbox_line row =
    codes "- #"
    ++ (decimal row.id ++ (codes " [" ++ (row.session ++ (codes "] " ++ preview row.text 80))))

abbrev pub outbox_text : List OutboxRow → Text
outbox_text rows =
    list_or (codes "Outbox is empty.") (codes "Recent outbox messages:")
      (map outbox_line (reverse rows))

abbrev pub error_part : Text → Text
error_part error = if is_empty (trim_space error) then [] else codes " error=" ++ preview error 80

abbrev pub dashed : Text → Text
dashed line = codes "- " ++ line

abbrev pub log_text : List Text → Text
log_text lines = list_or (codes "No task logs yet.") (codes "Recent tasks:") (map dashed lines)

abbrev pub tasks_text : List Text → Text
tasks_text lines = list_or (codes "No running tasks.") (codes "Running tasks:") (map dashed lines)

abbrev pub replied : {A : Type 0} → (A → Text) → A → Action Text
replied f a = pure (f a)

abbrev pub with_processing : Text → ℕ → ℕ → ℕ → Action Text
with_processing session out waiting n = pure (status_text session waiting n out)

abbrev pub with_pending : Text → ℕ → ℕ → Action Text
with_pending session out waiting = processing_count session >>= with_processing session out waiting

abbrev pub with_outbox : Text → ℕ → Action Text
with_outbox session out = pending_count session >>= with_pending session out

-- The task log, the text of a stamp, and what the requests of internal/tracecontrol have led to, which are
-- answered with a text also where they fail.
module _ (task_log : Db (List Row) Text) (shown : Stamp → Text) (started ended : Text) where
  abbrev pub summary_line : Summary → Text
  summary_line s =
      s.task_id
      ++ (codes " "
          ++ (s.function_id
              ++ (codes " ["
                  ++ (s.status
                      ++ (codes "]"
                          ++ (error_part s.error_text
                              ++ (codes " updated_at=" ++ shown s.updated_at)))))))

  abbrev pub lines_of : Result Text (List Summary) → Action (List Text)
  lines_of (ok items) = pure (map summary_line items)
  lines_of (err e) = raise (message e)

  -- readTaskLogSummaries
  unfoldable pub read_task_log_summaries : ℤ → Bool → Bool → Action (List Text)
  read_task_log_summaries limit only_running include_hidden =
      lines_of (summaries limit only_running include_hidden task_log).0

  unfoldable pub render_command : Command → Text → Action Text
  unfolding read_task_log_summaries
  render_command show_status session = outbox_count session >>= with_outbox session
  render_command show_queue session = pending_count session >>= replied queue_text
  render_command show_outbox session = recent_outbox session (pos 10) >>= replied outbox_text
  render_command show_log session =
      read_task_log_summaries (pos 20) false false >>= replied log_text
  render_command show_tasks session =
      read_task_log_summaries (pos 0) true true >>= replied tasks_text
  render_command start_trace session = pure started
  render_command end_trace session = pure ended
  render_command unknown_command session = pure (
      codes
        "Unknown slash command. Available: /status /queue /log /tasks /outbox /start_trace /end_trace")

  -- renderSlashResponse
  unfoldable pub render_slash_response : Text → Text → Action Text
  unfolding render_command first_word command_of
  render_slash_response session text =
      let words = trim_space text in
      if is_empty words
      then raise (message (codes "invalid command"))
      else render_command (command_of (first_word words))
          (if is_empty (trim_space session) then codes "default" else trim_space session)

  -- processInboundMessage; `chat` is processChatMessage.
  unfoldable pub process_inbound_message : (InboundRow → Action Text) → InboundRow → Action Text
  unfolding render_slash_response
  process_inbound_message chat row =
      if has_prefix (trim_space row.text) (codes "/")
      then render_slash_response row.session row.text
      else chat row
