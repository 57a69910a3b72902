-- ===== src/Gateway/Slash/Reading.antt =====
-- The slash commands of hub/util/gateway/functions.go change nothing, and show short previews.
use zoa.Base.{
  ℕ, ◌-◌, ◌≤◌, inl, inr, true, false, List, arith, leb, length, length-append, take, Bool-cases,
  if◌then◌else◌,
}
use zoa.Base.Int.{pos}
use zoa.Base.Cuts.{length-take}
use zoa.Base.Text.{Text, codes, is_empty}
use zoa.Base.Stamp.{Stamp}
use zoa.Base.Sql.{Result, ok, err, Db}
use zoa.Base.Sql.Laws.{Keeps, >>=-Keeps, query-Keeps}
use zoa.Tools.Bytes.{trim_space}
use zoa.Runtime.Log.{Row, Summary, summaries}
use zoa.Gateway.Tables.{Tables}
use zoa.Gateway.Inbound.{pending_count, processing_count}
use zoa.Gateway.Outbox.{outbox_count, recent_outbox}
use zoa.Gateway.Slash.{
  without_newlines, cut, preview, Command, show_status, show_queue, show_outbox, show_log,
  show_tasks, start_trace, end_trace, unknown_command, lines_of, read_task_log_summaries,
  render_command, replied, queue_text, outbox_text, log_text, tasks_text, with_outbox, with_pending,
  with_processing, render_slash_response, command_of, first_word,
}

-- A preview has at most `max` bytes, whatever the text.
pub length-preview : (text : Text) (max : ℕ) → length (preview text max) ≤ max
unfolding preview
length-preview text max = short (trim_space (without_newlines text))
  where
    short : (s : Text) → length (cut max s) ≤ max
    short s = elim (Bool-cases (leb (length s) max)) [
      | inl y ↦ rw y (ground arith)
      | inr n ↦ rw n (elim (Bool-cases (leb max 3)) [
        | inl z ↦ rw z (ground (arith, length-take max s))
        | inr m ↦
            rw (m, length-append (take (max - 3) s) (codes "..."))
              (ground (arith, length-take (max - 3) s))
      ])
    ]

module _ (task_log : Db (List Row) Text) (shown : Stamp → Text) (started ended : Text)
    (P : Tables → Type 0) where
  lines_of-Keeps :
      (r : Result Text (List Summary)) → Keeps P (lines_of task_log shown started ended r)
  lines_of-Keeps (ok items) d h = h
  lines_of-Keeps (err e) d h = h

  render_command-Keeps :
      (c : Command) (session : Text)
      → Keeps P (render_command task_log shown started ended c session)
  unfolding render_command read_task_log_summaries outbox_count pending_count processing_count
      recent_outbox
  render_command-Keeps show_status session =
      >>=-Keeps P (outbox_count session) (with_outbox session) (query-Keeps P _) λ out.
        >>=-Keeps P (pending_count session) (with_pending session out) (query-Keeps P _) λ waiting.
          >>=-Keeps P (processing_count session) (with_processing session out waiting)
            (query-Keeps P _) λ n d h. h
  render_command-Keeps show_queue session =
      >>=-Keeps P (pending_count session) (replied queue_text) (query-Keeps P _) λ pending d h. h
  render_command-Keeps show_outbox session =
      >>=-Keeps P (recent_outbox session (pos 10)) (replied outbox_text) (query-Keeps P _)
        λ rows d h. h
  render_command-Keeps show_log session =
      >>=-Keeps P (read_task_log_summaries task_log shown started ended (pos 20) false false)
        (replied log_text) (lines_of-Keeps (summaries (pos 20) false false task_log).0)
        λ lines d h. h
  render_command-Keeps show_tasks session =
      >>=-Keeps P (read_task_log_summaries task_log shown started ended (pos 0) true true)
        (replied tasks_text) (lines_of-Keeps (summaries (pos 0) true true task_log).0)
        λ lines d h. h
  render_command-Keeps start_trace session = λ d h. h
  render_command-Keeps end_trace session = λ d h. h
  render_command-Keeps unknown_command session = λ d h. h

  -- A slash command changes no table, whatever it is and whether or not it fails.
  pub render_slash_response-Keeps :
      (session text : Text)
      → Keeps P (render_slash_response task_log shown started ended session text)
  unfolding render_slash_response
  render_slash_response-Keeps session text d h = elim (Bool-cases (is_empty (trim_space text))) [
    | inl y ↦ rw y h
    | inr n ↦ rw n (
        render_command-Keeps (command_of (first_word (trim_space text)))
          (if is_empty (trim_space session) then codes "default" else trim_space session) d h)
  ]
