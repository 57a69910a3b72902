-- ===== src/Tools/Commands.antt =====
-- The tools that run a command: BashTool.Execute of internal/agentloop/tools/bash.go, and what grep.go
-- and find.go make of the end of theirs. The command itself is an argument: what it writes, and how
-- it ends.
pub mod Search
pub mod Find
pub mod Shown
use zoa.Base.{ℕ, suc, ◌*◌, Bool, true, false, ◌&&◌, ◌||◌, List, [], ◌∷◌, ◌++◌, ◌==◌, if◌then◌else◌}
use mathlib.Core.List.{foldl}
use zoa.Base.Int.{ℤ, pos, negsuc}
use zoa.Base.Text.{Text, codes, is_empty, decimal}
use zoa.Base.Sql.{Result, ok, err}
use zoa.Tools.Args.{Args, Checked, string_arg, int_arg, ◌>>=◌}
use zoa.Tools.Truncate.{Truncation, default_max_lines, default_max_bytes}
use zoa.Tools.Bytes.{trim_space, format_size}
use zoa.Tools.Tail.{truncate_tail}
use zoa.Tools.Buffers.{
  Buffer, new_buffer, write_tail, write_capped, is_truncated, max_captured_bytes,
}

-- How cmd.Run returns: without an error, with an ExitError, or with another error.
pub data Exit : Type 0 where
  success : Exit
  exit_code : ℕ → Exit
  not_run : Text → Exit

-- The run of a command: the writes to its two outputs, its end, and whether the deadline had passed.
pub record Run : Type 0 where
  pub stdout : List Text
  pub stderr : List Text
  pub exit : Exit
  pub timed_out : Bool

abbrev pub error_of : Exit → Text
error_of success = []
error_of (exit_code n) = codes "exit status " ++ decimal n
error_of (not_run text) = text

abbrev pub or_no_output : Text → Text
or_no_output s = if is_empty s then codes "(no output)" else s

abbrev pub notice_list : Bool → Text → List Text
notice_list true s = s ∷ []
notice_list false s = []

-- strings.Join(notices, sep)
abbrev pub join_notices : Text → List Text → Text
join_notices sep [] = []
join_notices sep (s ∷ []) = s
join_notices sep (s ∷ t ∷ ss) = s ++ (sep ++ join_notices sep (t ∷ ss))

abbrev pub bracketed : Text → List Text → Text
bracketed sep [] = []
bracketed sep (s ∷ ss) = codes "\n\n[" ++ (join_notices sep (s ∷ ss) ++ codes "]")

-- What the tail buffer holds of both outputs together, in the order of the writes.
abbrev pub captured : List Text → Buffer
captured writes = foldl write_tail (new_buffer (pos max_captured_bytes)) writes

abbrev pub shown_output : Buffer → Truncation
shown_output b =
    truncate_tail (or_no_output (trim_space b.buf)) (pos default_max_lines) (pos default_max_bytes)

bash_notices : Buffer → Truncation → List Text
bash_notices b tr =
    notice_list tr.truncated (
      codes "Output truncated by "
      ++ (tr.reason
          ++ (codes ". Showing last chunk of " ++ (format_size b.total ++ codes " total."))))
    ++ notice_list (is_truncated b) (codes "command output capture limit reached")

unfoldable pub bash_result : List Text → Text
unfolding bash_notices
bash_result writes =
    let b = captured writes in
    let tr = shown_output b in tr.content ++ bracketed (codes " ") (bash_notices b tr)

-- %d of an int
abbrev pub signed : ℤ → Text
signed (pos n) = decimal n
signed (negsuc n) = b'-' ∷ decimal (suc n)

-- What follows cmd.Run; `writes` are those of both outputs.
unfoldable pub bash_outcome : ℤ → List Text → Exit → Bool → Checked Text
unfolding bash_result
bash_outcome timeout writes exit true = err (
    codes "command timed out after "
    ++ (signed timeout ++ (codes " seconds\n" ++ bash_result writes)))
bash_outcome timeout writes success false = ok (bash_result writes)
bash_outcome timeout writes (exit_code n) false =
    err (codes "command failed: " ++ (error_of (exit_code n) ++ (b'\n' ∷ bash_result writes)))
bash_outcome timeout writes (not_run text) false =
    err (codes "command failed: " ++ (text ++ (b'\n' ∷ bash_result writes)))

-- BashTool.Execute, which gives both outputs the same buffer: `stdout` of the run has the writes of
-- both. `run` is what the shell does with a command, within the timeout if it is
-- positive. There is no deadline otherwise, where the caller's context has none.
unfoldable pub bash : (Text → ℤ → Run) → Args → Checked Text
bash run args = string_arg args (codes "command") true >>= λ command.
    (int_arg args (codes "timeout") false >>= λ timeout.
    let r = run command timeout in bash_outcome timeout r.stdout r.exit r.timed_out)

-- What runGrepBackend and runFindBackend return.
pub data Searched : Type 0 where
  matches : Text → Bool → Searched
  no_matches : Searched
  search_failed : Text → Searched

abbrev pub first_filled : Text → Text → Text
first_filled s t = if is_empty s then t else s

abbrev pub failure : Text → Exit → Text → Searched
failure backend exit detail = search_failed (
    backend
    ++ (codes " failed: " ++ (error_of exit ++ (if is_empty detail then [] else b'\n' ∷ detail))))

abbrev pub exited : Exit → Text → Text → Text → Bool → Searched
exited success backend out errors cut = if is_empty out then no_matches else matches out cut
exited (not_run text) backend out errors cut =
    failure backend (not_run text) (first_filled errors out)
exited (exit_code n) backend out errors cut =
    if n == 1 && (is_empty out && is_empty errors)
    then no_matches
    else failure backend (exit_code n) (first_filled errors out)

-- What follows cmd.Run in both.
unfoldable pub search_outcome : Text → Run → Searched
search_outcome backend r =
    let stdout = foldl write_capped (new_buffer (pos max_captured_bytes)) r.stdout in
    let stderr = foldl write_capped (new_buffer (pos (1024 * 1024))) r.stderr in
    exited r.exit backend (trim_space stdout.buf) (trim_space stderr.buf)
      (is_truncated stdout || is_truncated stderr)
