-- ===== src/Tools/Edit.antt =====
-- EditTool.Execute of internal/agentloop/tools/edit.go and WriteTool.Execute of write.go, with
-- strings.Count and strings.Replace.
pub mod Unique
pub mod Edited
use zoa.Base.{
  ℕ, zero, suc, ◌+◌, ◌-◌, ◌*◌, Bool, true, false, List, [], ◌∷◌, ◌++◌, ltb, ◌==◌, if◌then◌else◌,
  length, drop,
}
use zoa.Base.Text.{Text, codes, text_eq, has_prefix, decimal}
use zoa.Base.Sql.{Result, ok, err, Db, M, pure, raise, ◌>>=◌, ◌>>◌}
use zoa.Tools.Args.{Args, Checked, string_arg}
use zoa.Tools.Bytes.{is_likely_binary, format_size}
use zoa.Tools.Paths.{FilePath, resolve}
use zoa.Tools.Files.{Files, Disk, lift, read_file, file_size, write_file, wrap}

abbrev pub max_edit_file_bytes : ℕ
max_edit_file_bytes = 2 * 1024 * 1024

-- strings.Count for a text that is not empty; `skip` bytes of an occurrence are still to go.
unfoldable pub count_text : Text → ℕ → Text → ℕ
count_text old skip [] = 0
count_text old (suc skip) (c ∷ s) = count_text old skip s
count_text old zero (c ∷ s) =
    let hit = has_prefix (c ∷ s) old in
    let n = count_text old (if hit then length old - 1 else 0) s in if hit then suc n else n

-- strings.Replace(s, old, new, 1) for an old text that is not empty
unfoldable pub replace_first : Text → Text → Text → Text
replace_first old new [] = []
replace_first old new (c ∷ s) =
    let rest = replace_first old new s in
    if has_prefix (c ∷ s) old then new ++ drop (length old) (c ∷ s) else c ∷ rest

-- From the count to the updated text.
unfoldable pub edit_text : Text → Text → Text → Text → Checked Text
unfolding count_text replace_first
edit_text path old new content =
    let occurrences = count_text old 0 content in
    let updated = replace_first old new content in
    if occurrences == 0
    then err (codes "oldText not found in " ++ path)
    else if ltb 1 occurrences
    then err (
        codes "oldText appears "
        ++ (decimal occurrences
            ++ (codes " times in " ++ (path ++ codes "; provide a more specific snippet"))))
    else if text_eq updated content
    then err (codes "replacement made no changes in " ++ path)
    else ok updated

too_large : Text → ℕ → Text
too_large path size =
    codes "refusing to edit "
    ++ (path ++ (codes ": file is " ++ (format_size size ++ codes " (max 2.0MB)")))

-- What the file must be.
unfoldable pub editable : Text → Text → Checked Text
unfolding too_large
editable path content =
    if ltb max_edit_file_bytes (length content)
    then err (too_large path (length content))
    else if is_likely_binary content
    then err (codes "refusing to edit " ++ (path ++ codes ": file appears to be binary"))
    else ok content

unfoldable pub small_enough : Text → ℕ → Checked (Unit {0})
unfolding too_large
small_enough path size = if ltb max_edit_file_bytes size then err (too_large path size) else ok tt

pub edited : Text → Text
edited path = codes "Edited " ++ (path ++ codes " (replaced 1 occurrence).")

-- The steps of EditTool.Execute, the last one first.
module _ (abs : FilePath) (path : Text) where
  unfoldable pub save : Text → Disk Text
  unfolding edited
  save updated = wrap (codes "write ") (write_file abs updated) >>= λ _. pure (edited path)

  module _ (old new : Text) where
    unfoldable pub change : Text → Disk Text
    change content = lift (edit_text path old new content) >>= save

    unfoldable pub check_content : Text → Disk Text
    check_content s = lift (editable path s) >>= change

    unfoldable pub load : Unit {0} → Disk Text
    load _ = wrap (codes "read ") (read_file abs) >>= check_content

    unfoldable pub check_size : ℕ → Disk Text
    check_size size = lift (small_enough path size) >>= load

    unfoldable pub edit_file : Disk Text
    edit_file = wrap (codes "stat ") (file_size abs) >>= check_size

abbrev pub at_path : Text → Text → Text → FilePath → Disk Text
at_path path old new abs = edit_file abs path old new

module _ (root : FilePath) (home : Text) (args : Args) where
  unfoldable pub with_new : Text → Text → Text → Disk Text
  with_new path old new = lift (resolve root home path) >>= at_path path old new

  unfoldable pub with_old : Text → Text → Disk Text
  with_old path old = lift (string_arg args (codes "newText") true) >>= with_new path old

  unfoldable pub with_path : Text → Disk Text
  with_path path = lift (string_arg args (codes "oldText") true) >>= with_old path

  -- EditTool.Execute
  unfoldable pub edit : Disk Text
  edit = lift (string_arg args (codes "path") true) >>= with_path

-- WriteTool.Execute; os.MkdirAll, which makes the directories of the path, may fail.
unfoldable pub write_tool : FilePath → Text → Disk (Unit {0}) → Args → Disk Text
write_tool root home make_directories args = do
  path ← lift (string_arg args (codes "path") true)
  content ← lift (string_arg args (codes "content") true)
  abs ← lift (resolve root home path)
  _ ← wrap (codes "create parent directories for ") make_directories
  _ ← wrap (codes "write ") (write_file abs content)
  pure (codes "Wrote " ++ (decimal (length content) ++ (codes " bytes to " ++ path)))
