-- ===== src/Tools/Edit/Edited.antt =====
-- What EditTool.Execute of internal/agentloop/tools/edit.go leaves in the files.
use zoa.Base.{ℕ, ◌≡◌, true, some, ◌∷◌}
use zoa.Base.Text.{Text, codes}
use zoa.Base.Sql.{ok}
use zoa.Tools.Args.{Args, string_arg}
use zoa.Tools.Paths.{FilePath, resolve, print_path}
use zoa.Tools.Files.{Files, content_of, put_file}
use zoa.Tools.Edit.Unique.{Replaced}

-- The old text was once in the file, as strings.Count counts, the new text is in its place, and no
-- other file is another.
abbrev pub EditedFile : FilePath → Text → Text → Files → Files → Type 0
EditedFile abs old new before files =
    (content : Text) × (updated : Text) × (content_of (print_path abs) before ≡ some content)
    × Replaced old new content updated
    × (files ≡ put_file (print_path abs) updated before)

module _ (abs : FilePath) (path new : Text) (o : ℕ) (os : Text) (before : Files) where
  abbrev Edits : Text → Files → Type 0
  Edits _ = EditedFile abs (o ∷ os) new before

abbrev pub EditedBy : FilePath → Text → Args → Files → Files → Type 0
EditedBy root home args before files =
    (path : Text) × (old : Text) × (new : Text) × (abs : FilePath) × (string_arg args (codes "path")
        true
      ≡ ok path)
    × (string_arg args (codes "oldText") true ≡ ok old)
    × (string_arg args (codes "newText") true ≡ ok new)
    × (resolve root home path ≡ ok abs)
    × EditedFile abs old new before files
