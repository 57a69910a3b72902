-- ===== src/Tools/Tests/Workspace.antt =====
-- The tools of internal/agentloop/tools in a small workspace.
use zoa.Base.{
  ℕ, zero, suc, ◌+◌, ◌≡◌, ◌≢◌, ◌≤◌, ◌<◌, ◌⊎◌, ◌↔◌, refl, true, false, [], ◌∷◌, ◌++◌, arith, length,
  take, drop, All,
}
use mathlib.Core.List.{Perm}
use zoa.Base.Int.{pos}
use zoa.Base.Text.{Text, codes, is_empty, decimal}
use zoa.Base.Sql.{ok, err, Db, query, exec}
use zoa.Tools.Args.{Args, Value, string_arg}
use zoa.Tools.Bytes.{utf8_valid, utf8_step, trim_space, is_likely_binary, format_size}
use zoa.Tools.Truncate.{join_lines, split_lines}
use zoa.Tools.Paths.{
  FilePath, split_path, clean_step, clean, join_path, rel, expand_path, absolute, resolve,
}
use zoa.Tools.Paths.Inside.{IsPlain, Under, resolve-Under}
use zoa.Tools.Files.{Files, read_file, file_size, write_file, wrap}
use zoa.Tools.Edit.{
  count_text, replace_first, edit_text, editable, small_enough, save, change, check_content, load,
  check_size, edit_file, with_new, with_old, with_path, edit,
}
use zoa.Tools.Edit.Unique.{Replaced, edit_text_iff}
use zoa.Tools.Read.{
  trim_suffix, has_newline, is_cut, read_lines, read_content, read_output, read_chunk, append_line,
}
use zoa.Tools.Read.Chunks.{text_lines}
use zoa.Tools.Read.Pages.{page, asked}
use zoa.Tools.Read.Following.{follow, read_lines-page, follow-drop}
use zoa.Tools.Binary.{valid_text-binary}
use zoa.Tools.Commands.Find.{normalize_find_output, shown_matches}
use zoa.Tools.Commands.Shown.{IsSorted, shown_matches-IsSorted}

abbrev root : FilePath
root = record { rooted = true; segments = codes "home" ∷ codes "work" ∷ [] }

resolves :
    resolve root (codes "/home") (codes "a/../b.txt")
    ≡ ok (record { rooted = true; segments = codes "home" ∷ codes "work" ∷ codes "b.txt" ∷ [] })
unfolding resolve trim_space join_path clean clean_step split_path rel
resolves = refl

refuses_outside :
    resolve root (codes "/home") (codes "../x") ≡ err (codes "path ../x is outside workspace root")
unfolding resolve trim_space join_path clean clean_step split_path rel
refuses_outside = refl

resolve-Under_example :
    ((p : FilePath)
      → resolve root (codes "/home") (codes "a/../b.txt") ≡ ok p
      → (p.rooted ≡ true) × All IsPlain p.segments × Under root p)
    × (is_empty (trim_space (expand_path (codes "/home") (codes "a/../b.txt"))) ≡ false
        → Under root (absolute root (expand_path (codes "/home") (codes "a/../b.txt")))
        → resolve root (codes "/home") (codes "a/../b.txt")
          ≡ ok (absolute root (expand_path (codes "/home") (codes "a/../b.txt"))))
resolve-Under_example = resolve-Under root (codes "/home") (codes "a/../b.txt") refl

edits_once : edit_text (codes "f") (codes "b") (codes "x") (codes "abc") ≡ ok (codes "axc")
unfolding edit_text
edits_once = refl

edit_text_iff_example :
    (edit_text (codes "f") (codes "b") (codes "x") (codes "abc") ≡ ok (codes "axc"))
    ↔ (Replaced (codes "b") (codes "x") (codes "abc") (codes "axc") × (codes "axc" ≢ codes "abc"))
edit_text_iff_example = edit_text_iff b'b' [] (codes "f") (codes "x") (codes "abc") (codes "axc")

abbrev disk : Db Files Text
disk = record { tables = (codes "/home/work/f", codes "abc") ∷ []; faults = [] }

abbrev call : Args
call =
    (codes "path", Value.text (codes "f"))
    ∷ (codes "oldText", Value.text (codes "b"))
    ∷ (codes "newText", Value.text (codes "x"))
    ∷ []

edits_file :
    (edit root (codes "/home") call disk).1.tables ≡ (codes "/home/work/f", codes "axc") ∷ []
unfolding edit string_arg with_path with_old with_new resolve trim_space rel clean join_path
    split_path clean_step edit_file wrap file_size query check_size exec decimal format_size
    is_likely_binary utf8_step utf8_valid change check_content count_text edit_text editable load
    replace_first save small_enough read_file write_file absolute expand_path
edits_file = refl

abbrev file : Text
file = codes "one\ntwo\r\nthree\n"

read_lines-page_example :
    ((read_lines 2 (pos 1) file).builder ≡ join_lines (page 2 (pos 1) (text_lines file)))
    × ((read_lines 2 (pos 1) file).total_lines ≡ length (text_lines file))
    × ((read_lines 2 (pos 1) file).last_included ≡ 1 + length (page 2 (pos 1) (text_lines file)))
    × (((is_cut (read_lines 2 (pos 1) file).cut ≡ false)
          × (page 2 (pos 1) (text_lines file) ≡ asked 2 (pos 1) (text_lines file)))
        ⊎ ((is_cut (read_lines 2 (pos 1) file).cut ≡ true)
            × (length (page 2 (pos 1) (text_lines file))
                < length (asked 2 (pos 1) (text_lines file)))))
read_lines-page_example = read_lines-page 2 (pos 1) file (omega arith)

reads_second :
    read_content (pos 2) (pos 1) file
    ≡ ok (codes "two\n\n[2 more lines available. Use offset=3 to continue.]")
unfolding read_content is_likely_binary utf8_valid utf8_step read_output read_chunk append_line
    trim_suffix has_newline decimal
reads_second = refl

follow-drop_example : follow 5 2 file ≡ join_lines (drop 1 (text_lines file))
follow-drop_example =
    follow-drop 5 2 file (omega arith) (unfold text_lines split_lines trim_suffix in omega arith)
      (omega arith) (unfold text_lines split_lines trim_suffix in omega arith)

abbrev repeat : ℕ → ℕ → Text
repeat zero c = []
repeat (suc n) c = c ∷ repeat n c

valid_text-binary_example :
    (utf8_valid (repeat 8191 b'a' ++ (0xc3 ∷ 0xa9 ∷ codes "b")) ≡ true)
    × (read_content (pos 0) (pos 0) (repeat 8191 b'a' ++ (0xc3 ∷ 0xa9 ∷ codes "b"))
        ≡ ok (codes "File appears to be binary; read tool only returns text files."))
    × ((u : Text) → editable (codes "f") (repeat 8191 b'a' ++ (0xc3 ∷ 0xa9 ∷ codes "b")) ≢ ok u)
valid_text-binary_example =
    valid_text-binary (repeat 8191 b'a') (codes "b") (codes "f") 0xc3 0xa9 (pos 0) (pos 0) refl
      (unfold utf8_valid utf8_step in refl) (omega arith, omega arith) (omega arith) (omega arith)
      (unfold utf8_valid utf8_step in refl)

shown_matches-IsSorted_example :
    IsSorted (shown_matches 2 (codes "./b\na\nc"))
    × Perm
        (shown_matches 2 (codes "./b\na\nc"))
        (take 2 (normalize_find_output (codes "./b\na\nc")))
    × (length (normalize_find_output (codes "./b\na\nc")) ≤ 2
        → Perm (shown_matches 2 (codes "./b\na\nc")) (normalize_find_output (codes "./b\na\nc")))
shown_matches-IsSorted_example = shown_matches-IsSorted 2 (codes "./b\na\nc")
