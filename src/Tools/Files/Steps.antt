-- ===== src/Tools/Files/Steps.antt =====
-- What the calls on files do that the tools of internal/agentloop/tools make.
use zoa.Base.{◌≡◌, refl, sym, ap, subst, inl, inr, Option, none, some, ◌∙◌}
use zoa.Base.Text.{Text}
use zoa.Base.Sql.{ok, err, Db, ◌>>=◌, exec, query}
use zoa.Base.Sql.Outcomes.{Outcome, map-Outcome, exec-Outcome, query-Outcome, >>=-Outcome}
use zoa.Tools.Args.{Checked}
use zoa.Tools.Paths.{FilePath, print_path}
use zoa.Tools.Files.{
  Files, Disk, content_of, put_file, lift, existing, existing_size, read_file, file_size,
  write_file, wrap,
}

pub lift_bind-Outcome :
    {A B : Type 0} (r : Checked A) (f : A → Disk B) (before : Files) (R : B → Files → Type 0)
    (d : Db Files Text)
    → d.tables ≡ before
    → ((a : A) → r ≡ ok a → Outcome before R (f a d))
    → Outcome before R ((lift r >>= f) d)
lift_bind-Outcome (ok a) f before R d same k = k a refl
lift_bind-Outcome (err e) f before R d same k = inl (e, refl, same)

-- A wrapped call, the next step `f`, and what the call does.
pub wrap_bind-Outcome :
    {A B : Type 0} (prefix : Text) (m : Disk A) (f : A → Disk B) (before : Files)
    (S : A → Files → Type 0) (R : B → Files → Type 0) (d : Db Files Text)
    → Outcome before S (m d)
    → ((a : A) (d' : Db Files Text) → S a d'.tables → Outcome before R (f a d'))
    → Outcome before R ((wrap prefix m >>= f) d)
unfolding wrap
wrap_bind-Outcome prefix m f before S R d (inl (e, p, q)) k = rw (p, ◌>>=◌) (inl (_, refl, q))
wrap_bind-Outcome prefix m f before S R d (inr (a, p, q)) k = rw (p, ◌>>=◌) (k a (m d).1 q)

abbrev pub Reads : FilePath → Files → Text → Files → Type 0
Reads p before s t = (content_of (print_path p) before ≡ some s) × (t ≡ before)

abbrev pub Unchanged : {A : Type 0} → Files → A → Files → Type 0
Unchanged before _ t = t ≡ before

abbrev Queried : FilePath → Files → Option Text → Files → Type 0
Queried p before o t = (o ≡ content_of (print_path p) before) × (t ≡ before)

module _ (p : FilePath) (before : Files) (d : Db Files Text) (same : d.tables ≡ before) where
  query_content-Outcome : Outcome before (Queried p before) (query (content_of (print_path p)) d)
  query_content-Outcome =
      map-Outcome d.tables before (Queried p d.tables) (Queried p before)
        (query (content_of (print_path p)) d) same
        (λ o. subst (λ t. Queried p t o (query (content_of (print_path p)) d).1.tables) same)
        (query-Outcome (content_of (print_path p)) d)

  pub read_file-Outcome : Outcome before (Reads p before) (read_file p d)
  unfolding read_file
  read_file-Outcome =
      >>=-Outcome (query (content_of (print_path p))) existing d before (Queried p before)
        (Reads p before) query_content-Outcome given
    where
      given :
          (o : Option Text) (d' : Db Files Text)
          → Queried p before o d'.tables
          → Outcome before (Reads p before) (existing o d')
      given none d' (e, q) = inl (_, refl, q)
      given (some s) d' (e, q) = inr (s, refl, (sym e, q))

  pub file_size-Outcome : Outcome before (Unchanged before) (file_size p d)
  unfolding file_size
  file_size-Outcome =
      >>=-Outcome (query (content_of (print_path p))) existing_size d before (Queried p before)
        (Unchanged before) query_content-Outcome given
    where
      given :
          (o : Option Text) (d' : Db Files Text)
          → Queried p before o d'.tables
          → Outcome before (Unchanged before) (existing_size o d')
      given none d' (e, q) = inl (_, refl, q)
      given (some s) d' (e, q) = inr (_, refl, q)

  pub write_file-Outcome :
      (s : Text) → Outcome before (λ _ t. t ≡ put_file (print_path p) s before) (write_file p s d)
  unfolding write_file
  write_file-Outcome s =
      let write : Files → Unit {0} × Files = λ files. (tt, put_file (print_path p) s files) in
      map-Outcome d.tables before (λ a t. (a ≡ tt) × (t ≡ put_file (print_path p) s d.tables))
        (λ _ t. t ≡ put_file (print_path p) s before) (exec write d) same
        (λ _ (_, e). e ∙ ap (put_file (print_path p) s) same) (exec-Outcome write d)
