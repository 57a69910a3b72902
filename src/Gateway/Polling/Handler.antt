-- ===== src/Gateway/Polling/Handler.antt =====
-- The handlers behind the decoding of their input: `limit` and `last_id` are 0 where they are
-- missing.
use zoa.Base.{ℕ, List, [], ◌∷◌, ltb, if◌then◌else◌}
use zoa.Base.Int.{ℤ, pos, lt_nat, positive_or}
use zoa.Base.Text.{Text}
use zoa.Base.Sql.{pure, ◌>>=◌}
use zoa.Gateway.Tables.{OutboxRow, Action}
use zoa.Gateway.Outbox.{outbox_since}

-- Clamp a limit to a default and a maximum.
abbrev pub clamp : ℕ → ℕ → ℤ → ℕ
clamp default maximum limit =
    let n = positive_or default limit in if ltb maximum n then maximum else n

abbrev pub poll_limit : ℤ → ℕ
poll_limit = clamp 100 500

-- The largest of `m` and the ids of the rows.
abbrev pub max_row : ℤ → List OutboxRow → ℤ
max_row m [] = m
max_row m (r ∷ rs) = max_row (if lt_nat m r.id then pos r.id else m) rs

unfoldable pub poll_outbox : Text → ℤ → ℤ → Action (List OutboxRow × ℤ)
poll_outbox session last_id limit = do
  rows ← outbox_since session last_id (pos (poll_limit limit))
  pure (rows, max_row last_id rows)
