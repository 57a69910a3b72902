-- ===== src/Conversation/History/Step.antt =====
-- A call of each operation that changes the conversation database, and the state after it. Append, Renew
-- and Close of a LeasedRef are calls of `advance`, `renew` and `release` with its fields.
use zoa.Base.{ℕ, List, [], ◌∷◌}
use zoa.Base.Text.{Text}
use zoa.Base.Stamp.{Instant}
use zoa.Base.Sql.{Db}
use zoa.Conversation.Tables.{Tables, Error, Codec}
use zoa.Conversation.Nodes.{insert_root, append}
use zoa.Conversation.Refs.{create_ref, advance_ref, renew_lease, release_lease}
use zoa.Conversation.Leased.{lease_ref}

pub data Call (codec : Codec) : Type 0 where
  open_at : Instant → Call codec
  add : Text → codec.Message → Instant → Call codec
  create : Text → Text → Instant → Call codec
  lease : Text → Text → Instant → Instant → Call codec
  advance : Text → Text → codec.Message → Text → Instant → Instant → Call codec
  renew : Text → Text → ℕ → Instant → Call codec
  release : Text → Text → Instant → Call codec

module _ (codec : Codec) where
  unfoldable pub step : Call codec → Db Tables Error → Db Tables Error
  step (open_at now) d = (insert_root codec now d).1
  step (add parent msg now) d = (append codec parent msg now d).1
  step (create name hash now) d = (create_ref codec name hash now d).1
  step (lease name runner_id seen now) d = (lease_ref name runner_id seen now d).1
  step (advance name expect_hash msg runner_id seen now) d =
      (advance_ref codec name expect_hash msg runner_id seen now d).1
  step (renew name runner_id duration now) d = (renew_lease name runner_id duration now d).1
  step (release name runner_id now) d = (release_lease name runner_id now d).1

  unfoldable pub run : List (Call codec) → Db Tables Error → Db Tables Error
  unfolding step
  run [] d = d
  run (c ∷ cs) d = run cs (step c d)
