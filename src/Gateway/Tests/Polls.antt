-- ===== src/Gateway/Tests/Polls.antt =====
-- Polls of the outbox, due times and delays at concrete data.
use zoa.Base.{
  ◌/◌, ◌+◌, ◌*◌, ◌≡◌, refl, inl, true, none, List, [], ◌∷◌, ◌++◌, ◌≤◌, ◌<◌, map, length, arith,
}
use zoa.Base.Int.{pos}
use zoa.Base.Text.{codes}
use zoa.Base.Stamp.{second, format}
use zoa.Base.Sql.{ok, Db, query}
use zoa.Gateway.Tables.{OutboxRow, Tables, no_tables, Error}
use zoa.Gateway.Inbound.{claimable}
use zoa.Gateway.Outbox.{add_outbox, outbox_row, outbox_since}
use zoa.Gateway.Due.{claimable-due, claimable-early}
use zoa.Gateway.Polling.{poll_outbox}
use zoa.Gateway.Polling.Complete.{newer, poll_outbox_complete}
use zoa.Gateway.Tests.Data.{main, tui, waiting}

abbrev two_replies : Db Tables Error
two_replies = record {
  tables =
      (add_outbox main tui (codes "two") none (6 * second)
        (add_outbox main tui (codes "one") none (5 * second) no_tables).1).1;
  faults = [];
}

page : List OutboxRow
unfolding format
page =
    record {
      id = 1;
      session = main;
      channel = tui;
      text = codes "one";
      in_reply_to = 0;
      sent_at = format (5 * second);
    }
    ∷ []

first_page : (poll_outbox main (pos 0) (pos 1) two_replies).0 ≡ ok (page, pos 1)
unfolding poll_outbox outbox_since outbox_row query add_outbox format page
first_page = refl

poll_outbox_complete_example :
    (page ++ map outbox_row (newer main (pos 1) two_replies.tables.outbox)
      ≡ map outbox_row (newer main (pos 0) two_replies.tables.outbox))
    × (length page ≤ 500)
    × (page ≡ [] → newer main (pos 0) two_replies.tables.outbox ≡ [])
unfolding add_outbox
poll_outbox_complete_example =
    poll_outbox_complete main (pos 0) (pos 1) two_replies (omega arith) first_page

claimable-due_example :
    (claimable 1 (format (4 * second)) (waiting 1 (5 * second)) ≡ true
      → 5 * second < 4 * second + second)
    × (5 * second / second < 4 * second / second
        → claimable 1 (format (4 * second)) (waiting 1 (5 * second)) ≡ true)
claimable-due_example =
    claimable-due (waiting 1 (5 * second)) (5 * second) (4 * second) (inl (refl, refl))

claimable-early_example :
    (claimable 1 (format (5 * second)) (waiting 1 (5 * second + 900)) ≡ true)
    × (5 * second < 5 * second + 900)
claimable-early_example =
    claimable-early (waiting 1 (5 * second + 900)) 5 900 (omega arith) (omega arith)
      (inl (refl, refl))
