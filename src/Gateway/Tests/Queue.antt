-- ===== src/Gateway/Tests/Queue.antt =====
-- Histories of the queue, claims and completions at concrete data.
use zoa.Base.{ℕ, ◌*◌, ◌≡◌, refl, none, some, List, [], ◌∷◌, ◌≤◌, ◌⊎◌, length, arith, select_first}
use zoa.Base.Int.{pos}
use zoa.Base.Text.{codes}
use zoa.Base.Stamp.{second, format, stamp_le}
use zoa.Base.Sql.{ok, err, Db, exec, query, transaction}
use zoa.Gateway.Tables.{Inbound, Tables, no_tables, Error}
use zoa.Gateway.Inbound.{claim_due_inbound_id, insert_inbound, add_inbound, update_inbound, in_line}
use zoa.Gateway.Outbox.{add_outbox, tx_insert_outbox}
use zoa.Gateway.Complete.{complete_inbound_success, close_inbound, succeeded}
use zoa.Gateway.Invariant.{Inv}
use zoa.Gateway.Closing.{closed, transaction-closed}
use zoa.Gateway.Claiming.{TakesHead, claim-head}
use zoa.Gateway.History.{Call, receive, claim, succeed, run}
use zoa.Gateway.History.OneReply.{run-Inv}
use zoa.Gateway.History.Fencing.{AllLate}
use zoa.Gateway.History.Reclaim.{claim-fences}
use zoa.Gateway.Tests.Data.{plain_json, main, tui, start, start-Inv, claimed_start}

-- Received, claimed, retried, claimed again and answered; the late worker comes last.
abbrev history : List Call
history =
    receive main tui (codes "hello") none (5 * second)
    ∷ claim main (5 * second) (pos (2 * second))
    ∷ claim main (8 * second) (pos (2 * second))
    ∷ succeed main tui (codes "hi") 1 2 (9 * second)
    ∷ succeed main tui (codes "hi again") 1 1 (10 * second)
    ∷ []

abbrev empty : Db Tables Error
empty = record { tables = no_tables; faults = [] }

run-Inv_example : Inv (run plain_json history empty).tables
run-Inv_example =
    run-Inv plain_json history empty
      (record { inbound_ids = omega arith; outbox_ids = omega arith; answered = tt; known = tt })

history_answers_once : length (run plain_json history empty).tables.outbox ≡ 1
unfolding run insert_inbound add_inbound claim_due_inbound_id update_inbound query exec transaction
    complete_inbound_success close_inbound tx_insert_outbox add_outbox stamp_le format
history_answers_once = refl

claim_start : (claim_due_inbound_id main (7 * second) (pos (2 * second)) start).0 ≡ ok 1
unfolding claim_due_inbound_id transaction query exec update_inbound stamp_le format
claim_start = refl

claim-head_example :
    TakesHead main
      (7 * second)
      (pos (2 * second))
      1
      start.tables
      (claim_due_inbound_id main (7 * second) (pos (2 * second)) start).1.tables
claim-head_example =
    claim-head main (7 * second) (pos (2 * second)) start start-Inv claim_start (omega arith)

claim-fences_example :
    (r : Inbound) × (select_first (in_line main) start.tables.inbound ≡ some r)
    × (r.id ≡ 1)
    × ((attempt : ℕ)
        → attempt ≤ r.attempt_count
        → AllLate 1 attempt (
            run plain_json history
              (claim_due_inbound_id main (7 * second) (pos (2 * second)) start).1))
claim-fences_example =
    claim-fences plain_json history main (7 * second) (pos (2 * second)) start start-Inv claim_start
      (omega arith)

-- Closing the first message at its first attempt, from the state after its claim.
transaction-closed_example :
    let close =
      close_inbound (succeeded (format (8 * second))) main tui (codes "hi") 1 1 (8 * second) in
    let r = transaction close claimed_start in
    ((e : Error) × (r.0 ≡ err e) × (r.1.tables ≡ claimed_start.tables))
    ⊎ ((r.0
          ≡ ok
              (closed
                (succeeded (format (8 * second)))
                main
                tui
                (codes "hi")
                1
                1
                (8 * second)
                claimed_start.tables).0)
        × (r.1.tables
            ≡ (closed
                (succeeded (format (8 * second)))
                main
                tui
                (codes "hi")
                1
                1
                (8 * second)
                claimed_start.tables).1))
transaction-closed_example =
    transaction-closed (succeeded (format (8 * second))) main tui (codes "hi") 1 1 (8 * second)
      claimed_start
