-- ===== src/Gateway/Recv/Queued.antt =====
-- What gateway.recv of hub/util/gateway/functions.go leaves in the queue, also where it returns an
-- error.
use zoa.Base.{ℕ, suc, ◌≡◌, ◌⊎◌, Bool, true, false, ◌&&◌, some, [], List, Option, count_where}
use zoa.Base.Text.{Text, codes, text_eq, trim}
use zoa.Base.Stamp.{Instant}
use zoa.Base.Sql.{Result, ok, err, Db, pure, ◌>>=◌}
use zoa.Gateway.Tables.{Inbound, Tables, Error, Fields, Json, is_pending}
use zoa.Gateway.Inbound.{add_inbound}
use zoa.Gateway.History.{Call, run}
use zoa.Gateway.Inputs.{string_input, gateway_session, pump_input}
use zoa.Gateway.Recv.{count_after, Receipt, receipt, with_text}

-- The rows that pendingCount counts.
abbrev pub waits : Text → Inbound → Bool
waits session r = text_eq r.session session && is_pending r.status

abbrev pub Ran : Type 0
Ran = Result Error Receipt × Db Tables Error

abbrev pub Refused : Tables → Ran → Type 0
Refused t r = (e : Error) × (r.0 ≡ err e) × (r.1.tables ≡ t)

-- The message has been put into the queue, from where others went on, and the result is a receipt of
-- it, with the count of what waits then, or an error.
pub record Accepted (json : Json) (spawned : Bool) (others : List Call) (now : Instant) (t : Tables)
    (session channel text raw : Text) (r : Ran) : Type 0 where
  pub faults : List (Option Error)
  pub added :
      r.1.tables
      ≡ (run json others (record {
        tables = (add_inbound session channel text raw now t).1;
        faults = faults;
      })).tables
  pub answered :
      ((e : Error) × (r.0 ≡ err e))
      ⊎ (r.0
          ≡ ok (
              receipt spawned session
                (suc t.inbound_seq)
                (count_where (waits session) r.1.tables.inbound)))

module _ (json : Json) (spawned : Bool) (others : List Call) (now : Instant) where
  -- What is left when the insertion gives `r`.
  abbrev Settled : Text → Text → Text → Fields → Tables → Result Error ℕ × Db Tables Error → Type 0
  Settled session channel text fields t r =
      let after : Ran =
        (((λ _. r) >>= λ id.
        (count_after json others session >>= λ pending. pure (receipt spawned session id pending)))
          (record { tables = t; faults = [] })) in
      Refused t after
      ⊎ ((raw : Text) × (json.marshal fields ≡ some raw)
          × Accepted json spawned others now t session (trim channel) text raw after)

  -- What recv has read of its input when it queues the message.
  pub record Decoded (fields : Fields) (session channel text raw : Text) : Type 0 where
    pub in_session : gateway_session fields ≡ ok session
    pub with_text : string_input fields (codes "message") true ≡ ok text
    pub by_channel : string_input fields (codes "channel") false ≡ ok channel
    pub stored : (out : Fields) × (pump_input fields ≡ ok out) × (json.marshal out ≡ some raw)

  abbrev pub Received : Fields → Tables → Ran → Type 0
  Received fields t r =
      Refused t r
      ⊎ ((session : Text) × (channel : Text) × (text : Text) × (raw : Text) × Decoded fields session
            channel text raw
          × Accepted json spawned others now t session (trim channel) text raw r)
