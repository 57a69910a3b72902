-- ===== src/Gateway/Polling/Complete.antt =====
-- What a client of gateway.outbox_since of hub/util/gateway/functions.go sees.
use mathlib.Core.List.{map-append}
use zoa.Base.{
  ◌-◌, ℕ, zero, suc, ◌≤◌, ◌≡◌, refl, sym, ap, ◌∙◌, inl, inr, true, false, ◌&&◌, Option, none, some,
  List, [], ◌∷◌, ◌++◌, map, arith, Bool-cases, select, take, length, if◌then◌else◌,
}
use zoa.Base.Int.{ℤ, pos, negsuc, lt_nat}
use zoa.Base.Text.{Text, text_eq}
use zoa.Base.Sql.{Db, ok, query, exec}
use zoa.Gateway.Tables.{Outbox, OutboxRow, Tables, Error}
use zoa.Gateway.Outbox.{outbox_row, outbox_since}
use zoa.Gateway.Invariant.{OutboxIds}
use zoa.Gateway.Polling.Handler.{max_row, poll_limit, poll_outbox}

-- What the session's outbox holds beyond `last`.
unfoldable pub newer : Text → ℤ → List Outbox → List Outbox
newer session last = select λ r. lt_nat last r.id && text_eq r.session session

lt_nat_up : (z : ℤ) (m n : ℕ) → lt_nat z m ≡ true → m ≤ n → lt_nat z n ≡ true
lt_nat_up (pos k) m n h le = ground arith
lt_nat_up (negsuc k) m n h le = refl

max_step :
    (z : ℤ) (m n : ℕ) → lt_nat z n ≡ false → lt_nat (if lt_nat z m then pos m else z) n ≡ false
max_step (pos k) m n h = ground arith
max_step (negsuc k) m n h = cc

max_row-ge :
    (n : ℕ) (z : ℤ) (rows : List OutboxRow) → lt_nat z n ≡ false → lt_nat (max_row z rows) n ≡ false
max_row-ge n z [] h = h
max_row-ge n z (r ∷ rows) h =
    max_row-ge n (if lt_nat z r.id then pos r.id else z) rows (max_step z r.id n h)

max_row-beyond :
    (z : ℤ) (r : OutboxRow) (rows : List OutboxRow)
    → lt_nat z r.id ≡ true
    → max_row z (r ∷ rows) ≡ max_row (pos r.id) rows
max_row-beyond z r rows beyond = rw beyond

take-nil : (n : ℕ) → take {A = Outbox} n [] ++ [] ≡ []
take-nil zero = refl
take-nil (suc n) = refl

module _ (session : Text) where
  -- Below the ids of the list it does not matter where the client stands.
  newer-below :
      (last : ℤ) (lo : ℕ) (os : List Outbox) (hi : ℕ)
      → lt_nat last lo ≡ true
      → OutboxIds lo os hi
      → newer session last os ≡ newer session (pos lo) os
  unfolding newer
  newer-below last lo [] hi h ids = refl
  newer-below last lo (o ∷ os) hi h ids = ground (
    arith,
    lt_nat_up last lo o.id h,
    newer-below last lo os hi h,
    newer-below last o.id os hi,
    newer-below (pos lo) o.id os hi,
  )

  newer-nil : (last : ℤ) → newer session last [] ≡ []
  unfolding newer
  newer-nil last = refl

  newer-cons_in :
      (last : ℤ) (o : Outbox) (os : List Outbox) (hi : ℕ)
      → lt_nat last o.id ≡ true
      → text_eq o.session session ≡ true
      → OutboxIds o.id os hi
      → newer session last (o ∷ os) ≡ o ∷ newer session (pos o.id) os
  unfolding newer
  newer-cons_in last o os hi beyond mine ids =
      rw (beyond, mine) (ap (◌∷◌ o) (newer-below last o.id os hi beyond ids))

  newer-cons_seen :
      (last : ℤ) (o : Outbox) (os : List Outbox)
      → lt_nat last o.id ≡ false
      → newer session last (o ∷ os) ≡ newer session last os
  unfolding newer
  newer-cons_seen last o os seen = rw seen

  newer-cons_other :
      (last : ℤ) (o : Outbox) (os : List Outbox)
      → text_eq o.session session ≡ false
      → newer session last (o ∷ os) ≡ newer session last os
  unfolding newer
  newer-cons_other last o os other = ground arith

  -- A page, and what is newer than all of it, is what was newer before.
  page-newer :
      (n : ℕ) (last : ℤ) (lo : ℕ) (os : List Outbox) (hi : ℕ)
      → OutboxIds lo os hi
      → let page = take n (newer session last os) in
        page ++ newer session (max_row last (map outbox_row page)) os ≡ newer session last os
  unfolding outbox_row
  page-newer n last lo [] hi ids = rw (newer-nil last, newer-nil _) (take-nil n)
  page-newer zero last lo (o ∷ os) hi ids = refl
  page-newer (suc n) last lo (o ∷ os) hi ids = elim (Bool-cases (text_eq o.session session)) [
    | inr other ↦
        rw (newer-cons_other last o os other, newer-cons_other _ o os other)
          (page-newer (suc n) last o.id os hi ids.1)
    | inl mine ↦ elim (Bool-cases (lt_nat last o.id)) [
      | inl beyond ↦
          let page = take n (newer session (pos o.id) os) in
          let seen = max_row-ge o.id (pos o.id) (map outbox_row page) (ground arith) in
          rw
            (
              newer-cons_in last o os hi beyond mine ids.1,
              max_row-beyond last (outbox_row o) (map outbox_row page) beyond,
              newer-cons_seen _ o os seen,
            )
            (ap (◌∷◌ o) (page-newer n (pos o.id) o.id os hi ids.1))
      | inr seen ↦
          let page = take (suc n) (newer session last os) in
          rw
            (
              newer-cons_seen last o os seen,
              newer-cons_seen _ o os (max_row-ge o.id last (map outbox_row page) seen),
            )
            (page-newer (suc n) last o.id os hi ids.1)
    ]
  ]

poll_rows :
    (session : Text) (last_id limit : ℤ) (t : Tables) (fs : List (Option Error))
    {rows : List OutboxRow} {max_id : ℤ}
    → (poll_outbox session last_id limit (record { tables = t; faults = fs })).0 ≡ ok (rows, max_id)
    → (rows ≡ map outbox_row (take (poll_limit limit) (newer session last_id t.outbox)))
      × (max_id ≡ max_row last_id rows)
unfolding poll_outbox outbox_since newer query exec
poll_rows session last_id limit t [] h = ground arith
poll_rows session last_id limit t (none ∷ fs) h = ground arith
poll_rows session last_id limit t (some e ∷ fs) h = absurd (cc)

poll_limit_range : (limit : ℤ) → (1 ≤ poll_limit limit) × (poll_limit limit ≤ 500)
poll_limit_range (pos zero) = omega arith
poll_limit_range (pos (suc n)) = ground arith
poll_limit_range (negsuc n) = omega arith

map-take_le :
    (n : ℕ) (os : List Outbox) {bound : ℕ} → n ≤ bound → length (map outbox_row (take n os)) ≤ bound
map-take_le zero os h = omega arith
map-take_le (suc n) [] h = omega arith
map-take_le (suc n) (o ∷ os) {bound} h =
    omega (arith, map-take_le n os {bound = bound - 1} (omega arith))

map-take-nil : (n : ℕ) (os : List Outbox) → 1 ≤ n → map outbox_row (take n os) ≡ [] → os ≡ []
map-take-nil zero os h e = absurd (omega arith)
map-take-nil (suc n) [] h e = refl
map-take-nil (suc n) (o ∷ os) h e = absurd (cc)

-- A poll that does not fail returns at most 500 rows, at least one if the session has anything newer
-- than `last_id`, in the order of their ids. The rows it returns followed by all that is newer than
-- the `max_id` that it reports are exactly what was newer than `last_id`; so polls that start each
-- at the last one's `max_id` deliver every message once.
pub poll_outbox_complete :
    (session : Text) (last_id limit : ℤ) (d : Db Tables Error)
    → OutboxIds 0 d.tables.outbox d.tables.outbox_seq
    → {rows : List OutboxRow} {max_id : ℤ}
    → (poll_outbox session last_id limit d).0 ≡ ok (rows, max_id)
    → (rows ++ map outbox_row (newer session max_id d.tables.outbox)
        ≡ map outbox_row (newer session last_id d.tables.outbox))
      × (length rows ≤ 500)
      × (rows ≡ [] → newer session last_id d.tables.outbox ≡ [])
poll_outbox_complete session last_id limit d ids {rows} {max_id} h =
    let got = poll_rows session last_id limit d.tables d.faults h in
    let os = d.tables.outbox in
    let page = take (poll_limit limit) (newer session last_id os) in
    rw (got.1, got.0)
      (
        sym (map-append outbox_row page _)
            ∙ ap (map outbox_row) (page-newer session (poll_limit limit) last_id 0 os _ ids),
        map-take_le (poll_limit limit) (newer session last_id os) (poll_limit_range limit).1,
        map-take-nil (poll_limit limit) (newer session last_id os) (poll_limit_range limit).0,
      )
