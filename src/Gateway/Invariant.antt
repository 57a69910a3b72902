-- ===== src/Gateway/Invariant.antt =====
-- What holds of the gateway's tables between two operations: ids are given out in order, and a
-- message has one reply in the outbox when it is closed and none before.
use zoa.Base.{
  ℕ, suc, ◌≤◌, ◌<◌, ◌≡◌, refl, inl, inr, Bool, true, false, Option, none, some, List, [], ◌∷◌, ◌++◌,
  ◌==◌, if◌then◌else◌, arith, All, All-append, All-map, All-update_where, count_where,
  count_where-append, update_where, Bool-cases,
}
use zoa.Base.Text.{Text}
use zoa.Base.Stamp.{Instant}
use zoa.Gateway.Tables.{Inbound, Outbox, Tables, is_open}
use zoa.Gateway.Inbound.{add_inbound, update_inbound}
use zoa.Gateway.Outbox.{add_outbox, reply_or_zero}

-- Ids rise from above `lo` up to `hi`.
abbrev pub Ids : ℕ → List Inbound → ℕ → Type 0
Ids lo [] hi = lo ≤ hi
Ids lo (r ∷ rs) hi = (lo < r.id) × Ids r.id rs hi

abbrev pub OutboxIds : ℕ → List Outbox → ℕ → Type 0
OutboxIds lo [] hi = lo ≤ hi
OutboxIds lo (o ∷ os) hi = (lo < o.id) × OutboxIds o.id os hi

abbrev answers_id : ℕ → Option ℕ → Bool
answers_id id none = false
answers_id id (some to) = to == id

abbrev pub answers : ℕ → Outbox → Bool
answers id o = answers_id id o.in_reply_to

-- The number of replies that a row must have.
abbrev pub replies_due : Inbound → ℕ
replies_due r = if is_open r.status then 0 else 1

abbrev pub Answered : List Outbox → Inbound → Type 0
Answered outbox r = count_where (answers r.id) outbox ≡ replies_due r

abbrev pub Known : ℕ → Outbox → Type 0
Known seq o = reply_or_zero o.in_reply_to ≤ seq

pub record Inv (t : Tables) : Type 0 where
  pub inbound_ids : Ids 0 t.inbound t.inbound_seq
  pub outbox_ids : OutboxIds 0 t.outbox t.outbox_seq
  pub answered : All (Answered t.outbox) t.inbound
  pub known : All (Known t.inbound_seq) t.outbox

Ids-append :
    (lo : ℕ) (rs : List Inbound) (hi : ℕ) (r : Inbound)
    → r.id ≡ suc hi
    → Ids lo rs hi
    → Ids lo (rs ++ (r ∷ [])) (suc hi)
Ids-append lo [] hi r e h = omega arith
Ids-append lo (x ∷ rs) hi r e h = (h.0, Ids-append x.id rs hi r e h.1)

pub OutboxIds-append :
    (lo : ℕ) (os : List Outbox) (hi : ℕ) (o : Outbox)
    → o.id ≡ suc hi
    → OutboxIds lo os hi
    → OutboxIds lo (os ++ (o ∷ [])) (suc hi)
OutboxIds-append lo [] hi o e h = omega arith
OutboxIds-append lo (x ∷ os) hi o e h = (h.0, OutboxIds-append x.id os hi o e h.1)

pub Ids-update_where :
    (p : Inbound → Bool) (f : Inbound → Inbound) (lo : ℕ) (rs : List Inbound) (hi : ℕ)
    → ((r : Inbound) → (f r).id ≡ r.id)
    → Ids lo rs hi
    → Ids lo (update_where p f rs) hi
Ids-update_where p f lo [] hi same h = h
Ids-update_where p f lo (x ∷ rs) hi same h = elim (Bool-cases (p x)) [
  | inl e ↦ rw (e, same x) (h.0, Ids-update_where p f x.id rs hi same h.1)
  | inr e ↦ rw e (h.0, Ids-update_where p f x.id rs hi same h.1)
]

-- No reply names an id that has not been given out.
unanswered :
    (id seq : ℕ) (os : List Outbox)
    → seq < id
    → All (Known seq) os
    → count_where (answers id) os ≡ 0
unanswered id seq [] h k = refl
unanswered id seq (o ∷ os) h k = ground (arith, unanswered id seq os h k.1)

-- A new message is unanswered, and breaks no fact about the others.
pub add_inbound-Inv :
    (session channel text json : Text) (at : Instant) (t : Tables)
    → Inv t
    → Inv (add_inbound session channel text json at t).1
unfolding add_inbound
add_inbound-Inv session channel text json at t v = record {
  inbound_ids = Ids-append 0 t.inbound t.inbound_seq _ refl v.inbound_ids;
  outbox_ids = v.outbox_ids;
  answered =
      All-append (Answered t.outbox) t.inbound _ v.answered
        (unanswered (suc t.inbound_seq) t.inbound_seq t.outbox (omega arith) v.known, tt);
  known =
      All-map (Known t.inbound_seq) (Known (suc t.inbound_seq)) t.outbox (λ o h. omega arith)
        v.known;
}

-- An UPDATE that keeps the ids, and opens or closes no message.
pub update_inbound-Inv :
    (p : Inbound → Bool) (f : Inbound → Inbound) (t : Tables)
    → ((r : Inbound) → (f r).id ≡ r.id)
    → ((r : Inbound) → p r ≡ true → is_open (f r).status ≡ is_open r.status)
    → Inv t
    → Inv (update_inbound p f t).1
unfolding update_inbound
update_inbound-Inv p f t same_id same_open v = record {
  inbound_ids = Ids-update_where p f 0 t.inbound t.inbound_seq same_id v.inbound_ids;
  outbox_ids = v.outbox_ids;
  answered =
      All-update_where (Answered t.outbox) p f t.inbound (λ r e h. rw (same_id r, same_open r e) h)
        v.answered;
  known = v.known;
}

-- A message that answers none.
pub add_outbox-Inv :
    (session channel text : Text) (at : Instant) (t : Tables)
    → Inv t
    → Inv (add_outbox session channel text none at t).1
unfolding add_outbox
add_outbox-Inv session channel text at t v = record {
  inbound_ids = v.inbound_ids;
  outbox_ids = OutboxIds-append 0 t.outbox t.outbox_seq _ refl v.outbox_ids;
  answered =
      All-map (Answered t.outbox) (Answered (add_outbox session channel text none at t).1.outbox)
        t.inbound (λ r h. omega (arith, count_where-append (answers r.id) t.outbox (_ ∷ [])))
        v.answered;
  known = All-append (Known t.inbound_seq) t.outbox _ v.known (omega arith);
}
