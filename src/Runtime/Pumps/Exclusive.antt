-- ===== src/Runtime/Pumps/Exclusive.antt =====
-- Which pumps of runtime/task_manager.go run at the same time.
use zoa.Base.{
  ℕ, ◌≡◌, refl, sym, ap, ◌∙◌, inl, inr, Bool, true, false, Option, none, some, List, [], ◌∷◌, arith,
  ◌==◌, if◌then◌else◌, length, length-update_where, All, Bool-cases, Option-cases,
}
use zoa.Base.Text.{Text, codes, text_eq, text_eq_sound, trim}
use zoa.Base.Sql.{Result, ok, err}
use zoa.Runtime.Pumps.{
  Phase, waiting, looping, stopped, Runner, Pumps, no_pumps, lookup, put, is_stopped, has_stopped,
  cancel_runner, canceling, new_runner, Move, start, finish, register, close_all, start_runner,
  finish_runner, close_pumps, replace_pump, same_config, existing_runner, pump_error,
  register_checked, register_pump, move, moves,
}
use zoa.Runtime.Pumps.Order.{
  is_waiting, is_looping, latest, latest_lt, InOrder, latest-update_where,
}
use zoa.Runtime.Pumps.Runners.{
  start-InOrder, finish-InOrder, canceled-InOrder, cancel_runner-Steady, start_runner-Steady,
  finish_runner-Steady, lookup-put,
}

module _ {Config : Type 0} where
  -- The state of the pumps: the runners are in order, and the map has the latest one of each pump.
  pub record Inv (s : Pumps Config) : Type 0 where
    pub order : InOrder s.runners
    pub mapped : s.closed ≡ false → (id : Text) → lookup s.pumps id ≡ latest id s.runners

  canceling-InOrder :
      (o : Option ℕ) (rs : List (Runner Config)) → InOrder rs → InOrder (canceling o rs)
  canceling-InOrder none rs h = h
  canceling-InOrder (some n) rs h = canceled-InOrder (λ r. r.number == n) rs h

  latest-canceling :
      (id : Text) (o : Option ℕ) (rs : List (Runner Config))
      → latest id (canceling o rs) ≡ latest id rs
  latest-canceling id none rs = refl
  latest-canceling id (some n) rs =
      latest-update_where (λ r. r.number == n) cancel_runner cancel_runner-Steady id rs

  length-canceling :
      (o : Option ℕ) (rs : List (Runner Config)) → length (canceling o rs) ≡ length rs
  length-canceling none rs = refl
  length-canceling (some n) rs = length-update_where (λ r. r.number == n) cancel_runner rs

  added-Inv :
      (id : Text) (c : Config) (s : Pumps Config)
      → Inv s
      → s.closed ≡ false
      → Inv (record s {
        runners =
            new_runner id c (lookup s.pumps id) (length s.runners)
            ∷ canceling (lookup s.pumps id) s.runners;
        pumps = put id (length s.runners) s.pumps;
      })
  added-Inv id c s v open_ =
      let old = lookup s.pumps id in
      let n = length s.runners in
      record {
        order = (
          record {
            numbered = sym (length-canceling old s.runners);
            replacing = v.mapped open_ id ∙ sym (latest-canceling id old s.runners);
            waited = inl refl;
          },
          canceling-InOrder old s.runners v.order,
        );
        mapped = λ _ k.
            lookup-put id n s.pumps k
            ∙ ap (λ o. if text_eq id k then some n else o)
                (v.mapped open_ k ∙ sym (latest-canceling k old s.runners));
      }

  close_pumps-Inv : (s : Pumps Config) → Inv s → Inv (close_pumps s)
  close_pumps-Inv s v = elim (Bool-cases s.closed) [
    | inl y ↦ simp y v
    | inr n ↦
        simp n record {
          order = canceled-InOrder (λ r. true) s.runners v.order;
          mapped = λ h. absurd (cc);
        }
  ]

module _ {Config : Type 0} (same : Config → Config → Bool) where
  either-Inv :
      (b : Bool) (shut open_ : Result Text (Unit {0})) (s t : Pumps Config)
      → Inv s
      → (b ≡ false → Inv t)
      → Inv (if◌then◌else◌ {A = Result Text (Unit {0}) × Pumps Config} b (shut, s) (open_, t)).1
  either-Inv true shut open_ s t v k = v
  either-Inv false shut open_ s t v k = k refl

  replace_pump-Inv :
      (id : Text) (c : Config) (s : Pumps Config)
      → Inv s
      → s.closed ≡ false
      → Inv (replace_pump same id c (lookup s.pumps id) s)
  unfolding replace_pump
  replace_pump-Inv id c s v open_ =
      elim (Bool-cases (same_config same c (existing_runner (lookup s.pumps id) s.runners))) [
        | inl y ↦ rw y v
        | inr n ↦ rw n (added-Inv id c s v open_)
      ]

  register_checked-Inv :
      (o : Option Text) (id : Text) (c : Config) (s : Pumps Config)
      → Inv s
      → Inv (register_checked same o id c s).1
  unfolding register_checked
  register_checked-Inv (some text) id c s v = v
  register_checked-Inv none id c s v =
      either-Inv s.closed (err (codes "task manager is closed")) (ok tt) s
        (replace_pump same id c (lookup s.pumps id) s) v (λ open_. replace_pump-Inv id c s v open_)

  move-Inv : (m : Move Config) (s : Pumps Config) → Inv s → Inv (move same m s)
  unfolding move register_pump
  move-Inv (start n) s v = record {
    order = start-InOrder n s.runners v.order;
    mapped = λ open_ id.
        v.mapped open_ id
        ∙ sym (
            latest-update_where (λ r. r.number == n) (start_runner s.runners)
              (start_runner-Steady s.runners) id s.runners);
  }
  move-Inv (finish n) s v = record {
    order = finish-InOrder n s.runners v.order;
    mapped = λ open_ id.
        v.mapped open_ id
        ∙ sym (
            latest-update_where (λ r. r.number == n) finish_runner finish_runner-Steady id
              s.runners);
  }
  move-Inv (register pump_id function_id interval known c) s v =
      register_checked-Inv (pump_error pump_id function_id interval known) (trim pump_id) c s v
  move-Inv close_all s v = close_pumps-Inv s v

  moves-Inv : (ms : List (Move Config)) (s : Pumps Config) → Inv s → Inv (moves same ms s)
  unfolding moves
  moves-Inv [] s v = v
  moves-Inv (m ∷ ms) s v = moves-Inv ms (move same m s) (move-Inv m s v)

-- Of the runners of a pump, the earlier ones have stopped once a later one loops.
abbrev pub Exclusive : {Config : Type 0} → List (Runner Config) → Type 0
Exclusive [] = Unit {0}
Exclusive (r ∷ rs) =
    (is_looping r.phase ≡ true
      → All (λ q. text_eq q.pump_id r.pump_id ≡ true → is_stopped q.phase ≡ true) rs)
    × Exclusive rs

equals_itself : (n : ℕ) → (n == n) ≡ true
equals_itself n = ground arith

abbrev Silent : {Config : Type 0} → Text → List (Runner Config) → Type 0
Silent id = All λ q. text_eq q.pump_id id ≡ true → is_stopped q.phase ≡ true

module _ {Config : Type 0} where
  -- Where the latest runner of a pump has stopped, all have.
  silent :
      (id : Text) (rs : List (Runner Config))
      → InOrder rs
      → has_stopped (latest id rs) rs ≡ true
      → Silent id rs
  silent id [] h stop = tt
  silent id (q ∷ rs) h stop = elim (Bool-cases (text_eq q.pump_id id)) [
    | inl y ↦
        let itself = equals_itself q.number in
        let found = rw y at stop in
        let ended : is_stopped q.phase ≡ true = rw itself at found in
        let same = text_eq_sound q.pump_id id y in
        (
          λ _. ended,
          elim h.0.waited [
            | inl w ↦ absurd (stopped_waits q.phase ended w)
            | inr before ↦ silent id rs h.1 (
                ap (λ o. has_stopped o rs) (ap (λ i. latest i rs) (sym same) ∙ sym h.0.replacing)
                ∙ before)
          ],
        )
    | inr n ↦ (λ y. absurd (cc), silent id rs h.1 (behind id q rs h (rw n at stop)))
  ]
    where
      stopped_waits : (p : Phase) → is_stopped p ≡ true → ¬ (is_waiting p ≡ true)
      stopped_waits waiting e w = absurd (cc)
      stopped_waits looping e w = absurd (cc)
      stopped_waits stopped e w = absurd (cc)

      behind :
          (id : Text) (q : Runner Config) (rs : List (Runner Config))
          → InOrder (q ∷ rs)
          → has_stopped (latest id rs) (q ∷ rs) ≡ true
          → has_stopped (latest id rs) rs ≡ true
      behind id q rs h stop = elim (Option-cases (latest id rs)) [
        | inl none_before ↦ rw none_before refl
        | inr (k, e) ↦
            let lt = latest_lt id rs {k = k} h.1 e in
            let other : (q.number == k) ≡ false = ground (arith, h.0.numbered) in
            let stop' = rw e at stop in rw e (rw other at stop')
      ]

  InOrder-Exclusive : (rs : List (Runner Config)) → InOrder rs → Exclusive rs
  InOrder-Exclusive [] h = tt
  InOrder-Exclusive (r ∷ rs) h = (
    λ loops. elim h.0.waited [
      | inl w ↦ absurd (looping_waits r.phase loops w)
      | inr before ↦
          silent r.pump_id rs h.1 (ap (λ o. has_stopped o rs) (sym h.0.replacing) ∙ before)
    ],
    InOrder-Exclusive rs h.1,
  )
    where
      looping_waits : (p : Phase) → is_looping p ≡ true → ¬ (is_waiting p ≡ true)
      looping_waits waiting e w = absurd (cc)
      looping_waits looping e w = absurd (cc)
      looping_waits stopped e w = absurd (cc)

-- At any time, whatever the goroutines have done in whatever order, a pump has one loop at most: once
-- the loop of a runner has started, every runner that was made before it for the same pump has
-- stopped, and its loop has returned.
pub moves-Exclusive :
    {Config : Type 0} (same : Config → Config → Bool) (ms : List (Move Config))
    → Exclusive (moves same ms no_pumps).runners
moves-Exclusive same ms =
    InOrder-Exclusive (moves same ms no_pumps).runners
      (moves-Inv same ms no_pumps record { order = tt; mapped = λ _ id. refl }).order
