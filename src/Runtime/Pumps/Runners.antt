-- ===== src/Runtime/Pumps/Runners.antt =====
-- How the steps on a runner of runtime/task_manager.go keep the order of the runners.
use zoa.Base.{
  ℕ, ◌<◌, ◌≡◌, refl, sym, ap, ◌∙◌, ◌⊎◌, inl, inr, Bool, true, false, some, List, [], ◌∷◌, arith,
  ◌==◌, if◌then◌else◌, length, update_where, Bool-cases, Option-cases,
}
use zoa.Base.Text.{Text, text_eq, text_eq_sound, text_eq_refl, text_neq}
use zoa.Runtime.Pumps.{
  Phase, waiting, looping, stopped, Runner, lookup, put, is_stopped, has_stopped, cancel_runner,
  start_runner, start_phase, finish_phase, finish_runner,
}
use zoa.Runtime.Pumps.Order.{is_waiting, latest_lt, Ordered, InOrder, Steady, InOrder-update_where}

start_phase_stays :
    (p : Phase) (b : Bool) → is_stopped p ≡ true → is_stopped (start_phase p b) ≡ true
start_phase_stays waiting b h = absurd (cc)
start_phase_stays looping b h = absurd (cc)
start_phase_stays stopped b h = refl

finish_phase_stays :
    (p : Phase) (b : Bool) → is_stopped p ≡ true → is_stopped (finish_phase p b) ≡ true
finish_phase_stays waiting b h = absurd (cc)
finish_phase_stays looping b h = absurd (cc)
finish_phase_stays stopped b h = refl

-- A loop that waits after a step waited before it or may not start.
start_phase_waits :
    (p : Phase) (b : Bool)
    → (is_waiting (start_phase p b) ≡ true) ⊎ (b ≡ true) ⊎ (is_waiting p ≡ false)
start_phase_waits waiting true = inr (inl refl)
start_phase_waits waiting false = inl refl
start_phase_waits looping b = inr (inr refl)
start_phase_waits stopped b = inr (inr refl)

finish_phase_waits : (p : Phase) (b : Bool) → is_waiting (finish_phase p b) ≡ is_waiting p
finish_phase_waits waiting b = refl
finish_phase_waits looping true = refl
finish_phase_waits looping false = refl
finish_phase_waits stopped b = refl

pub lookup-put :
    (id : Text) (n : ℕ) (pumps : List (Text × ℕ)) (k : Text)
    → lookup (put id n pumps) k ≡ (if text_eq id k then some n else lookup pumps k)
lookup-put id n [] k = refl
lookup-put id n ((i, m) ∷ pumps) k = elim (Bool-cases (text_eq i id)) [
  | inl y ↦ let same = text_eq_sound i id y in rw (y, same) (ground arith)
  | inr other ↦ rw other (elim (Bool-cases (text_eq i k)) [
    | inl z ↦
        let apart : text_eq id k ≡ false =
          text_neq id k
            (λ e. cc (ap (text_eq i) (e ∙ sym (text_eq_sound i k z)), text_eq_refl i, other)) in
        rw (z, apart) refl
    | inr m' ↦ rw m' (lookup-put id n pumps k)
  ])
]

-- The later runners do not hide the ones that were made before.
Suffix : {Config : Type 0} → List (Runner Config) → List (Runner Config) → Type 0
Suffix all rs = (k : ℕ) → k < length rs → has_stopped (some k) all ≡ has_stopped (some k) rs

module _ {Config : Type 0} where
  Suffix-down :
      (all : List (Runner Config)) (r : Runner Config) (rest : List (Runner Config))
      → Ordered r rest
      → Suffix all (r ∷ rest)
      → Suffix all rest
  unfolding Suffix
  Suffix-down all r rest o known k lt =
      let other : (r.number == k) ≡ false = ground (arith, o.numbered) in
      known k (omega arith) ∙ (rw other refl)

  replaced_in :
      (all : List (Runner Config)) (r : Runner Config) (rest : List (Runner Config))
      → Ordered r rest
      → InOrder rest
      → Suffix all (r ∷ rest)
      → has_stopped r.replaces all ≡ true
      → has_stopped r.replaces rest ≡ true
  unfolding Suffix
  replaced_in all r rest o h known stop = elim (Option-cases r.replaces) [
    | inl none_before ↦ rw none_before refl
    | inr (k, e) ↦
        let lt = latest_lt r.pump_id rest {k = k} h (sym o.replacing ∙ e) in
        rw e
          (sym (Suffix-down all r rest o known k lt) ∙ ap (λ q. has_stopped q all) (sym e) ∙ stop)
  ]

  pub start_runner-Steady : (all : List (Runner Config)) → Steady (start_runner all)
  start_runner-Steady all = record {
    same_number = λ r. refl;
    same_pump = λ r. refl;
    same_replaces = λ r. refl;
    stays = λ r h. start_phase_stays r.phase (has_stopped r.replaces all) h;
  }

  pub finish_runner-Steady : Steady {Config = Config} finish_runner
  finish_runner-Steady = record {
    same_number = λ r. refl;
    same_pump = λ r. refl;
    same_replaces = λ r. refl;
    stays = λ r h. finish_phase_stays r.phase r.canceled h;
  }

  pub cancel_runner-Steady : Steady {Config = Config} cancel_runner
  cancel_runner-Steady = record {
    same_number = λ r. refl;
    same_pump = λ r. refl;
    same_replaces = λ r. refl;
    stays = λ r h. h;
  }

  pub start-InOrder :
      (n : ℕ) (all : List (Runner Config))
      → InOrder all
      → InOrder (update_where (λ r. r.number == n) (start_runner all) all)
  unfolding Suffix
  start-InOrder n all h =
      InOrder-update_where (λ r. r.number == n) (start_runner all) (start_runner-Steady all)
        (Suffix all) all (λ r rest. Suffix-down all r rest)
        (λ r rest o order known. elim (start_phase_waits r.phase (has_stopped r.replaces all)) [
          | inl w ↦ inl w
          | inr (inl stop) ↦ inr (replaced_in all r rest o order known stop)
          | inr (inr moved) ↦ elim o.waited [ inl w ↦ absurd (cc) | inr h' ↦ inr h' ]
        ])
        h (λ k lt. refl)

  pub finish-InOrder :
      (n : ℕ) (all : List (Runner Config))
      → InOrder all
      → InOrder (update_where (λ r. r.number == n) finish_runner all)
  finish-InOrder n all h =
      InOrder-update_where (λ r. r.number == n) finish_runner finish_runner-Steady (λ _. Unit {0})
        all (λ r rest o known. tt)
        (λ r rest o order known. elim o.waited [
          | inl w ↦ inl (finish_phase_waits r.phase r.canceled ∙ w)
          | inr h' ↦ inr h'
        ])
        h tt

  pub canceled-InOrder :
      (p : Runner Config → Bool) (all : List (Runner Config))
      → InOrder all
      → InOrder (update_where p cancel_runner all)
  canceled-InOrder p all h =
      InOrder-update_where p cancel_runner cancel_runner-Steady (λ _. Unit {0}) all
        (λ r rest o known. tt) (λ r rest o order known. o.waited) h tt
