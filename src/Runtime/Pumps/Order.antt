-- ===== src/Runtime/Pumps/Order.antt =====
-- The order of the runners of runtime/task_manager.go, and what a change of some of them keeps of it.
use zoa.Base.{
  ℕ, ◌<◌, ◌≡◌, refl, sym, ap, ◌∙◌, ◌⊎◌, inl, inr, Bool, true, false, Option, none, some, List, [],
  ◌∷◌, arith, ◌==◌, if◌then◌else◌, length, update_where, length-update_where, Bool-cases,
}
use zoa.Base.Text.{Text, text_eq}
use zoa.Runtime.Pumps.{Phase, waiting, looping, stopped, Runner, is_stopped, has_stopped}

abbrev pub is_waiting : Phase → Bool
is_waiting waiting = true
is_waiting looping = false
is_waiting stopped = false

abbrev pub is_looping : Phase → Bool
is_looping looping = true
is_looping waiting = false
is_looping stopped = false

module _ {Config : Type 0} where
  -- The runner that was made last for a pump.
  abbrev pub latest : Text → List (Runner Config) → Option ℕ
  latest id [] = none
  latest id (r ∷ rs) = if text_eq r.pump_id id then some r.number else latest id rs

  -- A runner among the ones made before it.
  pub record Ordered (r : Runner Config) (rest : List (Runner Config)) : Type 0 where
    pub numbered : r.number ≡ length rest
    pub replacing : r.replaces ≡ latest r.pump_id rest
    pub waited : (is_waiting r.phase ≡ true) ⊎ (has_stopped r.replaces rest ≡ true)

  abbrev pub InOrder : List (Runner Config) → Type 0
  InOrder [] = Unit {0}
  InOrder (r ∷ rs) = Ordered r rs × InOrder rs

  pub latest_lt :
      (id : Text) (rs : List (Runner Config)) {k : ℕ}
      → InOrder rs
      → latest id rs ≡ some k
      → k < length rs
  latest_lt id [] h e = absurd (cc)
  latest_lt id (r ∷ rs) {k} h e = elim (Bool-cases (text_eq r.pump_id id)) [
    | inl y ↦ ground (arith, h.0.numbered)
    | inr n ↦ ground (arith, latest_lt id rs {k = k} h.1)
  ]

  -- What a step may do to a runner: it keeps its identity, and what has stopped stays so.
  pub record Steady (f : Runner Config → Runner Config) : Type 0 where
    pub same_number : (r : Runner Config) → (f r).number ≡ r.number
    pub same_pump : (r : Runner Config) → (f r).pump_id ≡ r.pump_id
    pub same_replaces : (r : Runner Config) → (f r).replaces ≡ r.replaces
    pub stays : (r : Runner Config) → is_stopped r.phase ≡ true → is_stopped (f r).phase ≡ true

module _ {Config : Type 0} (p : Runner Config → Bool) (f : Runner Config → Runner Config)
    (steady : Steady f) where
  pub latest-update_where :
      (id : Text) (rs : List (Runner Config)) → latest id (update_where p f rs) ≡ latest id rs
  latest-update_where id [] = refl
  latest-update_where id (r ∷ rs) = elim (Bool-cases (p r)) [
    | inl y ↦ rw (y, steady.same_pump r, steady.same_number r, latest-update_where id rs) refl
    | inr n ↦ rw (n, latest-update_where id rs) refl
  ]

  has_stopped-update_where :
      (o : Option ℕ) (rs : List (Runner Config))
      → has_stopped o rs ≡ true
      → has_stopped o (update_where p f rs) ≡ true
  has_stopped-update_where none rs h = refl
  has_stopped-update_where (some k) [] h = absurd (cc)
  has_stopped-update_where (some k) (r ∷ rs) h = elim (Bool-cases (r.number == k)) [
    | inl y ↦
        let known = rw y at h in
        elim (Bool-cases (p r)) [
          | inl z ↦ rw (z, steady.same_number r, y) (steady.stays r known)
          | inr n ↦ rw (n, y) known
        ]
    | inr n ↦
        let known = has_stopped-update_where (some k) rs (rw n at h) in
        elim (Bool-cases (p r)) [
          | inl z ↦ rw (z, steady.same_number r, n) known
          | inr m ↦ rw (m, n) known
        ]
  ]

  Ordered-update_where :
      (r : Runner Config) (rs : List (Runner Config))
      → (is_waiting (f r).phase ≡ true) ⊎ (has_stopped r.replaces rs ≡ true)
      → Ordered r rs
      → Ordered (if p r then f r else r) (update_where p f rs)
  Ordered-update_where r rs allowed o = elim (Bool-cases (p r)) [
    | inl y ↦ rw y record {
      numbered = steady.same_number r ∙ o.numbered ∙ sym (length-update_where p f rs);
      replacing =
          steady.same_replaces r
          ∙ o.replacing
          ∙ sym (
              ap (λ id. latest id (update_where p f rs)) (steady.same_pump r)
              ∙ latest-update_where r.pump_id rs);
      waited = elim allowed [
        | inl w ↦ inl w
        | inr h ↦ inr (
            ap (λ q. has_stopped q (update_where p f rs)) (steady.same_replaces r)
            ∙ has_stopped-update_where r.replaces rs h)
      ];
    }
    | inr n ↦ rw n record {
      numbered = o.numbered ∙ sym (length-update_where p f rs);
      replacing = o.replacing ∙ sym (latest-update_where r.pump_id rs);
      waited = elim o.waited [
        | inl w ↦ inl w
        | inr h ↦ inr (has_stopped-update_where r.replaces rs h)
      ];
    }
  ]

  -- A step keeps the order, where the runner that it changes may have come so far. `S` is what is known
  -- of the runners from one on.
  pub InOrder-update_where :
      (S : List (Runner Config) → Type 0) (rs : List (Runner Config))
      → ((r : Runner Config) (rest : List (Runner Config)) → Ordered r rest → S (r ∷ rest) → S rest)
      → ((r : Runner Config) (rest : List (Runner Config))
          → Ordered r rest
          → InOrder rest
          → S (r ∷ rest)
          → (is_waiting (f r).phase ≡ true) ⊎ (has_stopped r.replaces rest ≡ true))
      → InOrder rs
      → S rs
      → InOrder (update_where p f rs)
  InOrder-update_where S [] down allowed h known = tt
  InOrder-update_where S (r ∷ rs) down allowed h known = (
    Ordered-update_where r rs (allowed r rs h.0 h.1 known) h.0,
    InOrder-update_where S rs down allowed h.1 (down r rs h.0 known),
  )
