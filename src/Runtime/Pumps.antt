-- ===== src/Runtime/Pumps.antt =====
-- The pumps of runtime/task_manager.go: registerPump, runPumpLoop and stopAllPumps, as steps that the
-- goroutines take in any order. The configuration of a pump is its function, its input and its
-- interval, and stays open.
pub mod Order
pub mod Runners
pub mod Exclusive
mod Tests
use zoa.Base.{
  ℕ, zero, suc, Bool, true, false, not, ◌&&◌, ◌||◌, Option, none, some, List, [], ◌∷◌, ◌==◌,
  if◌then◌else◌, length, update_where, select, select_first, map,
}
use zoa.Base.Text.{Text, codes, text_eq, is_empty, trim}
use zoa.Base.Sql.{Result, ok, err}

-- How far a runner has come: it waits for the one that it replaces, its loop has started, or its
-- channel `done` is closed.
pub data Phase : Type 0 where
  waiting looping stopped : Phase

-- pumpRunner, with a number for its identity. `replaces` is the number of the runner that it waits for.
pub record Runner (Config : Type 0) : Type 0 where
  pub number : ℕ
  pub pump_id : Text
  pub config : Config
  pub replaces : Option ℕ
  pub phase : Phase
  pub canceled : Bool

-- The runners that were ever made, the last one first; the map `pumps` from an id to a runner's
-- number; and whether Close has been called.
pub record Pumps (Config : Type 0) : Type 0 where
  pub runners : List (Runner Config)
  pub pumps : List (Text × ℕ)
  pub closed : Bool

abbrev pub no_pumps : {Config : Type 0} → Pumps Config
no_pumps = record { runners = []; pumps = []; closed = false }

abbrev pub lookup : List (Text × ℕ) → Text → Option ℕ
lookup [] id = none
lookup ((i, n) ∷ pumps) id = if text_eq i id then some n else lookup pumps id

abbrev pub put : Text → ℕ → List (Text × ℕ) → List (Text × ℕ)
put id n [] = (id, n) ∷ []
put id n ((i, m) ∷ pumps) =
    let rest = put id n pumps in if text_eq i id then (id, n) ∷ pumps else (i, m) ∷ rest

abbrev pub runner_with : {Config : Type 0} → ℕ → List (Runner Config) → Option (Runner Config)
runner_with n = select_first λ r. r.number == n

abbrev pub is_stopped : Phase → Bool
is_stopped stopped = true
is_stopped waiting = false
is_stopped looping = false

-- `<-toStop.done` goes on where the channel of the runner is closed.
abbrev pub has_stopped : {Config : Type 0} → Option ℕ → List (Runner Config) → Bool
has_stopped none runners = true
has_stopped (some n) [] = false
has_stopped (some n) (r ∷ runners) =
    let rest = has_stopped (some n) runners in if r.number == n then is_stopped r.phase else rest

abbrev pub cancel_runner : {Config : Type 0} → Runner Config → Runner Config
cancel_runner r = record r { canceled = true }

abbrev pub canceling : {Config : Type 0} → Option ℕ → List (Runner Config) → List (Runner Config)
canceling none runners = runners
canceling (some n) runners = update_where (λ r. r.number == n) cancel_runner runners

-- What registerPump checks before it takes the lock; `known` says whether the registry has the
-- function.
abbrev pub pump_error : Text → Text → ℕ → Bool → Option Text
pump_error pump_id function_id interval known =
    if is_empty (trim pump_id)
    then some (codes "pump_id cannot be empty")
    else if is_empty (trim function_id)
    then some (codes "function_id cannot be empty")
    else if interval == 0
    then some (codes "interval must be > 0")
    else if not known
    then some (codes "unknown function")
    else none

-- `<-toStop.done`, then `go m.runPumpLoop`
abbrev pub start_phase : Phase → Bool → Phase
start_phase waiting true = looping
start_phase waiting false = waiting
start_phase looping b = looping
start_phase stopped b = stopped

-- runPumpLoop returns, and closes `done`, once its context is canceled.
abbrev pub finish_phase : Phase → Bool → Phase
finish_phase waiting b = waiting
finish_phase looping true = stopped
finish_phase looping false = looping
finish_phase stopped b = stopped

-- A step of a goroutine: the loop of the runner with a number starts, once the runner that it waits for
-- has stopped; or it ends, once it is canceled. A runner whose loop has started may run its function
-- at any time until it has ended, also after it is canceled.
pub data Move (Config : Type 0) : Type 0 where
  start finish : ℕ → Move Config
  register : Text → Text → ℕ → Bool → Config → Move Config
  close_all : Move Config

module _ {Config : Type 0} where
  abbrev pub new_runner : Text → Config → Option ℕ → ℕ → Runner Config
  new_runner id c replaces n = record {
    number = n;
    pump_id = id;
    config = c;
    replaces = replaces;
    phase = waiting;
    canceled = false;
  }

  abbrev pub existing_runner : Option ℕ → List (Runner Config) → Option (Runner Config)
  existing_runner none runners = none
  existing_runner (some n) runners = runner_with n runners

  abbrev pub start_runner : List (Runner Config) → Runner Config → Runner Config
  start_runner all r = record r { phase = start_phase r.phase (has_stopped r.replaces all) }

  abbrev pub finish_runner : Runner Config → Runner Config
  finish_runner r = record r { phase = finish_phase r.phase r.canceled }

  abbrev pub on_runner : ℕ → (Runner Config → Runner Config) → Pumps Config → Pumps Config
  on_runner n f p = record p { runners = update_where (λ r. r.number == n) f p.runners }

  abbrev pub cancel_all : List (Runner Config) → List (Runner Config)
  cancel_all = update_where (λ r. true) cancel_runner

  -- Close: pumpCancel cancels the contexts of all runners; stopAllPumps empties the map.
  abbrev pub close_pumps : Pumps Config → Pumps Config
  close_pumps p =
      if p.closed then p else record { runners = cancel_all p.runners; pumps = []; closed = true }

module _ {Config : Type 0} (same : Config → Config → Bool) where
  abbrev pub same_config : Config → Option (Runner Config) → Bool
  same_config c none = false
  same_config c (some r) = same r.config c

  -- registerPump from the lock on, up to the wait for the runner that it replaces. A new runner is
  -- made, and the old one is canceled, but where the old one has the same configuration.
  unfoldable pub replace_pump : Text → Config → Option ℕ → Pumps Config → Pumps Config
  replace_pump id c old p =
      let n = length p.runners in
      if same_config c (existing_runner old p.runners) then p else record p {
        runners = new_runner id c old n ∷ canceling old p.runners;
        pumps = put id n p.pumps;
      }

  unfoldable pub register_checked :
      Option Text → Text → Config → Pumps Config → Result Text (Unit {0}) × Pumps Config
  unfolding replace_pump
  register_checked (some text) id c p = (err text, p)
  register_checked none id c p =
      if p.closed
      then (err (codes "task manager is closed"), p)
      else (ok tt, replace_pump id c (lookup p.pumps id) p)

  -- registerPump
  unfoldable pub register_pump :
      Text → Text → ℕ → Bool → Config → Pumps Config → Result Text (Unit {0}) × Pumps Config
  unfolding register_checked
  register_pump pump_id function_id interval known c p =
      register_checked (pump_error pump_id function_id interval known) (trim pump_id) c p

  unfoldable pub move : Move Config → Pumps Config → Pumps Config
  unfolding register_pump
  move (start n) p = on_runner n (start_runner p.runners) p
  move (finish n) p = on_runner n finish_runner p
  move (register pump_id function_id interval known c) p =
      (register_pump pump_id function_id interval known c p).1
  move close_all p = close_pumps p

  unfoldable pub moves : List (Move Config) → Pumps Config → Pumps Config
  unfolding move
  moves [] p = p
  moves (m ∷ ms) p = moves ms (move m p)
