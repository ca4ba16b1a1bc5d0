-- ===== src/Execution/Rules.antt =====
-- How to show that a computation of an attempt keeps to the protocol, whatever its calls give.
use perago.Base.{Bool, true, false, Text, List, ◌∷◌, ◌≡◌, refl, sym, ◌∙◌, if◌then◌else◌}
use perago.Errors.{Exception, Outcome, ok, raised}
use perago.Attempt.{Attempt}
use perago.Execution.Calls.{
  Event, History, Machine, Run, ◌>>=◌, lift, ask, ask_outcome, perform, continue,
}
use perago.Execution.Protocol.{Progress, Trace, Stopped, stop_at, prepared_in, staged_in}
use perago.Execution.{after_timer}

-- What stays in step with the history while the block runs.
pub record Synced (tokens : List Text) (s : Machine) : Type 0 where
  pub dir : s.workspace_dir ≡ prepared_in s.history
  pub staged : s.staged ≡ staged_in s.history
  pub tokens_kept : s.active_owner_tokens ≡ tokens

-- One more call, which is neither a preparation nor a staging that succeeded.
pub resync :
    {tokens : List Text} (s : Machine) (e : Event)
    → prepared_in (e ∷ s.history) ≡ prepared_in s.history
    → staged_in (e ∷ s.history) ≡ staged_in s.history
    → Synced tokens s
    → Synced tokens (record s { history = e ∷ s.history })
resync s e p q y = record {
  dir = y.dir ∙ sym p;
  staged = y.staged ∙ sym q;
  tokens_kept = y.tokens_kept;
}

-- The attempt has come to `p`, and the machine agrees with its history.
pub record At (attempt : Attempt) (read_only : Bool) (tokens : List Text) (p : Progress)
    (s : Machine) : Type 0 where
  pub trace : Trace attempt read_only p s.history
  pub synced : Synced tokens s

-- The attempt has stopped where the protocol allows it.
pub record Halted (attempt : Attempt) (read_only : Bool) (tokens : List Text) (s : Machine)
    : Type 0 where
  pub stopped : Stopped attempt read_only s.history
  pub synced : Synced tokens s

abbrev pub Ends :
    (attempt : Attempt) (read_only : Bool) (tokens : List Text) {A : Type 0}
    → (A → Machine → Type 0)
    → Outcome A
    → Machine
    → Type 0
Ends attempt read_only tokens Q (ok a) s = Q a s
Ends attempt read_only tokens Q (raised e) s = Halted attempt read_only tokens s

-- From `s`, `m` returns a value with `Q`, or raises where the attempt may stop.
pub record Leads (attempt : Attempt) (read_only : Bool) (tokens : List Text) {A : Type 0}
    (Q : A → Machine → Type 0) (m : Run A) (s : Machine) : Type 0 where
  pub at : Ends attempt read_only tokens Q (m s).0 (m s).1

weaken-Ends :
    (attempt : Attempt) (read_only : Bool) (tokens : List Text) {A : Type 0}
    (P Q : A → Machine → Type 0) (r : Outcome A) (s : Machine)
    → Ends attempt read_only tokens P r s
    → ((a : A) (s' : Machine) → P a s' → Q a s')
    → Ends attempt read_only tokens Q r s
weaken-Ends attempt read_only tokens P Q (ok a) s h k = k a s h
weaken-Ends attempt read_only tokens P Q (raised e) s h k = h

module _ {attempt : Attempt} {read_only : Bool} {tokens : List Text} where
  pub halt :
      {p : Progress} {s : Machine}
      → At attempt read_only tokens p s
      → Halted attempt read_only tokens s
  halt {p} h = record { stopped = stop_at p h.trace; synced = h.synced }

  continue-Ends :
      {A B : Type 0} (P : A → Machine → Type 0) (Q : B → Machine → Type 0) (r : Outcome A)
      (f : A → Run B) (s : Machine)
      → Ends attempt read_only tokens P r s
      → ((a : A) (s' : Machine) → P a s' → Leads attempt read_only tokens Q (f a) s')
      → Ends attempt read_only tokens Q (continue r f s).0 (continue r f s).1
  continue-Ends P Q (ok a) f s h k = (k a s h).at
  continue-Ends P Q (raised e) f s h k = h

  pub Leads-bind :
      {A B : Type 0} {P : A → Machine → Type 0} {Q : B → Machine → Type 0} {m : Run A}
      {f : A → Run B} {s : Machine}
      → Leads attempt read_only tokens P m s
      → ((a : A) (s' : Machine) → P a s' → Leads attempt read_only tokens Q (f a) s')
      → Leads attempt read_only tokens Q (m >>= f) s
  unfolding ◌>>=◌
  Leads-bind {P = P} {Q = Q} {m = m} {f = f} {s = s} h k = record {
    at = continue-Ends P Q (m s).0 f (m s).1 h.at k;
  }

  stays :
      {A : Type 0} (Q : A → Machine → Type 0) (r : Outcome A) (s : Machine)
      → Halted attempt read_only tokens s
      → ((a : A) → r ≡ ok a → Q a s)
      → Ends attempt read_only tokens Q r s
  stays Q (ok a) s h k = k a refl
  stays Q (raised e) s h k = h

  -- What a step without a call may raise leaves the attempt where it was.
  pub Leads-lift :
      {A : Type 0} {Q : A → Machine → Type 0} {r : Outcome A} {s : Machine}
      → Halted attempt read_only tokens s
      → ((a : A) → r ≡ ok a → Q a s)
      → Leads attempt read_only tokens Q (lift r) s
  unfolding lift
  Leads-lift {Q = Q} {r = r} {s = s} h k = record { at = stays Q r s h k }

  pub Leads-ask_outcome :
      {A : Type 0} (read : History → Outcome A) {p : Progress} {s : Machine}
      → At attempt read_only tokens p s
      → Leads attempt read_only tokens (λ _. At attempt read_only tokens p) (ask_outcome read) s
  unfolding ask_outcome
  Leads-ask_outcome read {s = s} h = record { at = stays _ (read s.history) s (halt h) (λ _ _. h) }

  pub Leads-ask :
      {A : Type 0} (read : History → A) {p : Progress} {s : Machine}
      → At attempt read_only tokens p s
      → Leads attempt read_only tokens (λ _. At attempt read_only tokens p) (ask read) s
  unfolding ask
  Leads-ask read h = record { at = h }

  performed :
      {A : Type 0} (Q : A → Machine → Type 0) (event : Outcome A → Event) (r : Outcome A)
      (s : Machine)
      → ((a : A) → Q a (record s { history = event (ok a) ∷ s.history }))
      → ((e : Exception)
          → Halted attempt read_only tokens (record s { history = event (raised e) ∷ s.history }))
      → Ends attempt read_only tokens Q r (record s { history = event r ∷ s.history })
  performed Q event (ok a) s good bad = good a
  performed Q event (raised e) s good bad = bad e

  pub Leads-perform :
      {A : Type 0} {Q : A → Machine → Type 0} (call : History → Outcome A)
      (event : Outcome A → Event) {s : Machine}
      → ((a : A) → Q a (record s { history = event (ok a) ∷ s.history }))
      → ((e : Exception)
          → Halted attempt read_only tokens (record s { history = event (raised e) ∷ s.history }))
      → Leads attempt read_only tokens Q (perform call event) s
  unfolding perform
  Leads-perform {Q = Q} call event {s = s} good bad = record {
    at = performed Q event (call s.history) s good bad;
  }

  -- The call of a timer's block may have been replaced by an exception of the recorder.
  pub after_timer-Ends :
      {A : Type 0} (Q : A → Machine → Type 0) (q : Outcome (Unit {0})) (r : Outcome A) (s : Machine)
      → Ends attempt read_only tokens Q r s
      → ((a : A) (s' : Machine) → Q a s' → Halted attempt read_only tokens s')
      → Ends attempt read_only tokens Q (after_timer q r) s
  after_timer-Ends Q (ok _) r s h k = h
  after_timer-Ends Q (raised e) (ok a) s h k = k a s h
  after_timer-Ends Q (raised e) (raised e') s h k = h

  pub Leads-if :
      {A : Type 0} {Q : A → Machine → Type 0} (b : Bool) {m n : Run A} {s : Machine}
      → Leads attempt read_only tokens Q m s
      → Leads attempt read_only tokens Q n s
      → Leads attempt read_only tokens Q (if b then m else n) s
  Leads-if true h k = h
  Leads-if false h k = k

  pub Leads-weaken :
      {A : Type 0} {P Q : A → Machine → Type 0} {m : Run A} {s : Machine}
      → Leads attempt read_only tokens P m s
      → ((a : A) (s' : Machine) → P a s' → Q a s')
      → Leads attempt read_only tokens Q m s
  Leads-weaken {P = P} {Q = Q} {m = m} {s = s} h k = record {
    at = weaken-Ends attempt read_only tokens P Q (m s).0 (m s).1 h.at k;
  }

  -- a branch that may use its test
  pub Leads-if_eq :
      {A : Type 0} {Q : A → Machine → Type 0} (b : Bool) {m n : Run A} {s : Machine}
      → (b ≡ true → Leads attempt read_only tokens Q m s)
      → (b ≡ false → Leads attempt read_only tokens Q n s)
      → Leads attempt read_only tokens Q (if b then m else n) s
  Leads-if_eq true h k = h refl
  Leads-if_eq false h k = k refl
