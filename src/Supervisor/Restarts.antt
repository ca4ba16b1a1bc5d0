-- ===== src/Supervisor/Restarts.antt =====
-- `perago/supervisor.py`: how long the supervisor waits, and what it counts.
use perago.Base.{
  ℕ, zero, suc, ◌+◌, ◌≤◌, Bool, true, false, Text, List, [], ◌∷◌, ◌++◌, ◌≡◌, refl, arith,
  if◌then◌else◌,
}
use perago.Supervisor.{restart_backoff_seconds}
use perago.Supervisor.Loop.{
  Executor, Observation, alive, dead, Supervisor, supervise, restart, stop_at, Turn, follow, halt,
  turn, turns, first_executors, pipes_after, start_supervisor,
}
use perago.Supervisor.Tracks.{seen}

pub restart_backoff_seconds_bounds :
    (n : ℕ) → (1 ≤ restart_backoff_seconds n) × (restart_backoff_seconds n ≤ 30)
unfolding restart_backoff_seconds
restart_backoff_seconds_bounds zero = omega arith
restart_backoff_seconds_bounds (suc zero) = omega arith
restart_backoff_seconds_bounds (suc (suc zero)) = omega arith
restart_backoff_seconds_bounds (suc (suc (suc zero))) = omega arith
restart_backoff_seconds_bounds (suc (suc (suc (suc zero)))) = omega arith
restart_backoff_seconds_bounds (suc (suc (suc (suc (suc n))))) = omega arith

-- The delay does not get shorter with another restart.
pub restart_backoff_seconds_mono :
    (n : ℕ) → restart_backoff_seconds n ≤ restart_backoff_seconds (suc n)
unfolding restart_backoff_seconds
restart_backoff_seconds_mono zero = omega arith
restart_backoff_seconds_mono (suc zero) = omega arith
restart_backoff_seconds_mono (suc (suc zero)) = omega arith
restart_backoff_seconds_mono (suc (suc (suc zero))) = omega arith
restart_backoff_seconds_mono (suc (suc (suc (suc zero)))) = omega arith
restart_backoff_seconds_mono (suc (suc (suc (suc (suc n))))) = omega arith

-- Every delay is between one and thirty seconds.
abbrev pub AreDelays : List ℕ → Type 0
AreDelays [] = Unit
AreDelays (w ∷ ws) = ((1 ≤ w) × (w ≤ 30)) × AreDelays ws

-- An executor's generation is one more than its restarts, and its pipe is one of those made.
abbrev pub AreCounted : (pipes : ℕ) → List Executor → Type 0
AreCounted pipes [] = Unit
AreCounted pipes (e ∷ es) =
    ((e.generation ≡ e.restart_count + 1) × (suc e.connection ≤ pipes)) × AreCounted pipes es

AreCounted-mono : (p q : ℕ) (es : List Executor) → p ≤ q → AreCounted p es → AreCounted q es
AreCounted-mono p q [] h c = tt
AreCounted-mono p q (e ∷ es) h c = ((c.0.0, omega (arith, c.0.1)), AreCounted-mono p q es h c.1)

pub record Counted (s : Supervisor) : Type 0 where
  pub executors : AreCounted s.pipes s.executors
  pub waits : AreDelays s.waits

-- The turn of a pass over executors that are counted, which uses pipes from `pipes` on.
record Pass (pipes : ℕ) (s : Supervisor) : Type 0 where
  counted : Counted s
  grows : pipes ≤ s.pipes

seen-Pass :
    (observe : Executor → Observation) (o : Observation) (e : Executor) (es : List Executor)
    (pipes : ℕ)
    → ((p : ℕ) → AreCounted p es → Pass p (supervise observe es p))
    → AreCounted pipes (e ∷ es)
    → Pass pipes (seen observe o e es pipes)
unfolding restart stop_at
seen-Pass observe alive e es pipes rest c =
    let r = rest pipes c.1 in
    record {
      counted = record {
        executors = ((c.0.0, omega (arith, c.0.1, r.grows)), r.counted.executors);
        waits = r.counted.waits;
      };
      grows = r.grows;
    }
seen-Pass observe (dead true) e es pipes rest c = record {
  counted = record { executors = c; waits = (restart_backoff_seconds_bounds e.restart_count, tt) };
  grows = omega arith;
}
seen-Pass observe (dead false) e es pipes rest c =
    let r = rest (pipes + 1) (AreCounted-mono pipes (pipes + 1) es (omega arith) c.1) in
    record {
      counted = record {
        executors = ((omega (arith, c.0.0), omega (arith, r.grows)), r.counted.executors);
        waits = (restart_backoff_seconds_bounds e.restart_count, r.counted.waits);
      };
      grows = omega (arith, r.grows);
    }

supervise-Pass :
    (observe : Executor → Observation) (es : List Executor) (pipes : ℕ)
    → AreCounted pipes es
    → Pass pipes (supervise observe es pipes)
unfolding supervise
supervise-Pass observe [] pipes c = record {
  counted = record { executors = tt; waits = tt };
  grows = omega arith;
}
supervise-Pass observe (e ∷ es) pipes c =
    seen-Pass observe (observe e) e es pipes (λ p d. supervise-Pass observe es p d) c

AreDelays-append : (xs ys : List ℕ) → AreDelays xs → AreDelays ys → AreDelays (xs ++ ys)
AreDelays-append [] ys h k = k
AreDelays-append (x ∷ xs) ys h k = (h.0, AreDelays-append xs ys h.1 k)

turn-Counted : (t : Turn) (s : Supervisor) → Counted s → Counted (turn t s)
unfolding turn
turn-Counted t s c = taken s.stopped t.stop_set t.broker_alive
  where
    halted : Counted (halt s)
    halted = record { executors = c.executors; waits = c.waits }

    followed : Counted (follow s (supervise t.observe s.executors s.pipes))
    followed =
        let r = supervise-Pass t.observe s.executors s.pipes c.executors in
        record {
          executors = r.counted.executors;
          waits = AreDelays-append s.waits _ c.waits r.counted.waits;
        }

    taken :
        (stopped stop_set broker_alive : Bool)
        → Counted (
            if stopped
            then s
            else if stop_set
            then halt s
            else if broker_alive
            then follow s (supervise t.observe s.executors s.pipes)
            else halt s)
    taken true stop_set broker_alive = c
    taken false true broker_alive = halted
    taken false false true = followed
    taken false false false = halted

turns-Counted : (ts : List Turn) (s : Supervisor) → Counted s → Counted (turns ts s)
unfolding turns
turns-Counted [] s c = c
turns-Counted (t ∷ ts) s c = turns-Counted ts (turn t s) (turn-Counted t s c)

first-AreCounted :
    (ids : List Text) (pipe : ℕ)
    → (pipe ≤ pipes_after ids pipe) × AreCounted (pipes_after ids pipe) (first_executors ids pipe)
first-AreCounted [] pipe = (omega arith, tt)
first-AreCounted (w ∷ ids) pipe =
    let (grows, rest) = first-AreCounted ids (pipe + 1) in
    (omega (arith, grows), ((refl, omega (arith, grows)), rest))

-- After any turns, whether or not they stop the supervisor: every executor's generation is one more
-- than the number of its restarts, its pipe is one of those that were made, and every wait before a
-- restart was between one and thirty seconds.
pub start_supervisor-Counted :
    (ids : List Text) (ts : List Turn) → Counted (turns ts (start_supervisor ids))
unfolding start_supervisor
start_supervisor-Counted ids ts =
    turns-Counted ts (start_supervisor ids)
      (record { executors = (first-AreCounted ids 0).1; waits = tt })
