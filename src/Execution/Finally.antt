-- ===== src/Execution/Finally.antt =====
-- The `finally` clause of an attempt: what it removes, and that it forgets the owner token.
use perago.Base.{
  ℕ, Bool, false, Option, none, some, Text, text_in, text_eq_refl, List, [], ◌∷◌, ◌≡◌, refl, ap,
  ◌∙◌, arith,
}
use perago.Errors.{Exception, os_error, Outcome, ok, raised}
use perago.Attempt.{Attempt}
use perago.Result.{RuntimeTaskResult}
use perago.Execution.Calls.{StagedWorkspace, History, Environment, Machine}
use perago.Execution.Protocol.{clean_staging_of, clean_workspace_of, cleaned}
use perago.Execution.Rules.{Synced}
use perago.Execution.{
  Task, InputData, add, discard, forget_staging, remove_dir, finish_with, finally_clause,
  cleanup_staging_safely, cleanup_workspace_safely, drop_os_error,
}

-- Removing a directory fails only with an error of the file system.
abbrev pub OnlyOsErrors : Environment → Type 0
OnlyOsErrors env =
    (dir : Text) (h : History) (e : Exception)
    → env.cleanup_attempt_workspace dir h ≡ raised e
    → (m : Text) × (e ≡ os_error m)

discard_lem : (t : Text) (ts : List Text) → text_in t ts ≡ false → discard t ts ≡ ts
unfolding discard text_in
discard_lem t [] h = refl
discard_lem t (u ∷ ts) h = ground (arith, discard_lem t ts)

-- A token that was not active is added and removed again.
pub discard-add : (t : Text) (ts : List Text) → text_in t ts ≡ false → discard t (add t ts) ≡ ts
unfolding add discard
discard-add t ts h = ground (arith, discard_lem t ts h, text_eq_refl t)

forget-dir :
    (o : Option StagedWorkspace) (s : Machine)
    → (forget_staging o s).workspace_dir ≡ s.workspace_dir
forget-dir none s = refl
forget-dir (some st) s = refl

forget-history :
    (o : Option StagedWorkspace) (s : Machine)
    → (forget_staging o s).history ≡ clean_staging_of o s.history
forget-history none s = refl
forget-history (some st) s = refl

forget-tokens :
    (o : Option StagedWorkspace) (s : Machine)
    → (forget_staging o s).active_owner_tokens ≡ s.active_owner_tokens
forget-tokens none s = refl
forget-tokens (some st) s = refl

module _ (env : Environment) (task : Task) (input : InputData) (attempt : Attempt)
    (has_recorder : Bool) (depth : ℕ) where
  remove-history :
      (d : Option Text) (s : Machine)
      → (remove_dir env task input attempt has_recorder depth d s).1.history
        ≡ clean_workspace_of d s.history
  remove-history none s = refl
  remove-history (some dir) s = refl

  remove-tokens :
      (d : Option Text) (s : Machine)
      → (remove_dir env task input attempt has_recorder depth d s).1.active_owner_tokens
        ≡ s.active_owner_tokens
  remove-tokens none s = refl
  remove-tokens (some dir) s = refl

  dropped :
      (r : Outcome (Unit {0}))
      → ((e : Exception) → r ≡ raised e → (m : Text) × (e ≡ os_error m))
      → drop_os_error r ≡ ok tt
  dropped (ok tt) k = refl
  dropped (raised e) k = rw (k e refl).1

  remove_dir-ok :
      OnlyOsErrors env
      → (d : Option Text) (s : Machine)
      → (remove_dir env task input attempt has_recorder depth d s).0 ≡ ok tt
  remove_dir-ok only none s = refl
  remove_dir-ok only (some dir) s = dropped _ (only dir s.history)

  finish-history :
      (token : Text) (r : Outcome RuntimeTaskResult) (c : Outcome (Unit {0})) (s : Machine)
      → (finish_with env task input attempt has_recorder depth token r c s).1.history ≡ s.history
  finish-history token r (ok _) s = refl
  finish-history token r (raised e) s = refl

  finish-eq-ok :
      (token : Text) (r : Outcome RuntimeTaskResult) (c : Outcome (Unit {0})) (s : Machine)
      {v : RuntimeTaskResult}
      → (finish_with env task input attempt has_recorder depth token r c s).0 ≡ ok v
      → r ≡ ok v
  finish-eq-ok token r (ok _) s h = h
  finish-eq-ok token r (raised e) s h = cc

  finish-keeps :
      (token : Text) (r : Outcome RuntimeTaskResult) (c : Outcome (Unit {0})) (s : Machine)
      → c ≡ ok tt
      → ((finish_with env task input attempt has_recorder depth token r c s).0 ≡ r)
        × ((finish_with env task input attempt has_recorder depth token r c s).1.active_owner_tokens
            ≡ discard token s.active_owner_tokens)
  finish-keeps token r (ok _) s h = (refl, refl)
  finish-keeps token r (raised e) s h = cc

  -- The history gains the two cleanup calls, for what the history itself has made.
  pub finally-history :
      {tokens : List Text} (token : Text) (r : Outcome RuntimeTaskResult) (s : Machine)
      → Synced tokens s
      → (finally_clause env task input attempt has_recorder depth token r s).1.history
        ≡ cleaned s.history
  unfolding finally_clause cleanup_staging_safely cleanup_workspace_safely
  finally-history token r s y =
      finish-history token r _ _
      ∙ remove-history _ (forget_staging s.staged s)
      ∙ rw (forget-dir s.staged s, forget-history s.staged s, y.dir, y.staged)

  pub finally-eq-ok :
      (token : Text) (r : Outcome RuntimeTaskResult) (s : Machine) {v : RuntimeTaskResult}
      → (finally_clause env task input attempt has_recorder depth token r s).0 ≡ ok v
      → r ≡ ok v
  unfolding finally_clause cleanup_staging_safely cleanup_workspace_safely
  finally-eq-ok token r s h = finish-eq-ok token r _ _ h

  -- When removing the directory fails at most with `OSError`, the clause keeps the result, and
  -- forgets the token.
  pub finally-keeps :
      OnlyOsErrors env
      → {tokens : List Text} (token : Text) (r : Outcome RuntimeTaskResult) (s : Machine)
      → Synced tokens s
      → ((finally_clause env task input attempt has_recorder depth token r s).0 ≡ r)
        × ((finally_clause env task input attempt has_recorder depth token r
              s).1.active_owner_tokens
            ≡ discard token tokens)
  unfolding finally_clause cleanup_staging_safely cleanup_workspace_safely
  finally-keeps only token r s y =
      let (same, tokens) =
        finish-keeps token r _ _ (remove_dir-ok only _ (forget_staging s.staged s)) in
      (
        same,
        tokens
            ∙ ap (discard token) (
                remove-tokens _ (forget_staging s.staged s)
                ∙ forget-tokens s.staged s
                ∙ y.tokens_kept),
      )
