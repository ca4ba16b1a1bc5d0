-- ===== src/Execution/Publication.antt =====
-- What the protocol says of publications: each stands behind two passed fences, and a read-only
-- task makes none.
use perago.Base.{Bool, true, Text, Option, none, some, [], ◌∷◌, ◌≡◌, refl}
use perago.Errors.{ok}
use perago.Attempt.{Attempt}
use perago.Attempt.Fence.{SameAttempt}
use perago.Execution.Calls.{StagedWorkspace, History, prepare, load, stage, publish, noop}
use perago.Execution.Protocol.{
  Progress, fenced, staged_as, cleared, Trace, start_trace, prepare_trace, download_trace,
  body_trace, fence_trace, stage_trace, fence_again_trace, publish_trace, noop_trace, Stopped,
  stop_at, prepare_fails, download_fails, body_fails, fence_fails, stage_fails, fence_again_fails,
  publish_fails, noop_fails, cleaned, prepared_in, staged_in, clean_staging_of, clean_workspace_of,
}

-- The calls just before a publication of `w`: a fresh read of the same attempt, the staging that
-- gave `w`, and another fresh read of the same attempt.
pub record FencedTwice (attempt : Attempt) (w : StagedWorkspace) (older : History) : Type 0 where
  pub first : Attempt
  pub second : Attempt
  pub rest : History
  pub shape : older ≡ load (ok second) ∷ stage (ok w) ∷ load (ok first) ∷ rest
  pub first_same : SameAttempt attempt first
  pub second_same : SameAttempt attempt second

-- Each publication of the history was fenced.
abbrev pub AllFenced : Attempt → History → Type 0
AllFenced attempt [] = Unit
AllFenced attempt (publish w r ∷ older) = FencedTwice attempt w older × AllFenced attempt older
AllFenced attempt (prepare r ∷ older) = AllFenced attempt older
AllFenced attempt (_ ∷ older) = AllFenced attempt older

-- No fresh read, no staging, no publication and no completion of an unchanged workspace.
abbrev pub OnlyReads : History → Type 0
OnlyReads [] = Unit
OnlyReads (load r ∷ older) = ⊥
OnlyReads (stage r ∷ older) = ⊥
OnlyReads (publish w r ∷ older) = ⊥
OnlyReads (noop r ∷ older) = ⊥
OnlyReads (_ ∷ older) = OnlyReads older

module _ (attempt : Attempt) {read_only : Bool} where
  cleared-FencedTwice :
      {w : StagedWorkspace} {h : History}
      → Trace attempt read_only (cleared w) h
      → FencedTwice attempt w h
  cleared-FencedTwice (fence_again_trace w f2 s2 (stage_trace w' (fence_trace {h = h} f1 _ s1 t))) =
      record { first = f1; second = f2; rest = h; shape = refl; first_same = s1; second_same = s2 }

  Trace-AllFenced : {p : Progress} {h : History} → Trace attempt read_only p h → AllFenced attempt h
  Trace-AllFenced start_trace = tt
  Trace-AllFenced (prepare_trace dir t) = Trace-AllFenced t
  Trace-AllFenced (download_trace t) = Trace-AllFenced t
  Trace-AllFenced (body_trace v t) = Trace-AllFenced t
  Trace-AllFenced (fence_trace f e s t) = Trace-AllFenced t
  Trace-AllFenced (stage_trace w t) = Trace-AllFenced t
  Trace-AllFenced (fence_again_trace w f s t) = Trace-AllFenced t
  Trace-AllFenced (publish_trace w ref t) = (cleared-FencedTwice t, Trace-AllFenced t)
  Trace-AllFenced (noop_trace ref t) = Trace-AllFenced t

  pub Stopped-AllFenced : {h : History} → Stopped attempt read_only h → AllFenced attempt h
  Stopped-AllFenced (stop_at p t) = Trace-AllFenced t
  Stopped-AllFenced (prepare_fails e t) = Trace-AllFenced t
  Stopped-AllFenced (download_fails e t) = Trace-AllFenced t
  Stopped-AllFenced (body_fails e t) = Trace-AllFenced t
  Stopped-AllFenced (fence_fails r e t) = Trace-AllFenced t
  Stopped-AllFenced (stage_fails e t) = Trace-AllFenced t
  Stopped-AllFenced (fence_again_fails w r t) = Trace-AllFenced t
  Stopped-AllFenced (publish_fails w e t) = (cleared-FencedTwice t, Trace-AllFenced t)
  Stopped-AllFenced (noop_fails e t) = Trace-AllFenced t

module _ (attempt : Attempt) where
  pub cleaned-AllFenced : (h : History) → AllFenced attempt h → AllFenced attempt (cleaned h)
  cleaned-AllFenced h a = dir (prepared_in h) _ (staging (staged_in h) h a)
    where
      staging :
          (o : Option StagedWorkspace) (h : History)
          → AllFenced attempt h
          → AllFenced attempt (clean_staging_of o h)
      staging none h a = a
      staging (some w) h a = a

      dir :
          (o : Option Text) (h : History)
          → AllFenced attempt h
          → AllFenced attempt (clean_workspace_of o h)
      dir none h a = a
      dir (some d) h a = a

  writable : {h : History} → Trace attempt true fenced h → ⊥
  writable (fence_trace f e s t) = cc

  staged_writable : {w : StagedWorkspace} {h : History} → Trace attempt true (staged_as w) h → ⊥
  staged_writable (stage_trace w t) = writable t

  cleared_writable : {w : StagedWorkspace} {h : History} → Trace attempt true (cleared w) h → ⊥
  cleared_writable (fence_again_trace w f s t) = staged_writable t

  Trace-OnlyReads : {p : Progress} {h : History} → Trace attempt true p h → OnlyReads h
  Trace-OnlyReads start_trace = tt
  Trace-OnlyReads (prepare_trace dir t) = Trace-OnlyReads t
  Trace-OnlyReads (download_trace t) = Trace-OnlyReads t
  Trace-OnlyReads (body_trace v t) = Trace-OnlyReads t
  Trace-OnlyReads (fence_trace f e s t) = cc
  Trace-OnlyReads (stage_trace w t) = writable t
  Trace-OnlyReads (fence_again_trace w f s t) = staged_writable t
  Trace-OnlyReads (publish_trace w ref t) = cleared_writable t
  Trace-OnlyReads (noop_trace ref t) = writable t

  pub Stopped-OnlyReads : {h : History} → Stopped attempt true h → OnlyReads h
  Stopped-OnlyReads (stop_at p t) = Trace-OnlyReads t
  Stopped-OnlyReads (prepare_fails e t) = Trace-OnlyReads t
  Stopped-OnlyReads (download_fails e t) = Trace-OnlyReads t
  Stopped-OnlyReads (body_fails e t) = Trace-OnlyReads t
  Stopped-OnlyReads (fence_fails r e t) = cc
  Stopped-OnlyReads (stage_fails e t) = writable t
  Stopped-OnlyReads (fence_again_fails w r t) = staged_writable t
  Stopped-OnlyReads (publish_fails w e t) = cleared_writable t
  Stopped-OnlyReads (noop_fails e t) = writable t

pub cleaned-OnlyReads : (h : History) → OnlyReads h → OnlyReads (cleaned h)
cleaned-OnlyReads h a = dir (prepared_in h) _ (staging (staged_in h) h a)
  where
    staging :
        (o : Option StagedWorkspace) (h : History) → OnlyReads h → OnlyReads (clean_staging_of o h)
    staging none h a = a
    staging (some w) h a = a

    dir : (o : Option Text) (h : History) → OnlyReads h → OnlyReads (clean_workspace_of o h)
    dir none h a = a
    dir (some d) h a = a
