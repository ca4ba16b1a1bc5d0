-- ===== src/Workspace/Gc/Removes.antt =====
-- Exactly the abandoned workspaces are removed.
use mathlib.Core.List.{append-nil, append_assoc}
use perago.Base.{
  ℕ, ◌+◌, ◌≤◌, ltb, Bool, true, false, not, Text, text_in, text_in_here, text_in_later,
  text_in-cases, ◌≡◌, refl, sym, ◌∙◌, ◌↔◌, ◌⊎◌, inl, inr, arith, List, [], ◌∷◌, ◌++◌, ap, Option,
  none, some, any,
}
use perago.Errors.{Outcome, ok, raised}
use perago.Workspace.Gc.{
  Collected, appended, after_removal, MarkerData, Found, Collection, read_gc_marker, same_owner,
  is_target, is_abandoned, remove_if, collect_marker, require_inside,
  garbage_collect_attempt_workspaces,
}

-- The marker of `directory` can be read; its owner is the one that is asked for, if one is, and
-- neither its process nor its token is active; and it is at least `ttl` old.
pub record Abandoned (c : Collection) (parse : Text → Option ℕ) (f : Found) : Type 0 where
  pub marker : MarkerData
  pub readable : read_gc_marker parse f.content ≡ ok (some marker)
  pub asked_for : is_target c.target_process_owner marker.owner ≡ true
  pub process_gone : any (same_owner marker.owner) c.active_process_owners ≡ false
  pub token_gone : text_in marker.owner_token c.active_owner_tokens ≡ false
  pub old : marker.started_at + c.ttl ≤ c.now

-- A workspace that is abandoned stands at `directory`.
abbrev pub AbandonedIn : Collection → (Text → Option ℕ) → List Found → Text → Type 0
AbandonedIn c parse [] directory = ⊥
AbandonedIn c parse (f ∷ rest) directory =
    ((f.directory ≡ directory) × Abandoned c parse f) ⊎ AbandonedIn c parse rest directory

module _ (c : Collection) (parse : Text → Option ℕ)
    (rmtree : (calls : List Text) → Text → Outcome (Unit {0})) where
  -- The test of the loop says whether the workspace of a readable marker is abandoned.
  is_abandoned-Abandoned :
      (f : Found) (marker : MarkerData)
      → read_gc_marker parse f.content ≡ ok (some marker)
      → is_abandoned c marker ≡ true
      → Abandoned c parse f
  is_abandoned-Abandoned f marker read h = record {
    marker = marker;
    readable = read;
    asked_for = ground arith;
    process_gone = ground arith;
    token_gone = ground arith;
    old = ground arith;
  }

  Abandoned-is_abandoned :
      (f : Found) (marker : MarkerData)
      → read_gc_marker parse f.content ≡ ok (some marker)
      → Abandoned c parse f
      → is_abandoned c marker ≡ true
  Abandoned-is_abandoned f marker read a =
      let same : a.marker ≡ marker = some-eq (sym a.readable ∙ read) in rw same at (holds a)
    where
      some-eq : {a b : MarkerData} → ok (some a) ≡ ok (some b) → a ≡ b
      some-eq e = cc

      holds : (a : Abandoned c parse f) → is_abandoned c a.marker ≡ true
      holds a = rw (a.asked_for, a.process_gone, a.token_gone) (recent a.old)
        where
          recent : {x y : ℕ} → x ≤ y → not (ltb y x) ≡ true
          recent h = ground arith

  -- What one turn adds: the directory, if it is abandoned, or nothing.
  abbrev Turn :
      Found
      → (calls : List Text) (later : List Text → Collected) (removed last : List Text) → Type 0
  Turn f calls later removed last =
      ((later calls ≡ (ok removed, last)) × ¬ Abandoned c parse f)
      ⊎ ((rest : List Text) × (later (calls ++ f.directory ∷ []) ≡ (ok rest, last))
          × (removed ≡ f.directory ∷ rest)
          × Abandoned c parse f)

  appended-ok :
      (directory : Text) (r : Collected) (removed last : List Text)
      → appended directory r ≡ (ok removed, last)
      → (rest : List Text) × (r ≡ (ok rest, last)) × (removed ≡ directory ∷ rest)
  appended-ok directory (ok rest, calls) removed last h =
      let same : calls ≡ last = cc h in (rest, rw same refl, cc h)
  appended-ok directory (raised e, calls) removed last h = cc h

  after_removal-ok :
      (directory : Text) (o : Outcome (Unit {0})) (calls : List Text)
      (later : List Text → Collected) (removed last : List Text)
      → after_removal directory o calls later ≡ (ok removed, last)
      → (rest : List Text) × (later calls ≡ (ok rest, last)) × (removed ≡ directory ∷ rest)
  after_removal-ok directory (ok u) calls later removed last h =
      appended-ok directory (later calls) removed last h
  after_removal-ok directory (raised e) calls later removed last h = cc h

  remove_if-Turn :
      (f : Found) (marker : MarkerData) (b : Bool) (calls : List Text)
      (later : List Text → Collected) (removed last : List Text)
      → read_gc_marker parse f.content ≡ ok (some marker)
      → is_abandoned c marker ≡ b
      → remove_if c parse rmtree b f.directory calls later ≡ (ok removed, last)
      → Turn f calls later removed last
  remove_if-Turn f marker false calls later removed last read e h =
      inl (h, λ a. cc (Abandoned-is_abandoned f marker read a, e))
  remove_if-Turn f marker true calls later removed last read e h =
      let (rest, later_eq, same) =
        after_removal-ok f.directory (rmtree calls f.directory) (calls ++ f.directory ∷ []) later
          removed last h in
      inr (rest, later_eq, same, is_abandoned-Abandoned f marker read e)

  collect_marker-Turn :
      (f : Found) (o : Outcome (Option MarkerData)) (calls : List Text)
      (later : List Text → Collected) (removed last : List Text)
      → read_gc_marker parse f.content ≡ o
      → collect_marker c parse rmtree f.directory o calls later ≡ (ok removed, last)
      → Turn f calls later removed last
  collect_marker-Turn f (raised e) calls later removed last read h = cc h
  collect_marker-Turn f (ok none) calls later removed last read h =
      inl (h, λ a. cc (a.readable, read))
  collect_marker-Turn f (ok (some marker)) calls later removed last read h =
      remove_if-Turn f marker (is_abandoned c marker) calls later removed last read refl h

  inside-Turn :
      (f : Found) (b : Bool) (calls : List Text) (later : List Text → Collected)
      (removed last : List Text)
      → require_inside b calls
          (collect_marker c parse rmtree f.directory (read_gc_marker parse f.content) calls later)
        ≡ (ok removed, last)
      → Turn f calls later removed last
  inside-Turn f true calls later removed last h =
      collect_marker-Turn f (read_gc_marker parse f.content) calls later removed last refl h
  inside-Turn f false calls later removed last h = cc h

  ended :
      (calls removed last : List Text)
      → ◌≡◌ {A = Collected} (ok [], calls) (ok removed, last)
      → (removed ≡ []) × (last ≡ calls)
  ended calls removed last h = (cc h, cc h)

  -- A collection that returns has called `rmtree` on exactly the directories that it returns, in their
  -- order and behind the calls before, and they are exactly those of abandoned workspaces: with a
  -- readable marker, of the owner that is asked for, with no active process and no active token, and
  -- old enough.
  pub garbage_collect_iff :
      (found : List Found) (calls removed last : List Text) (directory : Text)
      → garbage_collect_attempt_workspaces c parse rmtree found calls ≡ (ok removed, last)
      → (last ≡ calls ++ removed)
        × ((text_in directory removed ≡ true) ↔ AbandonedIn c parse found directory)
  unfolding garbage_collect_attempt_workspaces text_in
  garbage_collect_iff [] calls removed last directory h =
      let (none_removed, no_call) = ended calls removed last h in
      rw (none_removed, no_call) (sym (append-nil calls), (λ e. cc e, λ e. absurd e))
  garbage_collect_iff (f ∷ rest) calls removed last directory h =
      elim (inside-Turn f f.inside calls _ removed last h) [
        | inl (same, kept) ↦
            let (made, later) = garbage_collect_iff rest calls removed last directory same in
            (
              made,
              (
                λ e. inr (later.0 e),
                λ a. elim a [ inl (_, here) ↦ absurd (kept here) | inr there ↦ later.1 there ],
              ),
            )
        | inr (others, same, removed_eq, gone) ↦
            let (made, later) =
              garbage_collect_iff rest (calls ++ f.directory ∷ []) others last directory same in
            (
              made
                  ∙ append_assoc calls (f.directory ∷ []) others
                  ∙ ap (λ (r : List Text). calls ++ r) (sym removed_eq),
              (
                λ e. elim (text_in-cases directory f.directory others (rw removed_eq at e)) [
                  | inl here ↦ inl (sym here, gone)
                  | inr there ↦ inr (later.0 there)
                ],
                λ a. elim a [
                  | inl (here, _) ↦ rw (removed_eq, here) (text_in_here directory others)
                  | inr there ↦
                      rw removed_eq (text_in_later directory f.directory others (later.1 there))
                ],
              ),
            )
      ]
