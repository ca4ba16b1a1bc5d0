-- ===== src/Tests/Collecting.antt =====
-- A collection that finds a workspace in use and one that was left behind.
use perago.Base.{
  ℕ, true, false, Text, text, text_eq, text_in, ◌≡◌, ◌↔◌, refl, Option, none, some, List, [], ◌∷◌,
  ◌++◌,
}
use perago.Errors.{Outcome, ok, raised, value_error}
use perago.Value.{Value, dict, field, end, str, str_key, int}
use perago.Models.{field_value}
use perago.Workspace.Gc.{
  json, read_raises, Found, Collection, read_gc_marker, garbage_collect_attempt_workspaces,
}
use perago.Workspace.Gc.Removes.{AbandonedIn, garbage_collect_iff}

abbrev marker_of : Text → Value
marker_of token = dict (
    field (str_key (text "owner_worker_id")) (str (text "w")) (
      field (str_key (text "owner_pid")) (int false 7) (
        field (str_key (text "owner_token")) (str token) (
          field (str_key (text "execution_id")) (str (text "e"))
            (field (str_key (text "started_at")) (str (text "then")) end)))))

abbrev two_found : List Found
two_found =
    record { directory = text "a"; inside = true; content = json (marker_of (text "used")) }
    ∷ record { directory = text "b"; inside = true; content = json (marker_of (text "lost")) }
    ∷ []

abbrev sweep : Collection
sweep = record {
  ttl = 5;
  active_process_owners = [];
  active_owner_tokens = text "used" ∷ [];
  target_process_owner = none;
  now = 20;
}

abbrev at_ten : Text → Option ℕ
at_ten t = some 10

abbrev removes : List Text → Text → Outcome (Unit {0})
removes calls directory = ok tt

sweep_lem :
    garbage_collect_attempt_workspaces sweep at_ten removes two_found []
    ≡ (ok (text "b" ∷ []), text "b" ∷ [])
unfolding garbage_collect_attempt_workspaces field_value text text_eq text_in read_gc_marker
sweep_lem = refl

garbage_collect_iff_example :
    (text "b" ∷ [] ≡ [] ++ text "b" ∷ [])
    × ((text_in (text "a") (text "b" ∷ []) ≡ true) ↔ AbandonedIn sweep at_ten two_found (text "a"))
garbage_collect_iff_example =
    garbage_collect_iff sweep at_ten removes two_found [] (text "b" ∷ []) (text "b" ∷ []) (text "a")
      sweep_lem

-- A marker that is no UTF-8 ends the collection.
abbrev broken_marker : List Found
broken_marker =
    record {
      directory = text "a";
      inside = true;
      content = read_raises (value_error (text "utf-8"));
    }
    ∷ two_found

broken_marker_test :
    garbage_collect_attempt_workspaces sweep at_ten removes broken_marker []
    ≡ (raised (value_error (text "utf-8")), [])
unfolding garbage_collect_attempt_workspaces read_gc_marker
broken_marker_test = refl
