-- ===== src/TaskDef/Schemas.antt =====
-- `perago/taskdef.py`: the schema of a model.
use perago.Base.{ℕ, Bool, true, false, text, ◌≡◌}
use perago.Errors.{ok, >>=-eq-ok}
use perago.Value.{Value, Fields}
use perago.Config.Loaded.{ok-injective}
use perago.TaskDef.{
  get_field, defs_of, inline_refs, finished, strip_model_metadata, schema_for_model,
}
use perago.TaskDef.Inlined.{no_refs, visit-Visits}
use perago.TaskDef.Closed.{closed, closed-set_extra, no_refs-set_extra}
use perago.TaskDef.Kept.{strip_titles, no_refs-strip}
use perago.TaskDef.Titles.{untitled, untitled-strip, untitled-set_extra}

-- Whatever pydantic gives for a model: the schema that is made of it refers to no definition, says
-- in every object schema whether other properties are allowed, as it is asked to, and has no title
-- but the names of properties.
pub schema_for_model_lem :
    (depth : ℕ) (schema : Fields) (allow_extra : Bool) (v : Value)
    → schema_for_model depth schema allow_extra ≡ ok v
    → (no_refs v ≡ true) × (closed allow_extra v ≡ true) × (untitled false v ≡ true)
unfolding schema_for_model inline_refs
schema_for_model_lem depth schema allow_extra v h =
    let (inlined, e, made) = >>=-eq-ok (inline_refs depth (strip_model_metadata schema)) _ h in
    let s : finished allow_extra inlined ≡ v = ok-injective made in
    let plain =
      (visit-Visits depth (defs_of (get_field (text "$defs") (strip_model_metadata schema))) _
        inlined e).0 in
    rw (← s) (
      no_refs-set_extra allow_extra (strip_titles false inlined)
          (no_refs-strip false inlined plain),
      closed-set_extra allow_extra (strip_titles false inlined),
      untitled-set_extra false allow_extra (strip_titles false inlined)
          (untitled-strip false inlined),
    )
