-- ===== src/Value.antt =====
-- What a task hands over as failure metadata: the Python objects that `perago/failure_output.py`
-- tells apart. An object of any other class (a tuple, a subclass of `str`, a `Path`) is `other`.
-- A container that holds itself has no value here; Python meets the recursion limit in it.
pub mod Snapshot
use perago.Base.{ℕ, Bool, Text}

-- A key of a `dict`: an instance of `str`, or another object.
pub data Key : Type 0 where
  str_key : Text → Key
  other_key : ℕ → Key

mutual
  pub data Value : Type 0 where
    none_value : Value
    str : Text → Value
    bool : Bool → Value
    -- sign (true for a negative one) and magnitude
    int : Bool → ℕ → Value
    -- whether `math.isfinite` holds of it, and the number
    float : Bool → ℕ → Value
    dict : Fields → Value
    list : Items → Value
    other : ℕ → Value

  pub data Fields : Type 0 where
    end : Fields
    field : Key → Value → Fields → Fields

  pub data Items : Type 0 where
    nil : Items
    cons : Value → Items → Items
