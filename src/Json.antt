-- ===== src/Json.antt =====
-- The values that ride in events, command params and frames: what `json.loads` gives. A float is
-- kept by its spelling, since the code modelled here never computes with one.
use storm_pulse.Base.{String, Bool, true, false, List, [], ◌∷◌}
use storm_pulse.Base.Int.{ℤ}
use storm_pulse.Base.Dict.{Dict}

mutual
  pub data Json : Type 0 where
    null : Json
    bool : Bool → Json
    int : ℤ → Json
    float : String → Json
    str : String → Json
    arr : Items → Json
    obj : Fields → Json

  pub data Items : Type 0 where
    nil : Items
    cons : Json → Items → Items

  pub data Fields : Type 0 where
    end : Fields
    field : String → Json → Fields → Fields

-- The items of a JSON object, in order.
abbrev pub to_dict : Fields → Dict String Json
to_dict end = []
to_dict (field k v fs) = (k, v) ∷ to_dict fs

abbrev pub to_list : Items → List Json
to_list nil = []
to_list (cons v xs) = v ∷ to_list xs

-- isinstance(value, str)
abbrev pub is_str : Json → Bool
is_str (str s) = true
is_str _ = false

-- dict → the JSON object of its items.
abbrev pub of_dict : Dict String Json → Fields
of_dict [] = end
of_dict ((k, v) ∷ d) = field k v (of_dict d)

abbrev pub of_list : List Json → Items
of_list [] = nil
of_list (v ∷ xs) = cons v (of_list xs)
