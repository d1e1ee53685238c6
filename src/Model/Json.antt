-- ===== src/Model/Json.antt =====
-- JSON values, which the program writes as maps of Go. The order of the fields is that of the source;
-- the text is made by encoding/json.
use num_duel.Prelude.{ℕ, Bool, Option, none, some, List, [], ◌∷◌}
use num_duel.Model.Entities.{Text}

mutual
  pub data Json : Type 0 where
    null : Json
    bool : Bool → Json
    num : ℕ → Json
    str : Text → Json
    arr : Items → Json
    obj : Fields → Json

  pub data Items : Type 0 where
    nil : Items
    cons : Json → Items → Items

  pub data Fields : Type 0 where
    end : Fields
    field : Text → Json → Fields → Fields

-- A slice of values, each shown by `f`.
abbrev pub items_by {ℓ} : {A : Type ℓ} → (A → Json) → List A → Items
items_by f [] = nil
items_by f (x ∷ xs) = cons (f x) (items_by f xs)

abbrev pub rows_by {ℓ} : {A : Type ℓ} → (A → Json) → List A → Json
rows_by f xs = arr (items_by f xs)

-- A pointer, with null for nil.
abbrev pub optional {ℓ} : {A : Type ℓ} → (A → Json) → Option A → Json
optional f none = null
optional f (some a) = f a
