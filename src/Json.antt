-- ===== src/Json.antt =====
-- JSON values as encoding/json yields them in an `interface{}`.
pub mod Decode
use consent_plugin.Common.{String, Bool, List, [], ◌∷◌}
use consent_plugin.Common.Map.{Map, put}

-- A number keeps its literal; an array and an object are lists of their own.
mutual
  pub data Value : Type 0 where
    null : Value
    bool : Bool → Value
    num : String → Value
    str : String → Value
    arr : Items → Value
    obj : Members → Value

  pub data Items : Type 0 where
    nil : Items
    cons : Value → Items → Items

  pub data Members : Type 0 where
    end : Members
    member : String → Value → Members → Members

unfoldable pub items : Items → List Value
items nil = []
items (cons v vs) = v ∷ items vs

-- `map[string]interface{}` from an object: a later member replaces an earlier one of the same name.
unfoldable pub add_members : Map Value → Members → Map Value
add_members m end = m
add_members m (member k v rest) = add_members (put k v m) rest

unfoldable pub to_map : Members → Map Value
unfolding add_members put
to_map ms = add_members [] ms
