-- ===== src/Graph/Links.antt =====
-- What the constructors of src/eag/task_graph/graph.py and src/eag/execution_graph/graph.py share:
-- `_node_map`, `_children_map` and `_parents_map`. A map of lists of identifiers is a function, with
-- the empty list at a missing key (`.get(key, [])`).
use text.Mathlib.Text.{◌==◌ as str_eq}
use text.Mathlib.TextEquality.{eq_iff}
use text.Mathlib.TextPositions.{eq_refl}
use eag.Prelude.{
  suc, ◌+◌, ◌≤◌, ◌≡◌, refl, ◌∙◌, Bool, true, false, not, ◌&&◌, ◌||◌, List, [], ◌∷◌, ◌++◌, String,
  arith, length, map, if◌then◌else◌,
}
use eag.Prelude.Keys.{elem, elem-append}

module _ {N : Type 0} (id : N → String) where
  -- `node_map[key] = node`
  unfoldable pub put : N → List (String × N) → List (String × N)
  put n [] = (id n, n) ∷ []
  put n ((k, m) ∷ d) = if str_eq k (id n) then (k, n) ∷ d else (k, m) ∷ put n d

  -- `{n.id: n for n in nodes}`, from a dictionary that is given.
  unfoldable pub node_map : List (String × N) → List N → List (String × N)
  node_map d [] = d
  node_map d (n ∷ nodes) = node_map (put n d) nodes

  abbrev pub ids : List N → List String
  ids nodes = map id nodes

abbrev pub has_key : {N : Type 0} → String → List (String × N) → Bool
has_key k [] = false
has_key k ((j, m) ∷ d) = str_eq j k || has_key k d

-- No key stands twice.
abbrev pub unique : List String → Bool
unique [] = true
unique (k ∷ ks) = not (elem k ks) && unique ks

-- `map[key].append(value)`
unfoldable pub append_at : (String → List String) → String → String → String → List String
append_at f key value j = if str_eq key j then f j ++ value ∷ [] else f j

pub elem-append_at :
    (f : String → List String) (key value j x : String)
    → elem x (append_at f key value j) ≡ (elem x (f j) || (str_eq key j && str_eq value x))
unfolding append_at
elem-append_at f key value j x = ground (arith, elem-append x (f j) (value ∷ []))

-- The two maps that the constructor fills edge by edge.
pub record Maps : Type 0 where
  pub children : String → List String
  pub parents : String → List String

abbrev pub no_links : Maps
no_links = record { children = λ k. []; parents = λ k. [] }

unfoldable pub link : String → String → Maps → Maps
unfolding append_at
link source target m = record {
  children = append_at m.children source target;
  parents = append_at m.parents target source;
}

pub children-link :
    (source target : String) (m : Maps) (x y : String)
    → elem y ((link source target m).children x)
      ≡ (elem y (m.children x) || (str_eq source x && str_eq target y))
unfolding link
children-link source target m x y = elem-append_at m.children source target x y

pub parents-link :
    (source target : String) (m : Maps) (x y : String)
    → elem x ((link source target m).parents y)
      ≡ (elem x (m.parents y) || (str_eq source x && str_eq target y))
unfolding link
parents-link source target m x y = elem-append_at m.parents target source y x ∙ ground arith

module _ {N : Type 0} (id : N → String) where
  has_key-put :
      (k : String) (n : N) (d : List (String × N))
      → has_key k (put id n d) ≡ (has_key k d || str_eq (id n) k)
  unfolding put
  has_key-put k n [] = ground arith
  has_key-put k n ((j, m) ∷ d) =
      ground (arith, has_key-put k n d, eq_iff j (id n), eq_iff (id n) k, eq_iff j k)

  has_key-node_map_from :
      (k : String) (d : List (String × N)) (nodes : List N)
      → has_key k (node_map id d nodes) ≡ (has_key k d || elem k (ids id nodes))
  unfolding node_map
  has_key-node_map_from k d [] = ground arith
  has_key-node_map_from k d (n ∷ nodes) =
      ground (arith, has_key-node_map_from k (put id n d) nodes, has_key-put k n d)

  -- The dictionary's keys are the nodes' identifiers.
  pub has_key-node_map :
      (k : String) (nodes : List N) → has_key k (node_map id [] nodes) ≡ elem k (ids id nodes)
  has_key-node_map k nodes = has_key-node_map_from k [] nodes

  length-put :
      (n : N) (d : List (String × N))
      → length (put id n d) ≡ (if has_key (id n) d then length d else suc (length d))
  unfolding put
  length-put n [] = refl
  length-put n ((j, m) ∷ d) = ground (arith, length-put n d)

  length-node_map-le :
      (d : List (String × N)) (nodes : List N)
      → length (node_map id d nodes) ≤ length d + length nodes
  unfolding node_map
  length-node_map-le d [] = omega arith
  length-node_map-le d (n ∷ nodes) =
      ground (arith, length-node_map-le (put id n d) nodes, length-put n d)

  -- A dictionary that loses no node has met no identifier twice.
  unique_from :
      (d : List (String × N)) (nodes : List N)
      → length (node_map id d nodes) ≡ length d + length nodes
      → (unique (ids id nodes) ≡ true)
        × ((k : String) → elem k (ids id nodes) ≡ true → has_key k d ≡ false)
  unfolding node_map
  unique_from d [] h = (refl, λ k e. cc)
  unique_from d (n ∷ nodes) h =
      let fresh : has_key (id n) d ≡ false =
        ground (arith, length-put n d, length-node_map-le (put id n d) nodes) in
      let grows : length (put id n d) ≡ suc (length d) = ground (arith, length-put n d) in
      let (once, apart) = unique_from (put id n d) nodes (omega (arith, h, grows)) in
      (
        ground (arith, once, apart (id n), has_key-put (id n) n d, eq_refl (id n)),
        λ k e. ground (arith, apart k, has_key-put k n d, fresh, eq_iff (id n) k),
      )

  pub node_map-unique :
      (nodes : List N) → length (node_map id [] nodes) ≡ length nodes → unique (ids id nodes) ≡ true
  node_map-unique nodes h = (unique_from [] nodes (omega (arith, h))).0
