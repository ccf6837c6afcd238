-- ===== src/Execution/Artifacts.antt =====
-- `ArtifactGraph` of src/eag/execution_graph/graph.py: the constructor of the execution graph,
-- without a search for cycles.
use mathlib.Core.Path.{subst}
use text.Mathlib.TextEquality.{eq_iff}
use text.Mathlib.Text.{◌==◌ as str_eq}
use eag.Prelude.{
  ℕ, ◌≡◌, refl, sym, ap, ◌∙◌, Bool, true, ◌&&◌, ◌||◌, List, [], ◌∷◌, ◌++◌, String, Result, ok,
  ◌>>=◌, ◌>>◌, guard, length, any, ◌==◌, ==_iff, ok-injective, >>=-eq-ok, >>-eq-ok, guard-eq-ok,
  arith,
}
use eag.Prelude.Keys.{elem}
use eag.Graph.Links.{
  node_map, has_key, has_key-node_map, ids, Maps, no_links, link, children-link, parents-link,
  unique, node_map-unique,
}

-- The fields of `ArtifactNode` but its metadata.
pub record ArtifactNode : Type 0 where
  pub id : String
  pub path : String
  pub creator_worker_id : String
  pub version : ℕ

pub record ArtifactEdge : Type 0 where
  pub source : String
  pub target : String

pub data ArtifactError : Type 0 where
  duplicate_artifact : ArtifactError
  missing_artifact : String → ArtifactError

pub record ArtifactGraph : Type 0 where
  pub nodes : List ArtifactNode
  pub edges : List ArtifactEdge
  pub maps : Maps

abbrev pub artifact_id : ArtifactNode → String
artifact_id n = n.id

-- The loop over the edges.
unfoldable pub add_artifact_edges :
    List (String × ArtifactNode) → List ArtifactEdge → Maps → Result ArtifactError Maps
add_artifact_edges known [] m = ok m
add_artifact_edges known (e ∷ es) m = do
  guard (has_key e.source known) (missing_artifact e.source)
  guard (has_key e.target known) (missing_artifact e.target)
  add_artifact_edges known es (link e.source e.target m)

-- `ArtifactGraph.__init__`
unfoldable pub construct_artifacts :
    List ArtifactNode → List ArtifactEdge → Result ArtifactError ArtifactGraph
construct_artifacts nodes edges = do
  guard (length (node_map artifact_id [] nodes) == length nodes) duplicate_artifact
  m ← add_artifact_edges (node_map artifact_id [] nodes) edges no_links
  ok (record { nodes = nodes; edges = edges; maps = m })

unfoldable pub add_artifact : ArtifactGraph → ArtifactNode → Result ArtifactError ArtifactGraph
add_artifact g n = construct_artifacts (g.nodes ++ n ∷ []) g.edges

unfoldable pub add_artifact_edge : ArtifactGraph → ArtifactEdge → Result ArtifactError ArtifactGraph
add_artifact_edge g e = construct_artifacts g.nodes (g.edges ++ e ∷ [])

-- There is an edge with these ends.
abbrev pub joins : String → String → List ArtifactEdge → Bool
joins x y edges = any (λ e. str_eq e.source x && str_eq e.target y) edges

record Linked (nodes : List ArtifactNode) (edges : List ArtifactEdge) (m m' : Maps) : Type 0 where
  children : (x y : String) → elem y (m'.children x) ≡ (elem y (m.children x) || joins x y edges)
  parents : (x y : String) → elem x (m'.parents y) ≡ (elem x (m.parents y) || joins x y edges)
  known :
      (x y : String)
      → joins x y edges ≡ true
      → (elem x (ids artifact_id nodes) && elem y (ids artifact_id nodes)) ≡ true

module _ (nodes : List ArtifactNode) where
  add_artifact_edges-Linked :
      (edges : List ArtifactEdge) (m m' : Maps)
      → add_artifact_edges (node_map artifact_id [] nodes) edges m ≡ ok m'
      → Linked nodes edges m m'
  unfolding add_artifact_edges
  add_artifact_edges-Linked [] m m' h =
      let same = ok-injective h in
      record {
        children = λ x y. ground (arith, ap (λ k. elem y (k.children x)) same);
        parents = λ x y. ground (arith, ap (λ k. elem x (k.parents y)) same);
        known = λ x y e. cc;
      }
  add_artifact_edges-Linked (e ∷ es) m m' h =
      let (s, h₁) = >>-eq-ok (guard (has_key e.source (node_map artifact_id [] nodes)) _) _ h in
      let (t, rest) = >>-eq-ok (guard (has_key e.target (node_map artifact_id [] nodes)) _) _ h₁ in
      let source = sym (has_key-node_map artifact_id e.source nodes) ∙ guard-eq-ok _ _ s in
      let target = sym (has_key-node_map artifact_id e.target nodes) ∙ guard-eq-ok _ _ t in
      let ih = add_artifact_edges-Linked es (link e.source e.target m) m' rest in
      record {
        children = λ x y. ground (arith, ih.children x y, children-link e.source e.target m x y);
        parents = λ x y. ground (arith, ih.parents x y, parents-link e.source e.target m x y);
        known = λ x y j.
            ground (arith, ih.known x y, source, target, eq_iff e.source x, eq_iff e.target y);
      }

-- A graph of artifacts that was constructed.
pub record IsLinked (nodes : List ArtifactNode) (edges : List ArtifactEdge) (g : ArtifactGraph)
    : Type 0 where
  pub nodes_kept : g.nodes ≡ nodes
  pub edges_kept : g.edges ≡ edges
  pub once : unique (ids artifact_id g.nodes) ≡ true
  pub children_exact : (x y : String) → elem y (g.maps.children x) ≡ joins x y g.edges
  pub parents_exact : (x y : String) → elem x (g.maps.parents y) ≡ joins x y g.edges
  pub known :
      (x y : String)
      → joins x y g.edges ≡ true
      → (elem x (ids artifact_id g.nodes) && elem y (ids artifact_id g.nodes)) ≡ true

-- A graph of artifacts that is made has the given nodes and edges; its artifacts are distinct, its
-- edges have known ends, and its maps hold exactly its edges.
pub construct_artifacts-IsLinked :
    (nodes : List ArtifactNode) (edges : List ArtifactEdge) (g : ArtifactGraph)
    → construct_artifacts nodes edges ≡ ok g
    → IsLinked nodes edges g
unfolding construct_artifacts
construct_artifacts-IsLinked nodes edges g h =
    let (u, h₁) = >>-eq-ok (guard (length (node_map artifact_id [] nodes) == length nodes) _) _ h in
    let (m, linked, made) =
      >>=-eq-ok (add_artifact_edges (node_map artifact_id [] nodes) edges no_links) _ h₁ in
    let l = add_artifact_edges-Linked nodes edges no_links m linked in
    subst (IsLinked nodes edges) (ok-injective made) (record {
      nodes_kept = refl;
      edges_kept = refl;
      once = node_map-unique artifact_id nodes ((==_iff _ _).0 (guard-eq-ok _ _ u));
      children_exact = l.children;
      parents_exact = l.parents;
      known = l.known;
    })
