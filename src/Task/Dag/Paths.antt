-- ===== src/Task/Dag/Paths.antt =====
-- Sets of task IDs, the edges of the dependency graph, and the paths along them.
use training_ops_scheduling.Base.{
  ℕ, suc, ◌≤◌, ◌<◌, ◌≡◌, refl, ◌⊎◌, String, true, false, List, [], ◌∷◌, arith, length, str_eq_iff,
  str_eq_refl,
}
use training_ops_scheduling.Base.Table.{lookup}
use training_ops_scheduling.Task.Dag.{contains, remove, Graph, dependencies, keys}

-- `b` is a dependency of `a`.
abbrev pub Edge : Graph → String → String → Type 0
Edge graph a b = contains b (dependencies graph a) ≡ true

-- A path of at least one edge.
pub data Leads (graph : Graph) : String → String → Type 0 where
  one : {a b : String} → Edge graph a b → Leads graph a b
  more : {a b c : String} → Edge graph a b → Leads graph b c → Leads graph a c

pub Leads-snoc :
    {graph : Graph} {a b c : String} → Leads graph a b → Edge graph b c → Leads graph a c
Leads-snoc (one e) f = more e (one f)
Leads-snoc (more e l) f = more e (Leads-snoc l f)

pub record HasCycle (graph : Graph) : Type 0 where
  pub node : String
  pub loop : Leads graph node node

pub contains-cons_self : (id : String) (xs : List String) → contains id (id ∷ xs) ≡ true
unfolding contains
contains-cons_self id xs = ground (arith, str_eq_refl id)

pub contains-cons_of :
    (a id : String) (xs : List String) → contains a xs ≡ true → contains a (id ∷ xs) ≡ true
unfolding contains
contains-cons_of a id xs h = ground arith

pub contains-cons-cases :
    (a id : String) (xs : List String)
    → contains a (id ∷ xs) ≡ true
    → (a ≡ id) ⊎ (contains a xs ≡ true)
unfolding contains
contains-cons-cases a id xs h = ground (arith, str_eq_iff id a)

pub remove-absent : (id : String) (xs : List String) → contains id xs ≡ false → remove id xs ≡ xs
unfolding contains remove
remove-absent id [] h = refl
remove-absent id (x ∷ xs) h = ground (arith, remove-absent id xs)

pub remove-cons :
    (id : String) (xs : List String) → contains id xs ≡ false → remove id (id ∷ xs) ≡ xs
unfolding contains remove
remove-cons id xs h = ground (arith, str_eq_refl id, remove-absent id xs)

-- A node with a dependency is a key of the graph.
pub Edge-key : (graph : Graph) (a b : String) → Edge graph a b → contains a (keys graph) ≡ true
unfolding contains dependencies lookup keys
Edge-key [] a b e = cc
Edge-key ((id, ids) ∷ rest) a b e = ground (arith, Edge-key rest a b)

-- How many of the nodes have not been visited.
pub unvisited : List String → List String → ℕ
unvisited [] visited = 0
unvisited (id ∷ ids) visited =
    let rest = unvisited ids visited in
    elim (contains id visited) [ true ↦ rest | false ↦ suc rest ]

abbrev pub Grows : List String → List String → Type 0
Grows xs ys = (a : String) → contains a xs ≡ true → contains a ys ≡ true

pub unvisited_mono : (ids xs ys : List String) → Grows xs ys → unvisited ids ys ≤ unvisited ids xs
unfolding unvisited
unvisited_mono [] xs ys h = omega arith
unvisited_mono (id ∷ ids) xs ys h = ground (arith, h id, unvisited_mono ids xs ys h)

-- Visiting a node that was not visited leaves fewer to visit.
pub unvisited-cons :
    (id : String) (ids visited : List String)
    → contains id ids ≡ true
    → contains id visited ≡ false
    → unvisited ids (id ∷ visited) < unvisited ids visited
unfolding unvisited contains
unvisited-cons id [] visited h fresh = cc
unvisited-cons id (x ∷ xs) visited h fresh = ground (
  arith,
  str_eq_iff id x,
  str_eq_iff x id,
  unvisited_mono xs visited (id ∷ visited) (λ a. contains-cons_of a id visited),
  unvisited-cons id xs visited,
)

pub unvisited-le-length : (ids visited : List String) → unvisited ids visited ≤ length ids
unfolding unvisited
unvisited-le-length [] visited = omega arith
unvisited-le-length (id ∷ ids) visited = ground (arith, unvisited-le-length ids visited)
