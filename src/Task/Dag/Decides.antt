-- ===== src/Task/Dag/Decides.antt =====
-- ValidateDAG decides whether the dependencies of the tasks have a cycle.
use training_ops_scheduling.Base.{
  ℕ, zero, suc, ◌<◌, ◌≡◌, ◌≢◌, ◌↔◌, refl, sym, subst, ap, ◌∙◌, ◌⊎◌, inl, inr, String, true, false,
  none, some, List, [], ◌∷◌, arith, length, Bool-cases,
}
use training_ops_scheduling.Task.Data.{Task, TaskError}
use training_ops_scheduling.Task.Dag.{
  contains, remove, Graph, dependencies, keys, Marks, Visit, visit_each, enter, leave, visit,
  search_graph, verdict, validate_dag, build_graph,
}
use training_ops_scheduling.Task.Dag.Paths.{
  Leads, one, more, Leads-snoc, HasCycle, contains-cons-cases, remove-cons, Edge-key, unvisited,
  Grows, unvisited_mono, unvisited-cons, unvisited-le-length,
}
use training_ops_scheduling.Task.Dag.Search.{
  Finished, Inv, After, Ends, AllFinished, unless_found-Ends, visit_each-Ends, enter-Inv,
  leave-After,
}

module _ (graph : Graph) where
  -- The nodes on the stack lead to the node, and the fuel suffices.
  record Ready (fuel : ℕ) (id : String) (m : Marks) : Type 0 where
    inv : Inv graph m
    trail : (a : String) → contains a m.stack ≡ true → Leads graph a id
    enough : unvisited (keys graph) m.visited < fuel

  leave-Ends :
      (id : String) (m m' : Marks)
      → m'.stack ≡ id ∷ m.stack
      → contains id m.stack ≡ false
      → (let left : Marks = record { visited = m'.visited; stack = m.stack } in
          After graph m left × Finished left id)
      → Ends graph m (λ n. Finished n id) (leave id m')
  unfolding leave
  leave-Ends id m m' same off h =
      let back : remove id m'.stack ≡ m.stack = ap (remove id) same ∙ remove-cons id m.stack off in
      subst
        (λ s.
          Ends graph m (λ n. Finished n id)
            (some (false, record { visited = m'.visited; stack = s })))
        (sym back) h

  -- The loop over the dependencies of a node that is visited for the first time.
  visit_each-dependencies-Ends :
      (fuel : ℕ)
      → ((d : String) (m : Marks)
          → Ready fuel d m
          → Ends graph m (λ m'. Finished m' d) (visit graph fuel d m))
      → (id : String) (m : Marks) → Ready (suc fuel) id m
      → contains id m.stack ≡ false
      → contains id m.visited ≡ false
      → Ends graph
          (enter id m)
          (AllFinished graph (dependencies graph id))
          (visit_each (visit graph fuel) (dependencies graph id) (enter id m))
  visit_each-dependencies-Ends fuel call id m r off fresh =
      visit_each-Ends graph (visit graph fuel)
        (λ n. (n.stack ≡ id ∷ m.stack) × Grows (id ∷ m.visited) n.visited)
        (λ n n' p after. (after.same ∙ p.0, λ a h. after.grows a (p.1 a h))) (dependencies graph id)
        (λ d n edge p inv. call d n (record {
          inv = inv;
          trail = λ a h.
              elim (contains-cons-cases a id m.stack (subst (λ s. contains a s ≡ true) p.0 h)) [
                | inl same ↦ subst (λ x. Leads graph x d) (sym same) (one edge)
                | inr below ↦ Leads-snoc (r.trail a below) edge
              ];
          enough =
              let enough = r.enough in
              omega (
                arith,
                enough,
                unvisited_mono (keys graph) (id ∷ m.visited) n.visited p.1,
                unvisited-cons id (keys graph) m.visited (Edge-key graph id d edge) fresh,
              );
        }))
        (enter id m) (refl, λ a h. h) (enter-Inv graph id m r.inv off fresh)

  visit-Ends :
      (fuel : ℕ) (id : String) (m : Marks)
      → Ready fuel id m
      → Ends graph m (λ m'. Finished m' id) (visit graph fuel id m)
  unfolding visit
  visit-Ends zero id m r = absurd (let enough = r.enough in omega arith)
  visit-Ends (suc fuel) id m r = elim (Bool-cases (contains id m.stack)) [
    | inl on ↦ rw (on, visit) (record { node = id; loop = r.trail id on })
    | inr off ↦ elim (Bool-cases (contains id m.visited)) [
      | inl seen ↦
          rw (off, visit, seen)
            (
              record { inv = r.inv; grows = λ a h. h; same = refl },
              record { seen = seen; left = off },
            )
      | inr fresh ↦
          rw (off, visit, fresh)
            (unless_found-Ends graph m (enter id m) (AllFinished graph (dependencies graph id))
              (λ m'. Finished m' id)
              (visit_each (visit graph fuel) (dependencies graph id) (enter id m)) (leave id)
              (visit_each-dependencies-Ends fuel (visit-Ends fuel) id m r off fresh)
              (λ m' after all.
                leave-Ends id m m' after.same off
                  (leave-After graph id m r.inv off fresh m' after all)))
    ]
  ]

  -- Where the outer loop stops: nothing is on the stack and the fuel is enough for every node.
  search_graph-Ends :
      Ends graph
        (record { visited = []; stack = [] })
        (AllFinished graph (keys graph))
        (search_graph graph)
  unfolding search_graph
  search_graph-Ends =
      visit_each-Ends graph (visit graph (suc (length (keys graph)))) (λ m. m.stack ≡ [])
        (λ m m' e after. after.same ∙ e) (keys graph)
        (λ id m among e inv. visit-Ends (suc (length (keys graph))) id m (record {
          inv = inv;
          trail = λ a h. absurd (
              let off : contains a [] ≡ true = subst (λ s. contains a s ≡ true) e h in
              let on : contains a [] ≡ false = refl in cc);
          enough = omega (arith, unvisited-le-length (keys graph) m.visited);
        }))
        (record { visited = []; stack = [] }) refl
        (record {
          marked = λ a h. h;
          closed =
              λ a b f e. absurd (let seen = f.seen in let on : contains a [] ≡ false = refl in cc);
          acyclic =
              λ a f. absurd (let seen = f.seen in let on : contains a [] ≡ false = refl in cc);
        })

-- What the search returns: an answer, and the answer is that there is a cycle where there is one.
Found : Graph → Visit → Type 0
Found graph v =
    ((marks : Marks) × (v ≡ some (true, marks)) × HasCycle graph)
    ⊎ ((marks : Marks) × (v ≡ some (false, marks)) × (¬ HasCycle graph))

Leads-key : {graph : Graph} {a b : String} → Leads graph a b → contains a (keys graph) ≡ true
Leads-key (one e) = Edge-key _ _ _ e
Leads-key (more e l) = Edge-key _ _ _ e

Ends-Found :
    (graph : Graph) (v : Visit)
    → Ends graph (record { visited = []; stack = [] }) (AllFinished graph (keys graph)) v
    → Found graph v
unfolding Found
Ends-Found graph none h = absurd h
Ends-Found graph (some (true, marks)) h = inl (marks, refl, h)
Ends-Found graph (some (false, marks)) h =
    inr (marks, refl, λ c. h.0.inv.acyclic c.node (h.1 c.node (Leads-key c.loop)) c.loop)

-- The search answers within its fuel, and `validate_dag` reports a cycle exactly when some task
-- depends on itself, directly or through other tasks.
pub validate_dag-cycle_iff :
    (tasks : List Task)
    → (search_graph (build_graph tasks) ≢ none)
      × ((validate_dag tasks ≡ some TaskError.task_cycle_detected) ↔ HasCycle (build_graph tasks))
      × ((validate_dag tasks ≡ none) ↔ (¬ HasCycle (build_graph tasks)))
unfolding validate_dag Found
validate_dag-cycle_iff tasks =
    let graph = build_graph tasks in
    elim (Ends-Found graph (search_graph graph) (search_graph-Ends graph)) [
      | inl (marks, e, cycle) ↦
          let says : verdict (search_graph graph) ≡ some TaskError.task_cycle_detected =
            rw (e, verdict) refl in
          (
            λ h. cc,
            (λ _. cycle, λ _. says),
            (λ h. absurd (cc), λ none_there. absurd (none_there cycle)),
          )
      | inr (marks, e, acyclic) ↦
          let says : verdict (search_graph graph) ≡ none = rw (e, verdict) refl in
          (λ h. cc, (λ h. absurd (cc), λ cycle. absurd (acyclic cycle)), (λ _. acyclic, λ _. says))
    ]
