-- ===== src/Task/Dag/Search.antt =====
-- The search for a cycle: with enough fuel a call finds a cycle that is there, or leaves every node
-- that it reached finished, with finished dependencies and on no cycle.
use training_ops_scheduling.Base.{
  ◌≡◌, refl, sym, subst, ◌∙◌, ◌⊎◌, inl, inr, String, true, false, none, some, List, [], ◌∷◌, arith,
  Bool-cases, str_eq, str_eq_iff,
}
use training_ops_scheduling.Task.Dag.{
  contains, Graph, dependencies, Marks, Visit, unless_found, visit_each, enter,
}
use training_ops_scheduling.Task.Dag.Paths.{
  Edge, Leads, one, more, HasCycle, contains-cons_self, contains-cons_of, contains-cons-cases,
  Grows,
}

-- The node was visited and its visit is over.
pub record Finished (m : Marks) (a : String) : Type 0 where
  pub seen : contains a m.visited ≡ true
  pub left : contains a m.stack ≡ false

-- Finished nodes lead to finished nodes only, and lie on no cycle.
pub record Inv (graph : Graph) (m : Marks) : Type 0 where
  pub marked : Grows m.stack m.visited
  pub closed : (a b : String) → Finished m a → Edge graph a b → Finished m b
  pub acyclic : (a : String) → Finished m a → ¬ Leads graph a a

-- What a call that finds no cycle leaves behind.
pub record After (graph : Graph) (m m' : Marks) : Type 0 where
  pub inv : Inv graph m'
  pub grows : Grows m.visited m'.visited
  pub same : m'.stack ≡ m.stack

-- A call that is over found a cycle of the graph, or left things in order and made `Q` true.
abbrev pub Ends : Graph → Marks → (Marks → Type 0) → Visit → Type 0
Ends graph m Q none = ⊥
Ends graph m Q (some (true, m')) = HasCycle graph
Ends graph m Q (some (false, m')) = After graph m m' × Q m'

module _ (graph : Graph) where
  Finished-After : {m m' : Marks} (a : String) → After graph m m' → Finished m a → Finished m' a
  Finished-After {m} {m'} a after f = record {
    seen = after.grows a f.seen;
    left = subst (λ s. contains a s ≡ false) (sym after.same) f.left;
  }

  Finished-Leads :
      {m : Marks} {a b : String} → Inv graph m → Finished m a → Leads graph a b → Finished m b
  Finished-Leads inv f (one e) = inv.closed _ _ f e
  Finished-Leads inv f (more e l) = Finished-Leads inv (inv.closed _ _ f e) l

  After-trans : {m n p : Marks} → After graph m n → After graph n p → After graph m p
  After-trans {m} {n} {p} f g = record {
    inv = g.inv;
    grows = λ a h. g.grows a (f.grows a h);
    same = g.same ∙ f.same;
  }

  pub unless_found-Ends :
      (m n : Marks) (Q R : Marks → Type 0) (v : Visit) (next : Marks → Visit)
      → Ends graph n Q v
      → ((m' : Marks) → After graph n m' → Q m' → Ends graph m R (next m'))
      → Ends graph m R (unless_found v next)
  unfolding unless_found
  unless_found-Ends m n Q R none next h k = absurd h
  unless_found-Ends m n Q R (some (true, m')) next h k = h
  unless_found-Ends m n Q R (some (false, m')) next h k = k m' h.0 h.1

  pub Ends-from :
      {m n : Marks} (Q : Marks → Type 0) (v : Visit)
      → After graph m n
      → Ends graph n Q v
      → Ends graph m Q v
  Ends-from Q none f h = h
  Ends-from Q (some (true, m')) f h = h
  Ends-from Q (some (false, m')) f h = (After-trans f h.0, h.1)

  pub Ends-map :
      {m : Marks} (Q R : Marks → Type 0) (v : Visit)
      → ((m' : Marks) → After graph m m' → Q m' → R m')
      → Ends graph m Q v
      → Ends graph m R v
  Ends-map Q R none f h = h
  Ends-map Q R (some (true, m')) f h = h
  Ends-map Q R (some (false, m')) f h = (h.0, f m' h.0 h.1)

  abbrev pub AllFinished : List String → Marks → Type 0
  AllFinished ids m = (a : String) → contains a ids ≡ true → Finished m a

  -- A loop of calls, each of which ends with its node finished, ends with all of them finished.
  pub visit_each-Ends :
      (call : String → Marks → Visit) (P : Marks → Type 0)
      → ((m m' : Marks) → P m → After graph m m' → P m')
      → (ids : List String)
      → ((id : String) (m : Marks)
          → contains id ids ≡ true
          → P m
          → Inv graph m
          → Ends graph m (λ m'. Finished m' id) (call id m))
      → (m : Marks) → P m
      → Inv graph m
      → Ends graph m (AllFinished ids) (visit_each call ids m)
  unfolding visit_each contains
  visit_each-Ends call P keep [] ends m p inv =
      (record { inv = inv; grows = λ a h. h; same = refl }, λ a h. cc)
  visit_each-Ends call P keep (id ∷ ids) ends m p inv =
      unless_found-Ends m m (λ m'. Finished m' id) (AllFinished (id ∷ ids)) (call id m)
        (visit_each call ids) (ends id m (contains-cons_self id ids) p inv)
        (λ m' after done. Ends-from (AllFinished (id ∷ ids)) (visit_each call ids m') after (
          Ends-map (AllFinished ids) (AllFinished (id ∷ ids)) (visit_each call ids m')
            (λ m'' later all a h. elim (contains-cons-cases a id ids h) [
              | inl same ↦ subst (Finished m'') (sym same) (Finished-After id later done)
              | inr among ↦ all a among
            ])
            (visit_each-Ends call P keep ids (λ id' n h. ends id' n (contains-cons_of id' id ids h))
              m' (keep m m' p after) after.inv)))

-- A visit to a node that is neither visited nor on the stack.
module _ (graph : Graph) (id : String) (m : Marks) (inv : Inv graph m)
    (off_stack : contains id m.stack ≡ false) (fresh : contains id m.visited ≡ false) where
  Finished-enter : (a : String) → Finished m a → Finished (enter id m) a
  unfolding contains
  Finished-enter a f =
      let seen = f.seen in
      record { seen = ground arith; left = let left = f.left in ground (arith, str_eq_iff id a) }

  Finished-unenter : (a : String) → Finished (enter id m) a → Finished m a
  unfolding contains
  Finished-unenter a f =
      let seen = f.seen in let left = f.left in record { seen = ground arith; left = ground arith }

  pub enter-Inv : Inv graph (enter id m)
  enter-Inv = record {
    marked = λ a h. elim (contains-cons-cases a id m.stack h) [
      | inl same ↦
          subst (λ x. contains x (id ∷ m.visited) ≡ true) (sym same)
            (contains-cons_self id m.visited)
      | inr among ↦ contains-cons_of a id m.visited (inv.marked a among)
    ];
    closed = λ a b f e. Finished-enter b (inv.closed a b (Finished-unenter a f) e);
    acyclic = λ a f. inv.acyclic a (Finished-unenter a f);
  }

  module _ (m' : Marks) (after : After graph (enter id m) m')
      (all : AllFinished graph (dependencies graph id) m') where
    abbrev pub left_marks : Marks
    left_marks = record { visited = m'.visited; stack = m.stack }

    Finished-leave : (a : String) → Finished m' a → Finished left_marks a
    unfolding contains
    Finished-leave a f =
        let left : contains a (id ∷ m.stack) ≡ false =
          subst (λ s. contains a s ≡ false) after.same f.left in
        record { seen = f.seen; left = ground arith }

    Finished-unleave : (a : String) → Finished left_marks a → (a ≡ id) ⊎ Finished m' a
    unfolding contains
    Finished-unleave a f = elim (Bool-cases (str_eq id a)) [
      | inl same ↦ inl (sym ((str_eq_iff id a).0 same))
      | inr other ↦
          let off : contains a m.stack ≡ false = f.left in
          inr (record {
            seen = f.seen;
            left = subst (λ s. contains a s ≡ false) (sym after.same) (ground arith);
          })
    ]

    on_stack : ¬ Finished m' id
    on_stack f =
        let off = f.left in
        let held : contains id m'.stack ≡ true =
          subst (λ s. contains id s ≡ true) (sym after.same) (contains-cons_self id m.stack) in
        cc

    no_loop : ¬ Leads graph id id
    no_loop (one e) = on_stack (all id e)
    no_loop (more e l) = on_stack (Finished-Leads graph after.inv (all _ e) l)

    pub leave-After : After graph m left_marks × Finished left_marks id
    leave-After = (
      record {
        inv = record {
          marked = λ a h. after.grows a (contains-cons_of a id m.visited (inv.marked a h));
          closed = λ a b f e. elim (Finished-unleave a f) [
            | inl same ↦ Finished-leave b (all b (subst (λ x. Edge graph x b) same e))
            | inr old ↦ Finished-leave b (after.inv.closed a b old e)
          ];
          acyclic = λ a f l. elim (Finished-unleave a f) [
            | inl same ↦ no_loop (subst (λ x. Leads graph x x) same l)
            | inr old ↦ after.inv.acyclic a old l
          ];
        };
        grows = λ a h. after.grows a (contains-cons_of a id m.visited h);
        same = refl;
      },
      record { seen = after.grows id (contains-cons_self id m.visited); left = off_stack },
    )
