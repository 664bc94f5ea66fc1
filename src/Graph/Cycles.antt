-- ===== src/Graph/Cycles.antt =====
-- cosheaf/graph/claim_graph.py: `_find_cycles`. The recursion of `visit` runs on fuel, and `none`
-- means that the fuel ran out. The stack is passed down, with its last element first, since every
-- call leaves it as it found it. A set is a list without repetitions.
use tcs_cosheaf.Base.{
  String, ℕ, zero, suc, Bool, true, false, List, [], ◌∷◌, ◌++◌, Option, none, some, if◌then◌else◌,
  any, str_eq, not_gt, key_order,
}

-- `text in texts`
unfoldable pub elem : String → List String → Bool
elem text texts = any (λ t. str_eq t text) texts

-- `stack[stack.index(id):] + [id]`
abbrev pub cycle_from : String → List String → List String → List String
cycle_from id [] found = found
cycle_from id (s ∷ ss) found = if str_eq s id then s ∷ found else cycle_from id ss (s ∷ found)

-- All rotations of `before + after`, each closed by its first element, from the start of `after` on.
abbrev rotations : List String → List String → List (List String)
rotations before [] = []
rotations before (m ∷ after_it) =
    ((m ∷ after_it) ++ (before ++ (m ∷ []))) ∷ rotations (before ++ (m ∷ [])) after_it

abbrev pub cycle_le : List String → List String → Bool
unfolding key_order
cycle_le a b = not_gt (key_order a b)

-- `min(rotations)`
abbrev least : List String → List (List String) → List String
unfolding cycle_le
least best [] = best
least best (r ∷ rs) = if cycle_le best r then least best rs else least r rs

abbrev pub least_of : List (List String) → List String
unfolding least
least_of [] = []
least_of (r ∷ rs) = least r rs

-- `cycle[:-1]`
abbrev members : List String → List String
members [] = []
members (c ∷ []) = []
members (c ∷ d ∷ cs) = c ∷ members (d ∷ cs)

unfoldable pub canonical_cycle : List String → List String
unfolding least_of
canonical_cycle cycle = least_of (rotations [] (members cycle))

pub record SearchState : Type 0 where
  pub cycles : List (List String)
  pub visited : List String

abbrev pub same_cycle : List String → List String → Bool
same_cycle [] [] = true
same_cycle (a ∷ xs) (b ∷ ys) = if str_eq a b then same_cycle xs ys else false
same_cycle _ _ = false

-- `cycles.add(cycle)`
unfoldable pub add_cycle : List String → List (List String) → List (List String)
add_cycle cycle cycles = if any (same_cycle cycle) cycles then cycles else cycle ∷ cycles

-- The loop over the dependencies.
unfoldable pub visit_all :
    (String → SearchState → Option SearchState) → List String → SearchState → Option SearchState
visit_all step [] state = some state
visit_all step (d ∷ ds) state = elim (step d state) [
  | none ↦ none
  | some next ↦ visit_all step ds next
]

abbrev pub finish : String → SearchState → SearchState
finish id state = record state { visited = id ∷ state.visited }

abbrev pub with_cycle : List String → String → SearchState → SearchState
with_cycle stack id state = record state {
  cycles = add_cycle (canonical_cycle (cycle_from id stack (id ∷ []))) state.cycles;
}

module _ (adjacency : String → List String) where
  unfoldable pub visit : ℕ → List String → String → SearchState → Option SearchState
  visit zero stack id state = none
  visit (suc fuel) stack id state =
      let walked = visit_all (visit fuel (id ∷ stack)) (adjacency id) state in
      if elem id stack
      then some (with_cycle stack id state)
      else if elem id state.visited
      then some state
      else elim walked [ none ↦ none | some next ↦ some (finish id next) ]
