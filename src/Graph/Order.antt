-- ===== src/Graph/Order.antt =====
-- Topological orders of a graph that is given by its successors.
use tcs_cosheaf.Base.{String, List, [], ◌∷◌, ◌≡◌, inl, inr, In}

module _ (adjacency : String → List String) where
  -- A walk of at least one edge.
  pub data Reaches : String → String → Type 0 where
    edge : {u v : String} → In v (adjacency u) → Reaches u v
    then_on : {u v w : String} → In v (adjacency u) → Reaches v w → Reaches u w

  -- Every vertex of the list comes before all its successors.
  abbrev pub IsTopological : List String → Type 0
  IsTopological [] = Unit
  IsTopological (v ∷ vs) = ((d : String) → In d (adjacency v) → In d vs) × IsTopological vs

  -- Each vertex of the stack, whose last element comes first, has an edge to the next.
  abbrev pub IsChain : String → List String → Type 0
  IsChain id [] = Unit
  IsChain id (s ∷ ss) = In id (adjacency s) × IsChain s ss

  pub successor-In :
      (order : List String)
      → IsTopological order
      → (v d : String) → In v order
      → In d (adjacency v)
      → In d order
  successor-In [] h v d m e = elim m [ ]
  successor-In (x ∷ xs) h v d (inl same) e = inr (h.0 d (rw same e))
  successor-In (x ∷ xs) h v d (inr m) e = inr (successor-In xs h.1 v d m e)

  reached-In :
      (order : List String)
      → IsTopological order
      → {u v : String} → In u order
      → Reaches u v
      → In v order
  reached-In order h m (edge {u} {v} e) = successor-In order h u v m e
  reached-In order h m (then_on {u} {v} e r) = reached-In order h (successor-In order h u v m e) r

  -- No vertex of a topological order reaches itself.
  pub acyclic :
      (order : List String) → IsTopological order → (v : String) → In v order → Reaches v v → ⊥
  acyclic [] h v m r = elim m [ ]
  acyclic (x ∷ xs) h v (inr m) r = acyclic xs h.1 v m r
  acyclic (x ∷ xs) h v (inl same) r = acyclic xs h.1 v (back v v (rw same) r) r
    where
      back : (u w : String) → u ≡ x → Reaches u w → In w xs
      back u w e (edge m) = h.0 w (rw (← e) m)
      back t w e (then_on {u} {v} m rest) = reached-In xs h.1 (h.0 v (rw (← e) m)) rest

  joined : {u v w : String} → Reaches u v → Reaches v w → Reaches u w
  joined (edge e) r = then_on e r
  joined (then_on e s) r = then_on e (joined s r)

  -- Every vertex of the stack reaches the vertex that is visited.
  pub chain-Reaches :
      (id : String) (stack : List String)
      → IsChain id stack
      → (s : String) → In s stack
      → Reaches s id
  chain-Reaches id [] h s m = elim m [ ]
  chain-Reaches id (x ∷ xs) h s (inl same) = edge (rw (← same) h.0)
  chain-Reaches id (x ∷ xs) h s (inr m) = joined (chain-Reaches x xs h.1 s m) (edge h.0)
