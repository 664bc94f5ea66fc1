-- ===== src/Graph/Search.antt =====
-- The search ends, and it reports a cycle exactly if there is no topological order.
use tcs_cosheaf.Base.{
  String, ℕ, zero, suc, ◌<◌, ◌≤◌, Bool, true, false, List, [], ◌∷◌, Option, some, some_inj, ◌≡◌,
  ◌≢◌, ◌↔◌, refl, sym, ◌∙◌, ap, inl, inr, if◌then◌else◌, Bool-cases, Option-cases, any, any-true,
  any_of_In, In, length, str_eq, eq_iff, arith,
}
use tcs_cosheaf.Graph.Cycles.{
  elem, SearchState, visit_all, visit, add_cycle, with_cycle, same_cycle, finish,
}
use tcs_cosheaf.Graph.Order.{IsTopological, IsChain, acyclic, chain-Reaches, successor-In}

pub elem-In : (x : String) (xs : List String) → elem x xs ≡ true → In x xs
unfolding elem
elem-In x xs h = let (a, m, e) = any-true (λ t. str_eq t x) xs h in rw (← (eq_iff a x).0 e) m

pub In-elem : (x : String) (xs : List String) → In x xs → elem x xs ≡ true
unfolding elem
In-elem x xs m = any_of_In (λ t. str_eq t x) xs x m ((eq_iff x x).1 refl)

-- The vertices that are not on the stack.
abbrev pub unstacked : List String → List String → ℕ
unstacked stack [] = 0
unstacked stack (k ∷ ks) = let rest = unstacked stack ks in if elem k stack then rest else suc rest

elem-cons : (k id : String) (stack : List String) → elem k stack ≡ true → elem k (id ∷ stack) ≡ true
unfolding elem any
elem-cons k id stack h = ground arith

unstacked-le :
    (id : String) (stack known : List String) → unstacked (id ∷ stack) known ≤ unstacked stack known
unstacked-le id stack [] = omega arith
unstacked-le id stack (k ∷ ks) =
    let rest = unstacked-le id stack ks in let more = elem-cons k id stack in ground arith

-- Pushing a vertex leaves fewer.
unstacked-lt :
    (id : String) (stack known : List String)
    → In id known
    → elem id stack ≡ false
    → unstacked (id ∷ stack) known < unstacked stack known
unstacked-lt id stack [] m h = elim m [ ]
unstacked-lt id stack (k ∷ ks) (inl same) h =
    let rest = unstacked-le id stack ks in
    let on = In-elem k (id ∷ stack) (inl (sym same)) in
    let off : elem k stack ≡ false = ap (λ x. elem x stack) same ∙ h in ground arith
unstacked-lt id stack (k ∷ ks) (inr m) h =
    let rest = unstacked-lt id stack ks m h in let more = elem-cons k id stack in ground arith

module _ (adjacency : String → List String) (known : List String)
    (closed : (v d : String) → In v known → In d (adjacency v) → In d known) where
  visit_all-some :
      (step : String → SearchState → Option SearchState) (ds : List String)
      → ((d : String) → In d ds → (s : SearchState) → (t : SearchState) × (step d s ≡ some t))
      → (s : SearchState) → (t : SearchState) × (visit_all step ds s ≡ some t)
  unfolding visit_all
  visit_all-some step [] each s = (s, refl)
  visit_all-some step (d ∷ ds) each s =
      let (m, e) = each d (inl refl) s in
      let (t, f) = visit_all-some step ds (λ x here. each x (inr here)) m in
      (t, rw (e, visit_all) f)

  -- With more fuel than vertices off the stack, a visit returns.
  pub visit-some :
      (fuel : ℕ) (stack : List String) (id : String) (state : SearchState)
      → In id known
      → unstacked stack known < fuel
      → (t : SearchState) × (visit adjacency fuel stack id state ≡ some t)
  unfolding visit
  visit-some zero stack id state m h = absurd (omega arith)
  visit-some (suc fuel) stack id state m h = elim (Bool-cases (elem id stack)) [
    | inl e ↦ (with_cycle stack id state, rw e refl)
    | inr e ↦ elim (Bool-cases (elem id state.visited)) [
      | inl f ↦ (state, rw (e, f) refl)
      | inr f ↦
          let fewer = unstacked-lt id stack known m e in
          let (t, g) =
            visit_all-some (visit adjacency fuel (id ∷ stack)) (adjacency id)
              (λ d here s. visit-some fuel (id ∷ stack) d s (closed id d m here) (omega arith))
              state in
          (finish id t, rw (e, f, g) refl)
    ]
  ]

-- What a visit leaves of the state that it began with.
record Extends (s t : SearchState) : Type 0 where
  kept : (v : String) → In v s.visited → In v t.visited
  quiet : t.cycles ≡ [] → s.cycles ≡ []

Extends-refl : (s : SearchState) → Extends s s
Extends-refl s = record { kept = λ v m. m; quiet = λ h. h }

Extends-trans : (r s t : SearchState) → Extends r s → Extends s t → Extends r t
Extends-trans r s t a b = record {
  kept = λ v m. b.kept v (a.kept v m);
  quiet = λ h. a.quiet (b.quiet h);
}

add_cycle-ne-nil : (c : List String) (cs : List (List String)) → add_cycle c cs ≢ []
unfolding add_cycle any
add_cycle-ne-nil c [] h = cc
add_cycle-ne-nil c (x ∷ xs) h = go (any (same_cycle c) (x ∷ xs)) h
  where
    go : (b : Bool) → (if b then x ∷ xs else c ∷ x ∷ xs) ≡ [] → ⊥
    go true e = cc
    go false e = cc

module _ (adjacency : String → List String) where
  -- A visit that found no cycle has visited its vertex, and keeps a topological order.
  abbrev HasVisited : String → SearchState → SearchState → Type 0
  HasVisited id s t =
      t.cycles ≡ []
      → IsTopological adjacency s.visited
      → Extends s t × IsTopological adjacency t.visited × In id t.visited

  visit_all-HasVisited :
      (step : String → SearchState → Option SearchState)
      → ((d : String) (s t : SearchState)
          → step d s ≡ some t
          → (t.cycles ≡ [] → s.cycles ≡ []) × HasVisited d s t)
      → (ds : List String) (s t : SearchState) → visit_all step ds s ≡ some t
      → (t.cycles ≡ [] → s.cycles ≡ [])
        × (t.cycles ≡ []
            → IsTopological adjacency s.visited
            → Extends s t
              × IsTopological adjacency t.visited
              × ((d : String) → In d ds → In d t.visited))
  unfolding visit_all
  visit_all-HasVisited step each [] s t h =
      let same = some_inj h in
      (
        λ e. rw (ap (λ (x : SearchState). x.cycles) same) e,
        λ e topological. (rw (← same) (Extends-refl s), rw (← same) topological, λ d m. absurd m),
      )
  visit_all-HasVisited step each (d ∷ ds) s t h = elim (Option-cases (step d s)) [
    | inl e ↦ absurd (let k = (rw (e, visit_all) at h) in cc)
    | inr (m, e) ↦
        let (grows, first) = each d s m e in
        let (later, rest) = visit_all-HasVisited step each ds m t (rw (e, visit_all) at h) in
        (
          λ quiet. grows (later quiet),
          λ quiet topological.
              let (ext, order, here) = first (later quiet) topological in
              let (more, order_after, there) = rest quiet order in
              (
                Extends-trans s m t ext more,
                order_after,
                λ x k. elim k [ inl same ↦ more.kept x (rw (← same) here) | inr k ↦ there x k ],
              ),
        )
  ]

  visit-HasVisited :
      (fuel : ℕ) (stack : List String) (id : String) (s t : SearchState)
      → visit adjacency fuel stack id s ≡ some t
      → (t.cycles ≡ [] → s.cycles ≡ []) × HasVisited id s t
  unfolding visit
  visit-HasVisited zero stack id s t h = cc
  visit-HasVisited (suc fuel) stack id s t h = elim (Bool-cases (elem id stack)) [
    | inl e ↦
        let same = some_inj (rw (e, if◌then◌else◌) at h) in
        let none_left = λ (q : t.cycles ≡ []).
          add_cycle-ne-nil _ s.cycles (ap (λ (x : SearchState). x.cycles) same ∙ q) in
        (λ q. absurd (none_left q), λ q topological. absurd (none_left q))
    | inr e ↦ elim (Bool-cases (elem id s.visited)) [
      | inl f ↦
          let same = some_inj (rw (e, f, if◌then◌else◌) at h) in
          (
            λ q. rw (ap (λ (x : SearchState). x.cycles) same) q,
            λ q topological. (
              rw (← same) (Extends-refl s),
              rw (← same) topological,
              rw (← same) (elem-In id s.visited f),
            ),
          )
      | inr f ↦
          elim (Option-cases (visit_all (visit adjacency fuel (id ∷ stack)) (adjacency id) s)) [
            | inl g ↦ absurd (let k = (rw (e, f, g, if◌then◌else◌) at h) in cc)
            | inr (m, g) ↦
                let same : finish id m ≡ t = some_inj (rw (e, f, g, if◌then◌else◌) at h) in
                let (later, rest) =
                  visit_all-HasVisited (visit adjacency fuel (id ∷ stack))
                    (visit-HasVisited fuel (id ∷ stack)) (adjacency id) s m g in
                (
                  λ q. later (ap (λ (x : SearchState). x.cycles) same ∙ q),
                  λ q topological.
                      let (ext, order, there) =
                        rest (ap (λ (x : SearchState). x.cycles) same ∙ q) topological in
                      rw (← same) (
                        record { kept = λ v k. inr (ext.kept v k); quiet = ext.quiet },
                        (there, order),
                        inl refl,
                      ),
                )
          ]
    ]
  ]

-- Below a topological order a visit reports nothing.
module _ (adjacency : String → List String) (order : List String)
    (topological : IsTopological adjacency order) where
  visit_all-quiet :
      (step : String → SearchState → Option SearchState) (ds : List String)
      → ((d : String) → In d ds → (s t : SearchState) → step d s ≡ some t → t.cycles ≡ s.cycles)
      → (s t : SearchState) → visit_all step ds s ≡ some t
      → t.cycles ≡ s.cycles
  unfolding visit_all
  visit_all-quiet step [] each s t h = ap (λ (x : SearchState). x.cycles) (sym (some_inj h))
  visit_all-quiet step (d ∷ ds) each s t h = elim (Option-cases (step d s)) [
    | inl e ↦ absurd (let k = (rw (e, visit_all) at h) in cc)
    | inr (m, e) ↦
        visit_all-quiet step ds (λ x k. each x (inr k)) m t (rw (e, visit_all) at h)
        ∙ each d (inl refl) s m e
  ]

  visit-quiet :
      (fuel : ℕ) (stack : List String) (id : String) (s t : SearchState)
      → In id order
      → IsChain adjacency id stack
      → visit adjacency fuel stack id s ≡ some t
      → t.cycles ≡ s.cycles
  unfolding visit
  visit-quiet zero stack id s t m chain h = cc
  visit-quiet (suc fuel) stack id s t m chain h = elim (Bool-cases (elem id stack)) [
    | inl e ↦ absurd (
        acyclic adjacency order topological id m
          (chain-Reaches adjacency id stack chain id (elem-In id stack e)))
    | inr e ↦ elim (Bool-cases (elem id s.visited)) [
      | inl f ↦ ap (λ (x : SearchState). x.cycles) (sym (some_inj (rw (e, f, if◌then◌else◌) at h)))
      | inr f ↦
          elim (Option-cases (visit_all (visit adjacency fuel (id ∷ stack)) (adjacency id) s)) [
            | inl g ↦ absurd (let k = (rw (e, f, g, if◌then◌else◌) at h) in cc)
            | inr (u, g) ↦
                let same : finish id u ≡ t = some_inj (rw (e, f, g, if◌then◌else◌) at h) in
                ap (λ (x : SearchState). x.cycles) (sym same)
                ∙ visit_all-quiet (visit adjacency fuel (id ∷ stack)) (adjacency id)
                    (λ d k x y.
                      visit-quiet fuel (id ∷ stack) d x y
                        (successor-In adjacency order topological id d m k) (k, chain))
                    s u g
          ]
    ]
  ]

-- The search from all the vertices.
module _ (adjacency : String → List String) (known : List String)
    (closed : (v d : String) → In v known → In d (adjacency v) → In d known) where
  abbrev pub search_all : Option SearchState
  search_all =
      visit_all (visit adjacency (suc (length known)) []) known
        (record { cycles = []; visited = [] })

  unstacked-bound : (ks : List String) → unstacked [] ks ≤ length ks
  unstacked-bound [] = omega arith
  unstacked-bound (k ∷ ks) = let rest = unstacked-bound ks in ground arith

  -- The search returns.
  pub search_all-some : (t : SearchState) × (search_all ≡ some t)
  search_all-some =
      let bound = unstacked-bound known in
      visit_all-some adjacency known closed (visit adjacency (suc (length known)) []) known
        (λ d m s. visit-some adjacency known closed (suc (length known)) [] d s m (omega arith))
        (record { cycles = []; visited = [] })

  -- It reports no cycle exactly if the vertices have a topological order.
  pub search_all_iff :
      (t : SearchState)
      → search_all ≡ some t
      → (t.cycles ≡ []) ↔ (
          (order : List String) × IsTopological adjacency order
          × ((v : String) → In v known → In v order))
  search_all_iff t h = (
    λ q.
        let (grows, all_visited) =
          visit_all-HasVisited adjacency (visit adjacency (suc (length known)) [])
            (visit-HasVisited adjacency (suc (length known)) []) known
            (record { cycles = []; visited = [] }) t h in
        let (ext, order, there) = all_visited q tt in (t.visited, order, there),
    λ (order, topological, all_in).
        visit_all-quiet adjacency order topological (visit adjacency (suc (length known)) []) known
          (λ d m s u.
            visit-quiet adjacency order topological (suc (length known)) [] d s u (all_in d m) tt)
          (record { cycles = []; visited = [] }) t h,
  )
