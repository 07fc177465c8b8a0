-- ===== src/Blast/Walk.antt =====
-- The rule by which a property of what was found is carried through the whole walk.
use veska.Common.{
  ℕ, zero, suc, ◌+◌, ◌<◌, ◌≡◌, ◌≢◌, inl, inr, not, ◌&&◌, List, [], ◌∷◌, String, ok, ◌==◌, string_eq,
  eq_iff, length, All, All-append, All-map, arith, Bool-cases, >>=-inv, subst,
}
use veska.Blast.{
  Applied, Found, nothing_found, enqueue, seed, visit_all, is_gated, Neighbours, expand_frontier,
  EdgeReader, expand_per_source, hops, walk, has_elements,
}

module _ {ℓ κ μ} {E : Type ℓ} (reader : EdgeReader E) (o : Applied) (P : Found → Type κ)
    (Q : ℕ → String → Type μ)
    (keep : (id : String) (dist : ℕ) (w : Found)
      → Q dist id
      → P w
      → P (enqueue o.max_nodes id dist w).0)
    (mark : (w : Found) (hubs : List String) → P w → P (record w { hubs = hubs }))
    (grow : (frontier : List String) (per_src : Neighbours) (dist : ℕ) (src : String)
      → expand_per_source reader o.direction frontier ≡ ok per_src
      → dist < o.max_depth
      → Q dist src
      → All (Q (dist + 1)) (per_src src)) where
  seed_keeps :
      (ids : List String) (w : Found)
      → All (λ id. id ≢ "" → Q 0 id) ids
      → P w
      → P (seed o.max_nodes ids w).0 × All (Q 0) (seed o.max_nodes ids w).1
  unfolding seed
  seed_keeps [] w q p = (p, tt)
  seed_keeps (id ∷ ids) w q p = elim (Bool-cases (id == "")) [
    | inl empty ↦ rw empty (seed_keeps ids w q.1 p)
    | inr given ↦
        let here : Q 0 id = q.0 (λ e. ground (arith, eq_iff id "")) in
        let (p', q') = seed_keeps ids (enqueue o.max_nodes id 0 w).0 q.1 (keep id 0 w here p) in
        rw given (elim (Bool-cases (enqueue o.max_nodes id 0 w).1) [
          | inl room ↦ rw room (p', (here, q'))
          | inr full ↦ rw full (p', q')
        ])
  ]

  visit_all_keeps :
      (dist : ℕ) (ns : List String) (w : Found)
      → All (Q dist) ns
      → P w
      → P (visit_all o.max_nodes dist ns w).0 × All (Q dist) (visit_all o.max_nodes dist ns w).1
  unfolding visit_all
  visit_all_keeps dist [] w q p = (p, tt)
  visit_all_keeps dist (n ∷ ns) w q p =
      let next = keep n dist w q.0 p in
      let (p', q') = visit_all_keeps dist ns (enqueue o.max_nodes n dist w).0 q.1 next in
      elim (Bool-cases (enqueue o.max_nodes n dist w).1) [
        | inl room ↦ rw room (p', (q.0, q'))
        | inr full ↦ rw full (next, tt)
      ]

  expand_frontier_keeps :
      (dist : ℕ) (per_src : Neighbours) (frontier : List String) (w : Found)
      → All (λ src. All (Q dist) (per_src src)) frontier
      → P w
      → P (expand_frontier o dist per_src frontier w).0
        × All (Q dist) (expand_frontier o dist per_src frontier w).1
  unfolding expand_frontier
  expand_frontier_keeps dist per_src [] w q p = (p, tt)
  expand_frontier_keeps dist per_src (src ∷ rest) w q p =
      let ns = per_src src in
      let (p', q') = visit_all_keeps dist ns w q.0 p in
      let (p'', q'') =
        expand_frontier_keeps dist per_src rest (visit_all o.max_nodes dist ns w).0 q.1 p' in
      elim (Bool-cases (is_gated o.hub_degree_threshold (length ns))) [
        | inl gated ↦ rw gated (
            expand_frontier_keeps dist per_src rest (record w { hubs = src ∷ w.hubs }) q.1
              (mark w (src ∷ w.hubs) p))
        | inr ungated ↦ rw ungated (elim (Bool-cases (visit_all o.max_nodes dist ns w).2) [
          | inl whole ↦ rw whole (p'', All-append (Q dist) _ _ q' q'')
          | inr broken ↦ rw broken (p', q')
        ])
      ]

  hops_keep :
      (left dist : ℕ) (frontier : List String) (w w' : Found)
      → dist + left ≡ o.max_depth
      → All (Q dist) frontier
      → P w
      → hops reader o left dist frontier w ≡ ok w'
      → P w'
  unfolding hops
  hops_keep zero dist frontier w w' e q p h = let same : w ≡ w' = cc in subst P same p
  hops_keep (suc left) dist frontier w w' e q p h =
      elim (Bool-cases (has_elements frontier && not w.truncated)) [
        | inl go ↦
            let (per_src, asked, rest) =
              >>=-inv (expand_per_source reader o.direction frontier) _ (rw go at h) in
            let wanted =
              All-map (Q dist) (λ src. All (Q (dist + 1)) (per_src src))
                (λ src. grow frontier per_src dist src asked (omega arith)) frontier q in
            let (p', q') = expand_frontier_keeps (dist + 1) per_src frontier w wanted p in
            hops_keep left (dist + 1) (expand_frontier o (dist + 1) per_src frontier w).1
              (expand_frontier o (dist + 1) per_src frontier w).0 w' (omega arith) q' p' rest
        | inr stop ↦ let same : w ≡ w' = cc (rw stop at h) in subst P same p
      ]

  -- What enqueueing a wanted node and marking a hub keep, the walk keeps, when the neighbours of a
  -- wanted node are wanted one hop farther.
  pub walk_keeps :
      (seeds : List String) (w : Found)
      → All (λ id. id ≢ "" → Q 0 id) seeds
      → P nothing_found
      → walk reader o seeds ≡ ok w
      → P w
  unfolding walk
  walk_keeps seeds w q p h =
      let (p', q') = seed_keeps seeds nothing_found q p in
      hops_keep o.max_depth 0 (seed o.max_nodes seeds nothing_found).1
        (seed o.max_nodes seeds nothing_found).0 w (omega arith) q' p' h
