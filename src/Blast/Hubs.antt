-- ===== src/Blast/Hubs.antt =====
-- A source that stands in the frontier more than once.
use native.Mathlib.Nat.{mul-add, mul-zero}
use veska.Common.{
  occurrences, ℕ, ◌+◌, ◌*◌, ◌≤◌, ◌<◌, ◌≡◌, ap, inl, inr, true, List, [], ◌∷◌, ◌++◌, String, ok,
  ◌==◌, string_eq, eq_iff, if◌then◌else◌, length, length-append, arith, Bool-cases, pos, Bool,
  false, Result, >>=-inv,
}
use veska.Common.Dict.{Dict, lookup, insert, lookup-insert}
use veska.Blast.{
  Direction, walks_in, walks_out, appended, Applied, Found, Neighbours, EdgeReader, append_each,
  list_at, expand_per_source, expand_frontier, is_gated,
}

-- The list that one hop collects for a source holds its neighbours once for every time that the
-- source stands in the frontier.
pub length-append_each :
    (m : Neighbours) (ids : List String) (out : Dict String (List String)) (id : String)
    → length (list_at (lookup id (append_each m ids out)))
      ≡ length (list_at (lookup id out)) + occurrences id ids * length (m id)
unfolding append_each occurrences
length-append_each m [] out id = omega arith
length-append_each m (x ∷ ids) out id =
    let grown = list_at (lookup x out) ++ m x in
    elim (Bool-cases (id == x)) [
      | inl same ↦
          let e : id ≡ x = (eq_iff id x).0 same in
          ground (
            arith,
            length-append_each m ids (insert x grown out) id,
            lookup-insert x id grown out,
            length-append (list_at (lookup x out)) (m x),
          )
      | inr other ↦
          ground
            (arith, length-append_each m ids (insert x grown out) id, lookup-insert x id grown out)
    ]

appended_lem {ℓ} :
    {E : Type ℓ} (reader : EdgeReader E) (wanted : Bool) (read : List String → Result E Neighbours)
    (m : Neighbours) (frontier : List String) (out out' : Dict String (List String)) (id : String)
    → read frontier ≡ ok m
    → appended reader wanted read frontier out ≡ ok out'
    → length (list_at (lookup id out'))
      ≡ length (list_at (lookup id out))
        + occurrences id frontier * (if wanted then length (m id) else 0)
appended_lem reader false read m frontier out out' id asked e =
    let same : out ≡ out' = cc in
    omega (arith, ap (λ o. length (list_at (lookup id o))) same, mul-zero (occurrences id frontier))
appended_lem reader true read m frontier out out' id asked e =
    let read_it : ok (append_each m frontier out) ≡ ok out' = rw asked at e in
    let same : append_each m frontier out ≡ out' = cc in
    omega
      (arith, ap (λ o. length (list_at (lookup id o))) same, length-append_each m frontier out id)

-- The neighbours of a node in a direction, counted once.
abbrev pub degree : Direction → Neighbours → Neighbours → String → ℕ
degree dir ins outs id =
    (if walks_in dir then length (ins id) else 0) + (if walks_out dir then length (outs id) else 0)

collected {ℓ} :
    {E : Type ℓ} (reader : EdgeReader E) (dir : Direction) (ins outs per_src : Neighbours)
    (frontier : List String) (src : String)
    → reader.inbound frontier ≡ ok ins
    → reader.outbound frontier ≡ ok outs
    → expand_per_source reader dir frontier ≡ ok per_src
    → length (per_src src) ≡ occurrences src frontier * degree dir ins outs src
unfolding expand_per_source lookup
collected reader dir ins outs per_src frontier src asked asked' e =
    let (one, first, rest) =
      >>=-inv (appended reader (walks_in dir) reader.inbound frontier []) _ e in
    let (all, second, last) =
      >>=-inv (appended reader (walks_out dir) reader.outbound frontier one) _ rest in
    let same : (λ id. list_at (lookup id all)) ≡ per_src = cc in
    omega (
      arith,
      ap (λ f. length (f src)) same,
      appended_lem reader (walks_in dir) reader.inbound ins frontier [] one src asked first,
      appended_lem reader (walks_out dir) reader.outbound outs frontier one all src asked' second,
      mul-add (occurrences src frontier) (if walks_in dir then length (ins src) else 0)
          (if walks_out dir then length (outs src) else 0),
    )

-- Whatever the direction of the walk, a node of a degree within the threshold is gated as a hub, and
-- its neighbours are left out, as soon as it stands in the frontier so often that its neighbours,
-- listed once for each time, are more than the threshold.
pub repeated_source_gated {ℓ} :
    {E : Type ℓ} (reader : EdgeReader E) (o : Applied) (ins outs per_src : Neighbours)
    (frontier rest : List String) (src : String) (threshold dist : ℕ) (w : Found)
    → o.hub_degree_threshold ≡ pos threshold
    → reader.inbound frontier ≡ ok ins
    → reader.outbound frontier ≡ ok outs
    → expand_per_source reader o.direction frontier ≡ ok per_src
    → degree o.direction ins outs src ≤ threshold
    → 0 < threshold
    → threshold < occurrences src frontier * degree o.direction ins outs src
    → expand_frontier o dist per_src (src ∷ rest) w
      ≡ expand_frontier o dist per_src rest (record w { hubs = src ∷ w.hubs })
unfolding expand_frontier
repeated_source_gated reader o ins outs per_src frontier rest src threshold dist w t asked asked' e
      few some_gate many =
    let n = collected reader o.direction ins outs per_src frontier src asked asked' e in
    let gated : is_gated o.hub_degree_threshold (length (per_src src)) ≡ true =
      rw t (ground arith) in
    rw gated
