-- ===== src/Autolink/Proposals.antt =====
-- What Candidates of internal/application/autolink/autolink.go proposes.
use native.Mathlib.Nat.{suc-mul}
use veska.Common.{
  occurrences, ◌+◌, if◌then◌else◌, ℕ, zero, suc, ◌*◌, ◌≤◌, ◌≡◌, refl, subst, inl, inr, Bool, true,
  false, not, ◌||◌, eq_iff, Option, none, some, List, [], ◌∷◌, ◌++◌, map, String, Result, ok,
  >>=-inv, ◌==◌, string_eq, length, contains, take, keep_if, All, All-append, Bool-cases, arith,
  pos,
}
use veska.VecCodec.{decode_float32_le, decode_total}
use veska.Autolink.{
  Candidate, Hit, Embedding, EmbeddingLookup, Linker, admits, candidate_of, emit, is_usable, lift,
  searched, embedded, hashed, candidates_of, candidates, LinkError,
}

module _ (l : Linker) (repo_id branch : String) where
  emit-take :
      (src : String) (left : ℕ) (hits : List Hit)
      → emit l repo_id branch src left hits
        ≡ take left (map (candidate_of l repo_id branch src) (keep_if (admits l src) hits))
  unfolding emit keep_if
  emit-take src zero hits = refl
  emit-take src (suc left) [] = refl
  emit-take src (suc left) (h ∷ hits) = elim (Bool-cases (admits l src h)) [
    | inl admitted ↦ rw (admitted, emit-take src left hits) refl
    | inr skipped ↦ rw (skipped, emit-take src (suc left) hits) refl
  ]

  -- A proposal for a source of the list: another node, of a score within the threshold.
  pub record IsProposal (srcs : List String) (c : Candidate) : Type 0 where
    pub of_source : contains srcs c.source_node_id ≡ true
    pub other : (c.target_node_id == c.source_node_id) ≡ false
    pub close : l.threshold ≤ c.score
    pub here : (c.repo_id ≡ repo_id) × (c.branch ≡ branch)

  emit-proposals :
      (src : String) (srcs : List String) (left : ℕ) (hits : List Hit)
      → contains srcs src ≡ true
      → All (IsProposal srcs) (emit l repo_id branch src left hits)
        × (length (emit l repo_id branch src left hits) ≤ left)
  unfolding emit
  emit-proposals src srcs zero hits c = (tt, omega arith)
  emit-proposals src srcs (suc left) [] c = (tt, omega arith)
  emit-proposals src srcs (suc left) (h ∷ hits) c = elim (Bool-cases (admits l src h)) [
    | inl admitted ↦
        let (later, few) = emit-proposals src srcs left hits c in
        rw (emit, admitted)
          (
            (
              record {
                of_source = c;
                other = ground arith;
                close = ground arith;
                here = (refl, refl);
              },
              later,
            ),
            omega (arith, few),
          )
    | inr skipped ↦ rw (emit, skipped) (emit-proposals src srcs (suc left) hits c)
  ]

  module _ {ℓ} {E : Type ℓ} (refs : EmbeddingLookup E)
      (search : List ℕ → ℕ → Result E (List Hit)) where
    abbrev FewProposals : List String → List Candidate → Type 0
    FewProposals srcs out = All (IsProposal srcs) out × (length out ≤ l.k)

    empty-proposals :
        (srcs : List String) (out : List Candidate)
        → ◌≡◌ {A = Result (LinkError E) (List Candidate)} (ok []) (ok out)
        → FewProposals srcs out
    empty-proposals srcs out e =
        let same : [] ≡ out = cc in subst (FewProposals srcs) same (tt, omega arith)

    searched-proposals :
        (src : String) (srcs : List String) (vec : Option (List ℕ)) (out : List Candidate)
        → contains srcs src ≡ true
        → searched l repo_id branch refs search src vec ≡ ok out
        → FewProposals srcs out
    searched-proposals src srcs none out c came = absurd cc
    searched-proposals src srcs (some vec) out c came =
        let (hits, asked, last) = >>=-inv (lift (search vec (suc l.k))) _ came in
        let same : emit l repo_id branch src l.k hits ≡ out = cc in
        subst (FewProposals srcs) same (emit-proposals src srcs l.k hits c)

    embedded-proposals :
        (src : String) (srcs : List String) (e : Option Embedding) (out : List Candidate)
        → contains srcs src ≡ true
        → embedded l repo_id branch refs search src e ≡ ok out
        → FewProposals srcs out
    embedded-proposals src srcs none out c came = empty-proposals srcs out came
    embedded-proposals src srcs (some e) out c came =
        elim (Bool-cases (is_usable l repo_id branch refs search e)) [
          | inl usable ↦ searched-proposals src srcs _ out c (rw usable at came)
          | inr broken ↦ empty-proposals srcs out (rw broken at came)
        ]

    hashed-proposals :
        (src : String) (srcs : List String) (answer : String × Bool) (out : List Candidate)
        → contains srcs src ≡ true
        → hashed l repo_id branch refs search src answer ≡ ok out
        → FewProposals srcs out
    hashed-proposals src srcs (hash, ready) out c came =
        elim (Bool-cases (not ready || hash == "")) [
          | inl unready ↦ empty-proposals srcs out (rw unready at came)
          | inr there ↦
              let (e, asked, last) =
                >>=-inv (lift (refs.lookup_existing hash)) _ (rw there at came) in
              embedded-proposals src srcs e out c last
        ]

    -- The number of proposals for a source.
    abbrev pub proposals_of : String → List Candidate → ℕ
    proposals_of a out = length (keep_if (λ c. a == c.source_node_id) out)

    -- Proposals for one source are for no other.
    proposals_of-one :
        (a src : String) (found : List Candidate)
        → All (IsProposal (src ∷ [])) found
        → proposals_of a found ≤ (if a == src then length found else 0)
    unfolding keep_if contains
    proposals_of-one a src [] ps = ground arith
    proposals_of-one a src (c ∷ found) (p, ps) =
        let same : c.source_node_id ≡ src =
          (eq_iff c.source_node_id src).0 (ground (arith, p.of_source)) in
        rw same (ground (arith, proposals_of-one a src found ps))

    proposals_of-append :
        (a : String) (found later : List Candidate)
        → proposals_of a (found ++ later) ≡ proposals_of a found + proposals_of a later
    unfolding keep_if
    proposals_of-append a [] later = omega arith
    proposals_of-append a (c ∷ found) later = ground (arith, proposals_of-append a found later)

    many :
        (a src : String) (srcs : List String) (found later : List Candidate)
        → All (IsProposal (src ∷ [])) found × (length found ≤ l.k)
        → proposals_of a later ≤ occurrences a srcs * l.k
        → proposals_of a (found ++ later) ≤ occurrences a (src ∷ srcs) * l.k
    unfolding occurrences
    many a src srcs found later (ps, few) few_later = ground (
      arith,
      proposals_of-one a src found ps,
      proposals_of-append a found later,
      suc-mul (occurrences a srcs) l.k,
    )

    Bounded : List String → List String → List Candidate → Type 0
    Bounded all srcs out =
        All (IsProposal all) out × ((a : String) → proposals_of a out ≤ occurrences a srcs * l.k)

    proposals_within :
        (all srcs : List String) (out : List Candidate)
        → ((a : String) → contains srcs a ≡ true → contains all a ≡ true)
        → candidates l repo_id branch refs search srcs ≡ ok out
        → Bounded all srcs out
    unfolding candidates contains keep_if Bounded
    proposals_within all [] out part came =
        let same : [] ≡ out = cc in subst (Bounded all []) same (tt, λ a. omega arith)
    proposals_within all (src ∷ srcs) out part came =
        let (found, got, rest) = >>=-inv (candidates_of l repo_id branch refs search src) _ came in
        let (later, got_later, last) =
          >>=-inv (candidates l repo_id branch refs search srcs) _ rest in
        let (answer, hash_asked, went_on) = >>=-inv (lift (refs.content_hash_for_node src)) _ got in
        let (here, few) =
          hashed-proposals src all answer found (part src (ground (arith, eq_iff src src)))
            went_on in
        let own =
          hashed-proposals src (src ∷ []) answer found (ground (arith, eq_iff src src)) went_on in
        let (there, few_later) =
          proposals_within all srcs later (λ a c. part a (ground arith)) got_later in
        let same : found ++ later ≡ out = cc in
        subst (Bounded all (src ∷ srcs)) same
          (All-append _ found later here there, λ a. many a src srcs found later own (few_later a))

    -- Every proposal is for a source of the list, names another node and scores at least the threshold,
    -- and of any one source there are at most k for each time that it stands in the list.
    pub candidates_lem :
        (srcs : List String) (out : List Candidate)
        → candidates l repo_id branch refs search srcs ≡ ok out
        → All (IsProposal srcs) out × ((a : String) → proposals_of a out ≤ occurrences a srcs * l.k)
    unfolding Bounded
    candidates_lem srcs out came = proposals_within srcs srcs out (λ a c. c) came

    -- What the search is given for a usable embedding of a count that is not negative: a vector of
    -- just so many elements.
    pub usable_vector :
        (blob : List ℕ) (dim : ℕ)
        → is_usable l repo_id branch refs search (record { blob = blob; dim = pos dim }) ≡ true
        → (vec : List ℕ) × (decode_float32_le blob (pos dim) ≡ some vec) × (length vec ≡ dim)
    usable_vector blob dim usable =
        let (vec, decoded, len) = decode_total blob dim in (vec, decoded, ground (arith, len))
