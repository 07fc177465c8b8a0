-- ===== src/Autolink.antt =====
-- internal/application/autolink/autolink.go: the similarity edges proposed for a set of nodes. The
-- lookup of the embeddings and the vector search are parameters that may fail; a score stands as the
-- bit pattern of its float32, which for numbers of at least +0 has their order.
pub mod Proposals
use veska.Common.{
  ℕ, zero, suc, ◌+◌, ◌*◌, ◌≤◌, ◌≡◌, refl, sym, ap, ◌∙◌, subst, inl, inr, Bool, true, false, not,
  ◌&&◌, ◌||◌, Option, none, some, List, [], ◌∷◌, ◌++◌, map, String, Result, Result-cases, ok, err,
  ◌>>=◌, >>=-inv, ◌==◌, string_eq, nat_eq, if◌then◌else◌, ltb, leb, length, length-append, contains,
  All, All-append, All-map, Bool-cases, Option-cases, arith, ◌^◌, ℤ, pos, negsuc, ◌<◌, take,
  keep_if, none-kept,
}
use veska.VecCodec.{decode_float32_le}

-- A decoding that panics ends the run.
pub data LinkError {ℓ} (E : Type ℓ) : Type ℓ where
  failed : E → LinkError E
  panicked : LinkError E

abbrev lift {ℓ κ} : {E : Type ℓ} {A : Type κ} → Result E A → Result (LinkError E) A
lift (ok a) = ok a
lift (err e) = err (failed e)

pub record Candidate : Type 0 where
  pub source_node_id : String
  pub target_node_id : String
  pub score : ℕ
  pub repo_id : String
  pub branch : String

-- What the search and the embedding store answer.
pub record Hit : Type 0 where
  pub node_id : String
  pub score : ℕ

pub record Embedding : Type 0 where
  pub blob : List ℕ
  pub dim : ℤ

-- `content_hash_for_node` answers the hash and whether it is ready.
pub record EmbeddingLookup {ℓ} (E : Type ℓ) : Type ℓ where
  pub content_hash_for_node : String → Result E (String × Bool)
  pub lookup_existing : String → Result E (Option Embedding)

abbrev pub default_top_k : ℕ
default_top_k = 5

-- The bit pattern of 0.60.
abbrev pub default_threshold : ℕ
default_threshold = 1058642330

pub record Linker : Type 0 where
  pub k : ℕ
  pub threshold : ℕ

-- WithTopK and WithThreshold: 0 stands for every count that is not positive, and a pattern with the
-- bit of the sign for a negative number, which leaves out minus zero.
abbrev pub with_top_k : ℕ → Linker → Linker
with_top_k k l = if ltb 0 k then record l { k = k } else l

abbrev pub with_threshold : ℕ → Linker → Linker
with_threshold t l = if ltb t (2 ^ 31) then record l { threshold = t } else l

abbrev pub admits : Linker → String → Hit → Bool
admits l src h = not (h.node_id == src) && leb l.threshold h.score

module _ (l : Linker) (repo_id branch : String) where
  abbrev pub candidate_of : String → Hit → Candidate
  candidate_of src h = record {
    source_node_id = src;
    target_node_id = h.node_id;
    score = h.score;
    repo_id = repo_id;
    branch = branch;
  }

  -- The loop over the hits, with the number that is left to emit.
  unfoldable pub emit : String → ℕ → List Hit → List Candidate
  emit src zero hits = []
  emit src (suc left) [] = []
  emit src (suc left) (h ∷ hits) =
      let next = emit src left hits in
      let same = emit src (suc left) hits in
      if admits l src h then candidate_of src h ∷ next else same

  module _ {ℓ} {E : Type ℓ} (refs : EmbeddingLookup E)
      (search : List ℕ → ℕ → Result E (List Hit)) where
    -- `dim != 0 && len(blob) >= dim*4`.
    abbrev pub is_usable : Embedding → Bool
    is_usable e = elim e.dim [
      | pos n ↦ not (n == 0) && leb (n * 4) (length e.blob)
      | negsuc n ↦ true
    ]

    abbrev searched : String → Option (List ℕ) → Result (LinkError E) (List Candidate)
    searched src none = err panicked
    searched src (some vec) = lift (search vec (suc l.k)) >>= λ hits. ok (emit src l.k hits)

    abbrev embedded : String → Option Embedding → Result (LinkError E) (List Candidate)
    embedded src none = ok []
    embedded src (some e) =
        if is_usable e then searched src (decode_float32_le e.blob e.dim) else ok []

    abbrev hashed : String → String × Bool → Result (LinkError E) (List Candidate)
    hashed src (hash, ready) =
        if not ready || hash == "" then ok [] else lift (refs.lookup_existing hash) >>= embedded src

    abbrev pub candidates_of : String → Result (LinkError E) (List Candidate)
    candidates_of src = lift (refs.content_hash_for_node src) >>= hashed src

    unfoldable pub candidates : List String → Result (LinkError E) (List Candidate)
    unfolding emit
    candidates [] = ok []
    candidates (src ∷ srcs) =
        candidates_of src >>= λ found. candidates srcs >>= λ later. ok (found ++ later)
