-- ===== src/VecCodec.antt =====
-- internal/application/veccodec/veccodec.go: vectors as little-endian bytes. A float32 stands as its
-- 32-bit pattern, which Float32bits and Float32frombits pass on.
use veska.Common.{
  ℕ, zero, suc, ◌+◌, ◌*◌, ◌%◌, ◌^◌, ◌≤◌, ◌<◌, ◌≡◌, refl, ap, Option, none, some, List, [], ◌∷◌,
  ◌++◌, ℤ, pos, negsuc, length, length-append, get_elem?, All, arith, ltb, if◌then◌else◌,
}
use Prim.Native.Nat.{◌/◌}
use mathlib.Core.List.{append_assoc}

-- `binary.LittleEndian.PutUint32`.
abbrev pub put_u32 : ℕ → List ℕ → List ℕ
put_u32 w rest = w % 256 ∷ w / 256 % 256 ∷ w / 65536 % 256 ∷ w / 16777216 % 256 ∷ rest

unfoldable pub encode_float32_le : List ℕ → List ℕ
encode_float32_le [] = []
encode_float32_le (w ∷ ws) = put_u32 w (encode_float32_le ws)

infixl 5 ◌>>=◌
abbrev ◌>>=◌ {ℓ κ} : {A : Type ℓ} {B : Type κ} → Option A → (A → Option B) → Option B
none >>= f = none
some a >>= f = f a

-- `binary.LittleEndian.Uint32(blob[k : k+4])`; `none` is a panic.
unfoldable pub u32_at : List ℕ → ℕ → Option ℕ
u32_at blob k = do
  a ← get_elem? blob k
  b ← get_elem? blob (k + 1)
  c ← get_elem? blob (k + 2)
  d ← get_elem? blob (k + 3)
  some (a + b * 256 + c * 65536 + d * 16777216)

-- The elements from `i` on, `n` of them.
unfoldable pub decode_from : List ℕ → ℕ → ℕ → Option (List ℕ)
decode_from blob i zero = some []
decode_from blob i (suc n) = do
  w ← u32_at blob (i * 4)
  ws ← decode_from blob (i + 1) n
  some (w ∷ ws)

abbrev pub shorter : ℕ → ℕ → ℕ
shorter have dim = if ltb have dim then have else dim

-- A negative `dim` makes a slice of negative length, which panics.
unfoldable pub decode_float32_le : List ℕ → ℤ → Option (List ℕ)
decode_float32_le blob (pos dim) = decode_from blob 0 (shorter (length blob / 4) dim)
decode_float32_le blob (negsuc n) = none

get_elem?-append {ℓ} :
    {A : Type ℓ} (front back : List A) (i k : ℕ)
    → i ≡ length front + k
    → get_elem? (front ++ back) i ≡ get_elem? back k
get_elem?-append [] back i k e = let same : i ≡ k = omega arith in ap (get_elem? back) same
get_elem?-append (x ∷ front) back zero k e = absurd (omega arith)
get_elem?-append (x ∷ front) back (suc i) k e = get_elem?-append front back i k (omega arith)

u32_at-put_u32 :
    (front rest : List ℕ) (w : ℕ)
    → w < 2 ^ 32
    → u32_at (front ++ put_u32 w rest) (length front) ≡ some w
unfolding u32_at
u32_at-put_u32 front rest w h = ground (
  arith,
  get_elem?-append front (put_u32 w rest) (length front) 0,
  get_elem?-append front (put_u32 w rest) (length front + 1) 1,
  get_elem?-append front (put_u32 w rest) (length front + 2) 2,
  get_elem?-append front (put_u32 w rest) (length front + 3) 3,
)

decode_from-encode :
    (front v rest : List ℕ) (i : ℕ)
    → length front ≡ i * 4
    → All (λ w. w < 2 ^ 32) v
    → decode_from (front ++ (encode_float32_le v ++ rest)) i (length v) ≡ some v
unfolding decode_from encode_float32_le
decode_from-encode front [] rest i e h = refl
decode_from-encode front (w ∷ v) rest i e h =
    let tail = encode_float32_le v ++ rest in
    let here : u32_at (front ++ put_u32 w tail) (i * 4) ≡ some w =
      rw (← e) (u32_at-put_u32 front tail w h.0) in
    let front' = front ++ put_u32 w [] in
    let longer : length front' ≡ (i + 1) * 4 =
      omega (arith, length-append front (put_u32 w []), e) in
    let later = decode_from-encode front' v rest (i + 1) longer h.1 in
    let same : front' ++ tail ≡ front ++ put_u32 w tail = append_assoc front (put_u32 w []) tail in
    let later' : decode_from (front ++ put_u32 w tail) (i + 1) (length v) ≡ some v =
      rw same at later in
    rw (here, later')

length-encode_float32_le : (v : List ℕ) → length (encode_float32_le v) ≡ 4 * length v
unfolding encode_float32_le
length-encode_float32_le [] = omega arith
length-encode_float32_le (w ∷ v) = omega (arith, length-encode_float32_le v)

-- Decoding what was encoded gives the vector back, whatever bytes follow it, when each element is a
-- 32-bit pattern and the number of elements is asked for.
pub decode-encode :
    (v rest : List ℕ)
    → All (λ w. w < 2 ^ 32) v
    → decode_float32_le (encode_float32_le v ++ rest) (pos (length v)) ≡ some v
unfolding decode_float32_le
decode-encode v rest h =
    let enough : shorter (length (encode_float32_le v ++ rest) / 4) (length v) ≡ length v =
      ground (arith, length-append (encode_float32_le v) rest, length-encode_float32_le v) in
    rw enough (decode_from-encode [] v rest 0 refl h)

get_elem?-some {ℓ} :
    {A : Type ℓ} (xs : List A) (i : ℕ) → i < length xs → (a : A) × (get_elem? xs i ≡ some a)
get_elem?-some [] i h = absurd (omega arith)
get_elem?-some (x ∷ xs) zero h = (x, refl)
get_elem?-some (x ∷ xs) (suc i) h = get_elem?-some xs i (omega arith)

u32_at-some : (blob : List ℕ) (k : ℕ) → k + 3 < length blob → (w : ℕ) × (u32_at blob k ≡ some w)
unfolding u32_at
u32_at-some blob k h =
    let (a, p) = get_elem?-some blob k (omega arith) in
    let (b, q) = get_elem?-some blob (k + 1) (omega arith) in
    let (c, r) = get_elem?-some blob (k + 2) (omega arith) in
    let (d, s) = get_elem?-some blob (k + 3) (omega arith) in
    (a + b * 256 + c * 65536 + d * 16777216, rw (p, q, r, s) refl)

decode_from-some :
    (blob : List ℕ) (i n : ℕ)
    → (i + n) * 4 ≤ length blob
    → (ws : List ℕ) × (decode_from blob i n ≡ some ws) × (length ws ≡ n)
unfolding decode_from
decode_from-some blob i zero h = ([], refl, refl)
decode_from-some blob i (suc n) h =
    let (w, p) = u32_at-some blob (i * 4) (omega arith) in
    let (ws, q, len) = decode_from-some blob (i + 1) n (omega arith) in
    (w ∷ ws, rw (p, q) refl, omega (arith, len))

-- Decoding never panics on a count that is not negative: of any bytes it gives as many elements as
-- are asked for, or as many whole ones as there are, if these are fewer.
pub decode_total :
    (blob : List ℕ) (dim : ℕ)
    → (ws : List ℕ) × (decode_float32_le blob (pos dim) ≡ some ws)
      × (length ws ≡ shorter (length blob / 4) dim)
unfolding decode_float32_le
decode_total blob dim = decode_from-some blob 0 (shorter (length blob / 4) dim) (ground arith)
